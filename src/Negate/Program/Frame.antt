-- ===== src/Negate/Program/Frame.antt =====
-- lab08/src/negate.c: what the threads of either method leave alone, and what they do to the cells.
use agh_sem4_sysopy.Common.{
  ℕ, ◌-◌, ◌<◌, ◌≡◌, refl, ◌∙◌, Bool, true, false, List, [], ◌∷◌, ltb, if◌then◌else◌, Bool-cases,
  inl, inr,
}
use agh_sem4_sysopy.Negate.Image.{Image, IsGrey, size, cell, negate_cell}
use agh_sem4_sysopy.Negate.Numbers
use agh_sem4_sysopy.Negate.Blocks
use agh_sem4_sysopy.Negate.Numbers.Negates.{numbers-negates}
use agh_sem4_sysopy.Negate.Blocks.Negates.{blocks-negate}
use agh_sem4_sysopy.Negate.Program.{Method, numbers, block, negate, AllJoined, AllSteady}

-- What a thread leaves alone.
pub record SameFrame (a b : Image) : Type 0 where
  pub type : a.type ≡ b.type
  pub width : a.width ≡ b.width
  pub height : a.height ≡ b.height
  pub pixel_max : a.pixel_max ≡ b.pixel_max

pub same_size : (a b : Image) → SameFrame a b → size a ≡ size b
same_size a b f = rw (f.width, f.height) refl

same : (a : Image) → SameFrame a a
same a = record { type = refl; width = refl; height = refl; pixel_max = refl }

negated_same : (a : Image) (i : ℕ) → SameFrame (negate_cell a i) a
negated_same a i = record { type = refl; width = refl; height = refl; pixel_max = refl }

pub then_same : (a b c : Image) → SameFrame a b → SameFrame b c → SameFrame a c
then_same a b c f g = record {
  type = f.type ∙ g.type;
  width = f.width ∙ g.width;
  height = f.height ∙ g.height;
  pixel_max = f.pixel_max ∙ g.pixel_max;
}

choice_same :
    (b : Bool) (x y i : Image) → SameFrame x i → SameFrame y i → SameFrame (if b then x else y) i
choice_same true x y i f g = f
choice_same false x y i f g = g

numbers_step :
    (n t : ℕ) (s : Numbers.State) (p : Numbers.Thread)
    → SameFrame (Numbers.thread_step n t s p).image s.image
unfolding Numbers.thread_step
numbers_step n t s (Numbers.at_cell i) = elim (Bool-cases (ltb i (size s.image))) [
  | inl e ↦ rw e (same s.image)
  | inr e ↦ rw e (same s.image)
]
numbers_step n t s (Numbers.has_test i b) = same s.image
numbers_step n t s (Numbers.has_val i val) =
    choice_same _ (negate_cell s.image i) s.image s.image (negated_same s.image i) (same s.image)

numbers-SameFrame :
    (n : ℕ) (schedule : List ℕ) (s : Numbers.State)
    → SameFrame (Numbers.run n schedule s).image s.image
unfolding Numbers.run
numbers-SameFrame n [] s = same s.image
numbers-SameFrame n (t ∷ schedule) s =
    then_same _ (Numbers.turn n t s).image s.image
      (numbers-SameFrame n schedule (Numbers.turn n t s))
      (numbers_step n t s (Numbers.thread_at s.threads t))

blocks_step :
    (n t : ℕ) (s : Blocks.State) (p : Blocks.Thread)
    → SameFrame (Blocks.thread_step n t s p).image s.image
unfolding Blocks.thread_step
blocks_step n t s (Blocks.at_column i) = elim (Bool-cases (Blocks.in_block s.image n t i)) [
  | inl e ↦ rw e (same s.image)
  | inr e ↦ rw e (same s.image)
]
blocks_step n t s (Blocks.at_row i j) = elim (Bool-cases (ltb j (size s.image))) [
  | inl e ↦ rw e (negated_same s.image j)
  | inr e ↦ rw e (same s.image)
]

blocks-SameFrame :
    (n : ℕ) (schedule : List ℕ) (s : Blocks.State)
    → SameFrame (Blocks.run n schedule s).image s.image
unfolding Blocks.run
blocks-SameFrame n [] s = same s.image
blocks-SameFrame n (t ∷ schedule) s =
    then_same _ (Blocks.turn n t s).image s.image (blocks-SameFrame n schedule (Blocks.turn n t s))
      (blocks_step n t s (Blocks.thread_at s.threads t))

-- Either method negates the image and keeps its frame.
pub record Negates (orig image : Image) : Type 0 where
  pub frame : SameFrame image orig
  pub cells :
      (j : ℕ)
      → cell image j ≡ (if ltb j (size orig) then orig.pixel_max - cell orig j else cell orig j)

pub negate-Negates :
    (method : Method) (n : ℕ) (schedule : List ℕ) (orig : Image)
    → IsGrey orig
    → 0 < n
    → AllSteady method n schedule orig
    → AllJoined method n schedule orig
    → Negates orig (negate method n schedule orig)
unfolding negate
negate-Negates numbers n schedule orig g h b j = record {
  frame = numbers-SameFrame n schedule (Numbers.created n orig);
  cells = numbers-negates orig g n h schedule b j;
}
negate-Negates block n schedule orig g h b j = record {
  frame = blocks-SameFrame n schedule (Blocks.created n orig);
  cells = blocks-negate orig g n h schedule j;
}

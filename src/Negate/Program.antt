-- ===== src/Negate/Program.antt =====
-- lab08/src/negate.c: `main`. What the files hold and the order in which the threads take their turns
-- are arguments.
pub mod Frame
pub mod Negative
mod Tests
use agh_sem4_sysopy.Common.{
  ℕ, Bool, true, false, Option, none, some, List, [], ◌∷◌, if◌then◌else◌, ◌≡◌,
}
use agh_sem4_sysopy.Common.Int.{ℤ, pos, negsuc}
use agh_sem4_sysopy.Libc.Numbers.{strtol, to_int}
use agh_sem4_sysopy.Libc.Strings.{str_eq}
use agh_sem4_sysopy.Libc.Text.{codes}
use agh_sem4_sysopy.Negate.Image.{Image, size}
use agh_sem4_sysopy.Negate.Files.{Load, loaded, fails, outside, load_image, save_image}
use agh_sem4_sysopy.Negate.Numbers
use agh_sem4_sysopy.Negate.Blocks

-- `enum options`
pub data Method : Type 0 where
  numbers block : Method

-- `exits` is ERROR_MSG; `unknown` is where `load_image` leaves the model, or the number of threads is
-- negative; `writes` is the file that is written, and its name.
pub data Outcome : Type 0 where
  writes : (name contents : List ℕ) → Outcome
  exits : Outcome
  unknown : Outcome

unfoldable pub method_of : List ℕ → Option Method
method_of arg =
    if str_eq arg (codes "numbers")
    then some numbers
    else (if str_eq arg (codes "block") then some block else none)

unfoldable pub negate : Method → ℕ → List ℕ → Image → Image
negate numbers threads_no schedule image =
    (Numbers.run threads_no schedule (Numbers.created threads_no image)).image
negate block threads_no schedule image =
    (Blocks.run threads_no schedule (Blocks.created threads_no image)).image

module _ (max_pixels : ℕ) (files : List ℕ → Option (List ℕ)) (schedule : List ℕ) where
  unfoldable pub negate_and_save : Method → ℕ → List ℕ → Load → Outcome
  negate_and_save method threads_no ofilename (loaded image) =
      writes ofilename (save_image (negate method threads_no schedule image))
  negate_and_save method threads_no ofilename fails = exits
  negate_and_save method threads_no ofilename outside = unknown

  unfoldable pub with_option : ℤ → Option Method → List ℕ → List ℕ → Outcome
  unfolding negate_and_save
  with_option threads_no none ifilename ofilename = exits
  with_option (negsuc n) (some method) ifilename ofilename = unknown
  with_option (pos n) (some method) ifilename ofilename = elim (files ifilename) [
    | none ↦ exits
    | some file ↦ negate_and_save method n ofilename (load_image max_pixels file)
  ]

  unfoldable pub main : List (List ℕ) → Outcome
  unfolding with_option
  main (program ∷ threads_no ∷ option ∷ ifilename ∷ ofilename ∷ []) =
      with_option (to_int (strtol threads_no)) (method_of option) ifilename ofilename
  main _ = exits

-- The threads have all left their loops.
abbrev pub AllJoined : Method → ℕ → List ℕ → Image → Type 0
AllJoined numbers threads_no schedule image =
    let s = Numbers.run threads_no schedule (Numbers.created threads_no image) in
    Numbers.all_joined (size s.image) s.threads ≡ true
AllJoined block threads_no schedule image =
    let s = Blocks.run threads_no schedule (Blocks.created threads_no image) in
    Blocks.all_joined image threads_no 0 s.threads ≡ true

-- In `numbers` every cell is as bright at the second read for `val` as at the first.
abbrev pub AllSteady : Method → ℕ → List ℕ → Image → Type 0
AllSteady numbers threads_no schedule image =
    Numbers.AllSteady threads_no schedule (Numbers.created threads_no image)
AllSteady block threads_no schedule image = Unit

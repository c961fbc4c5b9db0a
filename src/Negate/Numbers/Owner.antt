-- ===== src/Negate/Numbers/Owner.antt =====
-- lab08/src/negate.c: the one thread whose index a cell's `val` picks, and what is true between two turns.
use Prim.Native.Nat.{◌/◌}
use agh_sem4_sysopy.Common.{
  Bool, true, false, Bool-cases, inl, inr, refl, sym, ap, ◌∙◌, ℕ, ◌+◌, ◌-◌, ◌%◌, ◌≤◌, ◌<◌, ◌≡◌,
  arith, length, set, get_or-set, length-set, ltb, ◌==◌, ◌&&◌, if◌then◌else◌,
}
use agh_sem4_sysopy.Common.Int.{ℤ, pos, eqb_ℤ}
use agh_sem4_sysopy.Negate.Image.{
  Image, IsGrey, cell, negate_cell, size, negated, val_of, val_from, rem, val_of-negated,
}
use agh_sem4_sysopy.Negate.Numbers.{Thread, at_cell, has_test, has_val, is_bright, State, thread_at}

-- `val` of a cell no brighter than `pixel_max`, which is not negative.
abbrev pub level : ℕ → ℕ → ℕ
level pixel_max c = if ltb (pixel_max / 2) c then pixel_max - c else c

pub val_of-level : (pixel_max c : ℕ) → c ≤ pixel_max → val_of pixel_max c ≡ pos (level pixel_max c)
unfolding val_of
val_of-level m c h = ground arith

-- The index of the thread that negates cell `i` of the image.
unfoldable pub owner : Image → ℕ → ℕ → ℕ
owner image threads_no i = level image.pixel_max (cell image i) % threads_no

abbrev pub passed : Thread → ℕ
passed (at_cell i) = i
passed (has_test i _) = i
passed (has_val i _) = i

-- What holds between two turns, whatever the schedule.
pub record Places (orig : Image) (threads_no : ℕ) (s : State) : Type 0 where
  pub depth : s.image.pixel_max ≡ orig.pixel_max
  pub dim : size s.image ≡ size orig
  pub count : length s.threads ≡ threads_no
  pub within : (t : ℕ) → passed (thread_at s.threads t) ≤ size orig
  pub testing : (t i : ℕ) (b : Bool) → thread_at s.threads t ≡ has_test i b → i < size orig
  pub holding : (t i : ℕ) (v : ℤ) → thread_at s.threads t ≡ has_val i v → i < size orig

pub record Inv (orig : Image) (threads_no : ℕ) (s : State) : Type 0 where
  pub places : Places orig threads_no s
  pub len : length s.image.cells ≡ length orig.cells
  pub shown :
      (j : ℕ)
      → cell s.image j ≡ (
          if ltb j (passed (thread_at s.threads (owner orig threads_no j)))
          then negated orig.pixel_max (cell orig j)
          else cell orig j)
  pub pending :
      (t i : ℕ) (v : ℤ)
      → thread_at s.threads t ≡ has_val i v
      → v ≡ val_of orig.pixel_max (cell orig i)

module _ (orig : Image) (grey : IsGrey orig) (threads_no : ℕ) where
  test-owner :
      (i t : ℕ)
      → eqb_ℤ (rem (val_of orig.pixel_max (cell orig i)) threads_no) (pos t)
        ≡ (owner orig threads_no i == t)
  unfolding owner
  test-owner i t = rw (val_of-level orig.pixel_max (cell orig i) (grey.range i)) (ground arith)

  seat :
      (s : State) (t u : ℕ) (p : Thread)
      → t < length s.threads
      → thread_at (set s.threads t p) u ≡ (if t == u then p else thread_at s.threads u)
  seat s t u p h = get_or-set s.threads t u p (at_cell 0) h

  -- A thread takes the place p, which is in the image.
  pub move-Places :
      {s : State}
      → Places orig threads_no s
      → (t : ℕ) (p : Thread) (image : Image) → t < length s.threads
      → image.pixel_max ≡ s.image.pixel_max
      → size image ≡ size s.image
      → passed p ≤ size orig
      → ((i : ℕ) (b : Bool) → p ≡ has_test i b → i < size orig)
      → ((i : ℕ) (v : ℤ) → p ≡ has_val i v → i < size orig)
      → Places orig threads_no (record { image = image; threads = set s.threads t p })
  move-Places {s} inv t p image h m z w a b = record {
    depth = m ∙ inv.depth;
    dim = z ∙ inv.dim;
    count = length-set s.threads t p ∙ inv.count;
    within = λ u. ground (arith, seat s t u p h, inv.within u, w);
    testing = λ u i c e. elim (Bool-cases (t == u)) [
      | inl q ↦ a i c (sym (here u q) ∙ e)
      | inr q ↦ inv.testing u i c (sym (there u q) ∙ e)
    ];
    holding = λ u i v e. elim (Bool-cases (t == u)) [
      | inl q ↦ b i v (sym (here u q) ∙ e)
      | inr q ↦ inv.holding u i v (sym (there u q) ∙ e)
    ];
  }
    where
      here : (u : ℕ) → (t == u) ≡ true → thread_at (set s.threads t p) u ≡ p
      here u q = seat s t u p h ∙ rw q refl

      there : (u : ℕ) → (t == u) ≡ false → thread_at (set s.threads t p) u ≡ thread_at s.threads u
      there u q = seat s t u p h ∙ rw q refl

  module _ {s : State} (inv : Inv orig threads_no s) where
    open inv use {places, shown, pending}

    seen_val :
        (i : ℕ) → val_of s.image.pixel_max (cell s.image i) ≡ val_of orig.pixel_max (cell orig i)
    seen_val i = ground (
      arith,
      shown i,
      val_of-negated orig.pixel_max (cell orig i) (grey.range i) grey.depth,
      places.depth,
    )

    pub test-Inv :
        (t i : ℕ)
        → t < length s.threads
        → thread_at s.threads t ≡ at_cell i
        → i < size orig
        → (b : Bool) → Inv orig threads_no (record s { threads = set s.threads t (has_test i b) })
    test-Inv t i h e l b = record {
      places =
          move-Places places t (has_test i b) s.image h refl refl (omega (arith, l))
            (λ j c q. ground (arith, q, l)) (λ j v q. absurd (ground (arith, q)));
      len = inv.len;
      shown = λ j. ground (arith, seat s t (owner orig threads_no j) (has_test i b) h, shown j, e);
      pending = λ u k v q. ground (arith, seat s t u (has_test i b) h, pending u k v, e);
    }

    pub take-Inv :
        (t i : ℕ) (b : Bool)
        → t < length s.threads
        → thread_at s.threads t ≡ has_test i b
        → is_bright s.image i ≡ b
        → Inv orig threads_no (record s {
          threads = set s.threads t (has_val i (val_from b s.image.pixel_max (cell s.image i)));
        })
    unfolding val_of
    take-Inv t i b h e steady =
        let v = val_from b s.image.pixel_max (cell s.image i) in
        let same : v ≡ val_of orig.pixel_max (cell orig i) =
          ap (λ c. val_from c s.image.pixel_max (cell s.image i)) (sym steady) ∙ seen_val i in
        let l = places.testing t i b e in
        record {
          places =
              move-Places places t (has_val i v) s.image h refl refl (omega (arith, l))
                (λ j c q. absurd (ground (arith, q))) (λ j w q. ground (arith, q, l));
          len = inv.len;
          shown =
              λ j. ground (arith, seat s t (owner orig threads_no j) (has_val i v) h, shown j, e);
          pending = λ u k w q. ground (arith, seat s t u (has_val i v) h, pending u k w, same, e);
        }

    -- What thread `t` does to the image when it has tested `val`.
    abbrev tested : ℕ → ℕ → ℤ → Image
    tested t i v = if eqb_ℤ (rem v threads_no) (pos t) then negate_cell s.image i else s.image

    after_cell :
        (t i : ℕ) (v : ℤ)
        → thread_at s.threads t ≡ has_val i v
        → (j : ℕ)
        → cell (tested t i v) j ≡ (
            if (owner orig threads_no i == t) && (i == j)
            then negated orig.pixel_max (cell orig j)
            else cell s.image j)
    after_cell t i v e j =
        let p = pending t i v e in
        let l = places.holding t i v e in
        let written =
          get_or-set s.image.cells i j (negated s.image.pixel_max (cell s.image i)) 0
            (omega (arith, inv.len, grey.room, l)) in
        let test : eqb_ℤ (rem v threads_no) (pos t) ≡ (owner orig threads_no i == t) =
          rw p (test-owner i t) in
        ground (arith, test, written, shown i, e, places.depth)

    pub put-Inv :
        (t i : ℕ) (v : ℤ)
        → t < length s.threads
        → thread_at s.threads t ≡ has_val i v
        → Inv orig threads_no
            (record { image = tested t i v; threads = set s.threads t (at_cell (i + 1)) })
    put-Inv t i v h e = record {
      places =
          move-Places places t (at_cell (i + 1)) (tested t i v) h (ground arith) (ground arith)
            (omega (arith, places.holding t i v e)) (λ j c q. absurd (ground (arith, q)))
            (λ j w q. absurd (ground (arith, q)));
      len =
          ground (
            arith,
            inv.len,
            length-set s.image.cells i (negated s.image.pixel_max (cell s.image i)),
          );
      shown = λ j. ground (
        arith,
        after_cell t i v e j,
        seat s t (owner orig threads_no j) (at_cell (i + 1)) h,
        shown j,
        e,
      );
      pending = λ u k w q. ground (arith, seat s t u (at_cell (i + 1)) h, pending u k w);
    }

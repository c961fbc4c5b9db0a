-- ===== src/Negate/Blocks/Columns.antt =====
-- lab08/src/negate.c: the columns of an image belong each to one thread, and what is true between two turns.
use Prim.Native.Nat.{◌/◌}
use native.Mathlib.Decide.{dec_lt}
use native.Mathlib.Nat.{
  mod-le, mod-eq_of_lt, div-add-mod', le-div_iff_mul-le, div-lt_iff_lt-mul, mul-le-mul_right,
  add-mod_right,
}
use agh_sem4_sysopy.Common.{
  ℕ, ◌+◌, ◌*◌, ◌%◌, ◌≤◌, ◌<◌, ◌≡◌, ap, [], arith, Bool, true, ◌&&◌, ◌||◌, length, get_or, set,
  get_or-set, length-set, ltb, ◌==◌, if◌then◌else◌,
}
use agh_sem4_sysopy.Negate.Image.{Image, IsGrey, size, cell, negate_cell, negated}
use agh_sem4_sysopy.Negate.Blocks.{coeff, Thread, at_column, at_row, State, thread_at, in_block}

div_unique : (i t k : ℕ) → t * k ≤ i → i < (t + 1) * k → i / k ≡ t
div_unique i t k l h =
    let pos : 0 < k = elim (dec_lt 0 k) [
      | yes p ↦ p
      | no p ↦ let z : k ≡ 0 = omega arith in absurd (omega (arith, ap (λ y. (t + 1) * y) z))
    ] in
    omega (arith, (le-div_iff_mul-le pos).1 l, (div-lt_iff_lt-mul pos).1 h)

-- Two numbers less than `w` apart that are in one column are equal.
same_column : (w j k : ℕ) → j % w ≡ k % w → k ≤ j → j < k + w → j ≡ k
same_column w j k e l h = elim (dec_lt (k / w) (j / w)) [
  | yes q ↦ absurd (omega (arith, div-add-mod' j w, div-add-mod' k w, e, mul-le-mul_right w q))
  | no q ↦
      let q' : j / w ≤ k / w = omega arith in
      omega (arith, div-add-mod' j w, div-add-mod' k w, e, mul-le-mul_right w q')
]

-- The index of the thread whose block has the column of cell `j`.
unfoldable pub owner : Image → ℕ → ℕ → ℕ
owner image threads_no j = j % image.width / coeff image threads_no

-- A thread has left cell `j` of its block behind.
abbrev pub done : Image → Thread → ℕ → Bool
done image (at_column i) j = ltb (j % image.width) i
done image (at_row i k) j = ltb (j % image.width) i || ((j % image.width == i) && ltb j k)

-- The image but for its cells.
abbrev pub frame : Image → Image
frame image = record image { cells = [] }

pub record Inv (orig : Image) (threads_no : ℕ) (s : State) : Type 0 where
  pub same : frame s.image ≡ frame orig
  pub count : length s.threads ≡ threads_no
  pub len : length s.image.cells ≡ length orig.cells
  pub shown :
      (j : ℕ)
      → cell s.image j ≡ (
          if ltb j (size orig) && done orig (thread_at s.threads (owner orig threads_no j)) j
          then negated orig.pixel_max (cell orig j)
          else cell orig j)
  pub first :
      (t i : ℕ)
      → t < threads_no
      → thread_at s.threads t ≡ at_column i
      → t * coeff orig threads_no ≤ i
  pub row :
      (t i k : ℕ)
      → thread_at s.threads t ≡ at_row i k
      → (i / coeff orig threads_no ≡ t)
        × (t * coeff orig threads_no ≤ i)
        × (i < orig.width)
        × (k % orig.width ≡ i)

module _ (orig : Image) (grey : IsGrey orig) (threads_no : ℕ) {s : State}
    (inv : Inv orig threads_no s) (t : ℕ) (h : t < length s.threads) where
  open inv use {same, shown, first, row}

  seat :
      (p : Thread) (u : ℕ)
      → thread_at (set s.threads t p) u ≡ (if t == u then p else thread_at s.threads u)
  seat p u = get_or-set s.threads t u p (at_column 0) h

  count-set : (p : Thread) → length (set s.threads t p) ≡ threads_no
  count-set p = omega (arith, length-set s.threads t p, inv.count)

  pub enter-Inv :
      (i : ℕ)
      → thread_at s.threads t ≡ at_column i
      → in_block orig threads_no t i ≡ true
      → Inv orig threads_no (record s { threads = set s.threads t (at_row i i) })
  enter-Inv i e l =
      let lo = first t i (omega (arith, inv.count, h)) e in
      let in_col : i < orig.width = ground (arith, l) in
      let d = div_unique i t (coeff orig threads_no) lo (ground (arith, l)) in
      record {
        same = inv.same;
        count = count-set (at_row i i);
        len = inv.len;
        shown = λ j.
            ground
              (arith, seat (at_row i i) (owner orig threads_no j), shown j, e, mod-le j orig.width);
        first = λ u k b q. ground (arith, seat (at_row i i) u, first u k b);
        row = λ u k m q.
            ground (arith, seat (at_row i i) u, row u k m, d, lo, in_col, mod-eq_of_lt in_col);
      }

  owner-row : (i k : ℕ) → thread_at s.threads t ≡ at_row i k → owner orig threads_no k ≡ t
  unfolding owner
  owner-row i k e = let r = row t i k e in rw r.3 r.0

  pub negate-Inv :
      (i k : ℕ)
      → thread_at s.threads t ≡ at_row i k
      → k < size orig
      → Inv orig threads_no (record {
        image = negate_cell s.image k;
        threads = set s.threads t (at_row i (k + s.image.width));
      })
  negate-Inv i k e l =
      let r = row t i k e in
      let o = owner-row i k e in
      let p = at_row i (k + s.image.width) in
      let w : s.image.width ≡ orig.width = ap (λ im. im.width) inv.same in
      let v = negated s.image.pixel_max (cell s.image k) in
      let depth : s.image.pixel_max ≡ orig.pixel_max = ap (λ im. im.pixel_max) inv.same in
      let written : (j : ℕ)
          → get_or (set s.image.cells k v) j 0 ≡ (if k == j then v else cell s.image j) =
        λ j. get_or-set s.image.cells k j v 0 (omega (arith, inv.len, grey.room, l)) in
      record {
        same = inv.same;
        count = count-set p;
        len = omega (arith, inv.len, length-set s.image.cells k v);
        shown = λ j. ground (
          arith,
          seat p (owner orig threads_no j),
          shown j,
          shown k,
          o,
          e,
          written j,
          depth,
          same_column orig.width j k,
          r.3,
          w,
        );
        first = λ u m b q. ground (arith, seat p u, first u m b);
        row = λ u m j q.
            ground (arith, seat p u, row u m j, r.0, r.1, r.2, r.3, add-mod_right k orig.width, w);
      }

  pub leave-Inv :
      (i k : ℕ)
      → thread_at s.threads t ≡ at_row i k
      → size orig ≤ k
      → Inv orig threads_no (record s { threads = set s.threads t (at_column (i + 1)) })
  leave-Inv i k e l =
      let r = row t i k e in
      let p = at_column (i + 1) in
      record {
        same = inv.same;
        count = count-set p;
        len = inv.len;
        shown = λ j. ground (arith, seat p (owner orig threads_no j), shown j, e);
        first = λ u m b q. ground (arith, seat p u, first u m b, r.1);
        row = λ u m j q. ground (arith, seat p u, row u m j);
      }

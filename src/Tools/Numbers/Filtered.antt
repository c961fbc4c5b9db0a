-- ===== src/Tools/Numbers/Filtered.antt =====
-- lab02/src/lib/src/lib_library.c: the sizes and the roots of numbers, and what `filterNumbers` writes.
use agh_sem4_sysopy.Common.{
  ℕ, zero, suc, ◌+◌, ◌-◌, ◌*◌, ◌/◌, ◌%◌, ◌≤◌, ◌<◌, ◌≡◌, ◌↔◌, refl, subst, sym, ap, ◌∙◌, inl, inr,
  true, false, List, [], ◌∷◌, arith, ◌==◌, ==_refl, eq_of_==, leb, le→leb, ltb, length, Bool-cases,
}
use agh_sem4_sysopy.Common.Int.{pos}
use agh_sem4_sysopy.Libc.Numbers.{digits_before, decimal}
use agh_sem4_sysopy.Tools.Numbers.{size_rounds, number_size, floor_sqrt, round_sqrt, is_square}

size_rounds-digits :
    (f n i : ℕ) (acc : List ℕ)
    → n ≤ f
    → length (digits_before (suc f) n acc) + i ≡ suc (length acc + size_rounds f n i)
unfolding size_rounds digits_before
size_rounds-digits zero n i acc h = ground arith
size_rounds-digits (suc f) n i acc h = elim (Bool-cases (ltb n 10)) [
  | inl small ↦
      let z : ltb 0 (n / 10) ≡ false = ground arith in
      rw (small, digits_before, z, size_rounds) (omega arith)
  | inr large ↦
      let z : ltb 0 (n / 10) ≡ true = ground arith in
      let ih = size_rounds-digits f (n / 10) (i + 1) ((b'0' + n % 10) ∷ acc) (ground arith) in
      rw (large, digits_before, z, size_rounds) (omega (arith, ih))
]

-- `numberSize` of a number that is not negative is the number of its decimal digits.
pub number_size-length : (n : ℕ) → number_size (pos n) ≡ length (decimal n)
unfolding number_size decimal
number_size-length n = omega (arith, size_rounds-digits n n 1 [] (omega arith))

sq_lt : (k d : ℕ) → k * k < suc (k + d) * suc (k + d)
sq_lt k d = omega arith

floor_sqrt-square : (k f : ℕ) → k ≤ f → floor_sqrt f (k * k) ≡ k
unfolding floor_sqrt
floor_sqrt-square k zero h = omega (arith, h)
floor_sqrt-square k (suc f) h = elim (Bool-cases (ltb k (suc f))) [
  | inl e ↦
      let d : k + (f - k) ≡ f = ground arith in
      let lt : k * k < suc f * suc f = subst (λ x. k * k < suc x * suc x) d (sq_lt k (f - k)) in
      let no : leb (suc f * suc f) (k * k) ≡ false = not_leb (suc f * suc f) (k * k) lt in
      rw (floor_sqrt, no) (floor_sqrt-square k f (ground arith))
  | inr e ↦
      let q : k ≡ suc f = ground arith in
      let yes : leb (suc f * suc f) (k * k) ≡ true =
        le→leb (suc f * suc f) (k * k) (subst (λ x. x * x ≤ k * k) q (omega arith)) in
      rw (floor_sqrt, yes) (sym q)
]
  where
    not_leb : (a b : ℕ) → b < a → leb a b ≡ false
    not_leb a b h = ground arith

round_sqrt-square : (k : ℕ) → round_sqrt (k * k) ≡ k
unfolding round_sqrt
round_sqrt-square k =
    let r = floor_sqrt-square k (k * k) (le_square k) in
    let no : ltb (k * k + k) (k * k) ≡ false = ground arith in rw (r, no) refl
  where
    le_square : (k : ℕ) → k ≤ k * k
    le_square zero = omega arith
    le_square (suc k) = omega arith

-- The test with the rounded root finds exactly the squares.
pub is_square_lem : (n : ℕ) → (is_square (pos n) ≡ true) ↔ ((k : ℕ) × (k * k ≡ n))
unfolding is_square
is_square_lem n = (
  λ e. (round_sqrt n, eq_of_== (round_sqrt n * round_sqrt n) n e),
  λ (k, e).
      subst (λ m. (round_sqrt m * round_sqrt m == m) ≡ true) e
        (ap (λ r. r * r == k * k) (round_sqrt-square k) ∙ ==_refl (k * k)),
)

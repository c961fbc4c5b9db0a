-- ===== src/Tools/Numbers/Meant.antt =====
-- lab02/src/lib/src/lib_library.c: what the three conditions of `filterNumbers` mean, and its files.
use agh_sem4_sysopy.Common.{
  ℕ, zero, suc, ◌+◌, ◌*◌, ◌/◌, ◌%◌, ◌≤◌, ◌≡◌, refl, sym, subst, ap, ◌∙◌, inl, inr, Bool, true,
  false, ◌&&◌, ◌||◌, List, [], ◌∷◌, ◌++◌, arith, ◌==◌, ==_refl, eq_of_==, ltb, if◌then◌else◌, map,
  Bool-cases,
}
use agh_sem4_sysopy.Common.Int.{ℤ, pos}
use agh_sem4_sysopy.Libc.Numbers.{decimal}
use agh_sem4_sysopy.Tools.Lines.{newline}
use agh_sem4_sysopy.Tools.Lines.Merged.{text_of}
use agh_sem4_sysopy.Tools.Numbers.{is_even, has_tens, is_square, filter_numbers}
use agh_sem4_sysopy.Tools.Numbers.Filtered.{is_square_lem}
use agh_sem4_sysopy.Tools.Numbers.Counted.{
  even_count, lines_where, AreInts, count_text, filter_numbers-lines_where,
}

-- Twice a half is the number.
abbrev pub is_twice : ℕ → Bool
is_twice n = n / 2 * 2 == n

-- The number is above 10, and the tens of what it is beyond the hundreds are none or seven.
abbrev pub is_tens : ℕ → Bool
is_tens n = ltb 10 n && (ltb (n % 100) 10 || (ltb 69 (n % 100) && ltb (n % 100) 80))

-- A number of at most k has n as its square.
unfoldable pub has_root : ℕ → ℕ → Bool
has_root zero n = 0 == n
has_root (suc k) n = suc k * suc k == n || has_root k n

unfoldable pub how_many : (ℕ → Bool) → List ℕ → ℕ
how_many p [] = 0
how_many p (n ∷ ns) = (if p n then 1 else 0) + how_many p ns

unfoldable pub lines_which : (ℕ → Bool) → List ℕ → List ℕ
lines_which p [] = []
lines_which p (n ∷ ns) = (if p n then decimal n ++ newline ∷ [] else []) ++ lines_which p ns

is_even-is_twice : (n : ℕ) → is_even (pos n) ≡ is_twice n
unfolding is_even
is_even-is_twice n = ground arith

has_tens-is_tens : (n : ℕ) → has_tens (pos n) ≡ is_tens n
unfolding has_tens
has_tens-is_tens n = ground arith

root_of : (k n : ℕ) → has_root k n ≡ true → (j : ℕ) × (j * j ≡ n)
unfolding has_root
root_of zero n h = (0, eq_of_== 0 n h)
root_of (suc k) n h = elim (Bool-cases (suc k * suc k == n)) [
  | inl e ↦ (suc k, eq_of_== (suc k * suc k) n e)
  | inr e ↦ root_of k n (sym (rw e refl) ∙ h)
]

of_root : (k j : ℕ) → j ≤ k → has_root k (j * j) ≡ true
unfolding has_root
of_root zero j h = let z : j ≡ 0 = omega (arith, h) in rw z refl
of_root (suc k) j h = elim (Bool-cases (j == suc k)) [
  | inl e ↦
      let q : j ≡ suc k = eq_of_== j (suc k) e in
      subst (λ x. (suc k * suc k == x * x || has_root k (x * x)) ≡ true) (sym q)
        (ap (λ b. b || has_root k (suc k * suc k)) (==_refl (suc k * suc k)))
  | inr e ↦ rw (of_root k j (ground (arith, h, e))) (or_true (suc k * suc k == j * j))
]
  where
    or_true : (b : Bool) → (b || true) ≡ true
    or_true true = refl
    or_true false = refl

is_square-has_root : (n : ℕ) → is_square (pos n) ≡ has_root n n
is_square-has_root n = elim (Bool-cases (is_square (pos n))) [
  | inl e ↦
      let k = (is_square_lem n).0 e in
      e ∙ sym (subst (λ x. has_root x x ≡ true) k.1 (of_root (k.0 * k.0) k.0 (le_square k.0)))
  | inr e ↦ elim (Bool-cases (has_root n n)) [
    | inl f ↦ (is_square_lem n).1 (root_of n n f) ∙ sym f
    | inr f ↦ e ∙ sym f
  ]
]
  where
    le_square : (k : ℕ) → k ≤ k * k
    le_square zero = omega arith
    le_square (suc k) = omega arith

even_count-how_many : (ns : List ℕ) → even_count ns ≡ how_many is_twice ns
unfolding even_count how_many
even_count-how_many [] = refl
even_count-how_many (n ∷ ns) =
    ap (λ b. (if b then 1 else 0) + even_count ns) (is_even-is_twice n)
    ∙ ap (λ k. (if is_twice n then 1 else 0) + k) (even_count-how_many ns)

lines_where-lines_which :
    (p : ℤ → Bool) (q : ℕ → Bool)
    → ((n : ℕ) → p (pos n) ≡ q n)
    → (ns : List ℕ) → lines_where p ns ≡ lines_which q ns
unfolding lines_where lines_which
lines_where-lines_which p q h [] = refl
lines_where-lines_which p q h (n ∷ ns) =
    ap (λ b. (if b then decimal n ++ newline ∷ [] else []) ++ lines_where p ns) (h n)
    ∙ ap (λ t. (if q n then decimal n ++ newline ∷ [] else []) ++ t)
        (lines_where-lines_which p q h ns)

-- `filterNumbers` of a file of numbers that are not negative and fit in an int, each on a line: the file
-- `a` says how many of them are twice their half; `b` holds the lines of those above 10 that leave less
-- than 10, or 70 to 79, beyond their hundreds, whose tens digit is 0 or 7; `c` holds the lines of the
-- squares of numbers.
pub filter_numbers-lines_which :
    (ns : List ℕ)
    → AreInts ns
    → filter_numbers (text_of (map decimal ns)) ≡ (
      count_text (how_many is_twice ns),
      lines_which is_tens ns,
      lines_which (λ n. has_root n n) ns,
    )
filter_numbers-lines_which ns h =
    filter_numbers-lines_where ns h
    ∙ ap (λ k. (count_text k, lines_where has_tens ns, lines_where is_square ns))
        (even_count-how_many ns)
    ∙ ap (λ t. (count_text (how_many is_twice ns), t, lines_where is_square ns))
        (lines_where-lines_which has_tens is_tens has_tens-is_tens ns)
    ∙ ap (λ t. (count_text (how_many is_twice ns), lines_which is_tens ns, t))
        (lines_where-lines_which is_square (λ n. has_root n n) is_square-has_root ns)

-- ===== src/Libc/Strings.antt =====
-- strncmp and strncpy, over character arrays as lists of codes. A read past the end of a list is 0,
-- the terminator.
use agh_sem4_sysopy.Common.{
  ℕ, zero, suc, ◌≡◌, refl, Bool, true, false, List, [], ◌∷◌, arith, ◌==◌, length, replicate,
  length-replicate,
}

abbrev pub head0 : List ℕ → ℕ
head0 [] = 0
head0 (c ∷ cs) = c

abbrev pub tail0 : List ℕ → List ℕ
tail0 [] = []
tail0 (c ∷ cs) = cs

-- `!strncmp(xs, ys, n)`: equal up to `n` characters or up to a terminator in both.
unfoldable pub strn_eq : ℕ → List ℕ → List ℕ → Bool
strn_eq zero xs ys = true
strn_eq (suc n) xs ys = elim (head0 xs == head0 ys) [
  | true ↦ elim (head0 xs == 0) [ true ↦ true | false ↦ strn_eq n (tail0 xs) (tail0 ys) ]
  | false ↦ false
]

-- The `n` bytes that `strncpy(dst, src, n)` writes: `src`, padded with terminators.
unfoldable pub strncpy : ℕ → List ℕ → List ℕ
strncpy zero src = []
strncpy (suc n) src = elim (head0 src == 0) [
  | true ↦ replicate (suc n) 0
  | false ↦ head0 src ∷ strncpy n (tail0 src)
]

pub length-strncpy : (n : ℕ) (src : List ℕ) → length (strncpy n src) ≡ n
unfolding strncpy
length-strncpy zero src = refl
length-strncpy (suc n) src =
    ground (arith, length-strncpy n (tail0 src), length-replicate {A = ℕ} (suc n) 0)

pub strn_eq_refl : (n : ℕ) (xs : List ℕ) → strn_eq n xs xs ≡ true
unfolding strn_eq
strn_eq_refl zero xs = refl
strn_eq_refl (suc n) xs = ground (arith, strn_eq_refl n (tail0 xs))

pub strn_eq_comm : (n : ℕ) (xs ys : List ℕ) → strn_eq n xs ys ≡ strn_eq n ys xs
unfolding strn_eq
strn_eq_comm zero xs ys = refl
strn_eq_comm (suc n) xs ys = ground (arith, strn_eq_comm n (tail0 xs) (tail0 ys))

-- A copy of `n` bytes is the same name as its source.
pub strn_eq-strncpy : (n : ℕ) (src ys : List ℕ) → strn_eq n (strncpy n src) ys ≡ strn_eq n src ys
unfolding strn_eq strncpy
strn_eq-strncpy zero src ys = refl
strn_eq-strncpy (suc n) src ys = ground (arith, strn_eq-strncpy n (tail0 src) (tail0 ys))

-- `!strcmp(xs, ys)`, on what stands before the terminators.
unfoldable pub str_eq : List ℕ → List ℕ → Bool
str_eq [] [] = true
str_eq [] (y ∷ ys) = false
str_eq (x ∷ xs) [] = false
str_eq (x ∷ xs) (y ∷ ys) = elim (x == y) [ true ↦ str_eq xs ys | false ↦ false ]

pub str_eq_refl : (xs : List ℕ) → str_eq xs xs ≡ true
unfolding str_eq
str_eq_refl [] = refl
str_eq_refl (x ∷ xs) = ground (arith, str_eq_refl xs)

pub eq_of_str_eq : (xs ys : List ℕ) → str_eq xs ys ≡ true → xs ≡ ys
unfolding str_eq
eq_of_str_eq [] [] h = refl
eq_of_str_eq [] (y ∷ ys) h = absurd (ground arith)
eq_of_str_eq (x ∷ xs) [] h = absurd (ground arith)
eq_of_str_eq (x ∷ xs) (y ∷ ys) h = ground (arith, eq_of_str_eq xs ys)

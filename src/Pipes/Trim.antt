-- ===== src/Pipes/Trim.antt =====
-- lab05/src/ex1.c: `ltrim`, `rtrim`, `trim` and `cntchr`, over what stands before a terminator.
use agh_sem4_sysopy.Common.{
  ℕ, ◌+◌, ◌-◌, ◌≡◌, refl, true, false, List, [], ◌∷◌, ◌++◌, arith, ◌==◌, ltb, if◌then◌else◌, length,
  length-append, take, count,
}
use agh_sem4_sysopy.Libc.Numbers.{is_space, skip_spaces}

-- `memmove(s, s_tmp, s_tmp - s)` copies as many bytes as were skipped, from `s_tmp` to `s`: the
-- terminator too if the rest is shorter. What stands behind it is not moved.
unfoldable pub ltrim : List ℕ → List ℕ
unfolding skip_spaces
ltrim s =
    let rest = skip_spaces s in
    let k = length s - length rest in if ltb (length rest) k then rest else take k rest ++ rest

-- The loop from the end: a space is dropped where only spaces follow.
abbrev pub cons_trimmed : ℕ → List ℕ → List ℕ
cons_trimmed c [] = if is_space c then [] else c ∷ []
cons_trimmed c (d ∷ ds) = c ∷ d ∷ ds

unfoldable pub rtrim : List ℕ → List ℕ
rtrim [] = []
rtrim (c ∷ cs) = cons_trimmed c (rtrim cs)

unfoldable pub trim : List ℕ → List ℕ
unfolding ltrim rtrim
trim s = ltrim (rtrim s)

unfoldable pub cntchr : List ℕ → ℕ → ℕ → ℕ
cntchr [] ch acc = acc
cntchr (c ∷ cs) ch acc = cntchr cs ch (acc + (if c == ch then 1 else 0))

pub cntchr-count : (s : List ℕ) (ch acc : ℕ) → cntchr s ch acc ≡ acc + count ch s
unfolding cntchr count
cntchr-count [] ch acc = omega arith
cntchr-count (c ∷ cs) ch acc = omega (arith, cntchr-count cs ch (acc + (if c == ch then 1 else 0)))

-- A text that begins with no space, and one that ends with none.
abbrev pub BeginsWord : List ℕ → Type 0
BeginsWord [] = Unit
BeginsWord (c ∷ cs) = is_space c ≡ false

abbrev pub EndsWord : List ℕ → Type 0
EndsWord [] = Unit
EndsWord (c ∷ []) = is_space c ≡ false
EndsWord (c ∷ d ∷ ds) = EndsWord (d ∷ ds)

-- Only spaces.
abbrev pub AllSpaces : List ℕ → Type 0
AllSpaces [] = Unit
AllSpaces (c ∷ cs) = (is_space c ≡ true) × AllSpaces cs

rtrim-spaces : (xs : List ℕ) → AllSpaces xs → rtrim xs ≡ []
unfolding rtrim
rtrim-spaces [] h = refl
rtrim-spaces (c ∷ cs) h = rw (rtrim-spaces cs h.1, h.0) refl

pub rtrim_lem : (xs spaces : List ℕ) → EndsWord xs → AllSpaces spaces → rtrim (xs ++ spaces) ≡ xs
unfolding rtrim
rtrim_lem [] spaces h s = rtrim-spaces spaces s
rtrim_lem (c ∷ []) spaces h s = rw (rtrim-spaces spaces s, h) refl
rtrim_lem (c ∷ d ∷ ds) spaces h s = rw (rtrim_lem (d ∷ ds) spaces h s) refl

pub skip_spaces_lem :
    (spaces xs : List ℕ) → AllSpaces spaces → BeginsWord xs → skip_spaces (spaces ++ xs) ≡ xs
unfolding skip_spaces
skip_spaces_lem [] [] s h = refl
skip_spaces_lem [] (c ∷ cs) s h = rw h refl
skip_spaces_lem (c ∷ cs) xs s h = rw (s.0) (skip_spaces_lem cs xs s.1 h)

-- What `ltrim` makes of a text with spaces before it.
pub ltrim_lem :
    (spaces xs : List ℕ)
    → AllSpaces spaces
    → BeginsWord xs
    → ltrim (spaces ++ xs)
      ≡ (if ltb (length xs) (length spaces) then xs else take (length spaces) xs ++ xs)
unfolding ltrim
ltrim_lem spaces xs s h =
    let k : length (spaces ++ xs) - length xs ≡ length spaces =
      omega (arith, length-append spaces xs) in
    rw (skip_spaces_lem spaces xs s h, k)

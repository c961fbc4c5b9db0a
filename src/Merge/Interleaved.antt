-- ===== src/Merge/Interleaved.antt =====
-- lab01/src/lib/src/lib_merge.c: a file of whole lines, merged and read back.
use mathlib.Core.List.{◌++◌}
use agh_sem4_sysopy.Common.{
  ℕ, zero, suc, ◌+◌, ◌≤◌, ◌<◌, ◌≡◌, refl, List, [], ◌∷◌, arith, Bool, true, false, ◌&&◌, not, some,
  ◌==◌, if◌then◌else◌, length, length-append, count, Bool-cases, inl, inr,
}
use agh_sem4_sysopy.Merge.Files.{newline, getline, c_string, at_end, merge_loop, countlines, row_of}

-- A text without zeros that ends in its only newline.
unfoldable pub is_line : List ℕ → Bool
is_line [] = false
is_line (c ∷ line) = if c == newline then at_end line else (not (c == 0) && is_line line)

unfoldable pub are_lines : List (List ℕ) → Bool
are_lines [] = true
are_lines (line ∷ lines) = is_line line && are_lines lines

-- The file that holds the lines.
unfoldable pub join : List (List ℕ) → List ℕ
join [] = []
join (line ∷ lines) = line ++ join lines

-- The lines of two files by turns, and then what is left of the longer one.
unfoldable pub interleave {ℓ} : {A : Type ℓ} → List A → List A → List A
interleave [] ys = ys
interleave (x ∷ xs) [] = x ∷ xs
interleave (x ∷ xs) (y ∷ ys) = x ∷ y ∷ interleave xs ys

pub nil_of_at_end : (file : List ℕ) → at_end file ≡ true → file ≡ []
nil_of_at_end [] h = refl
nil_of_at_end (c ∷ file) h = absurd (ground arith)

pub getline-line :
    (line rest : List ℕ) → is_line line ≡ true → getline (line ++ rest) ≡ (line, rest)
unfolding getline is_line
getline-line [] rest h = absurd (ground arith)
getline-line (c ∷ line) rest h = elim (Bool-cases (c == newline)) [
  | inl e ↦ let z = nil_of_at_end line (ground (arith, h, e)) in rw (e, z) refl
  | inr e ↦ rw (e, getline-line line rest (ground (arith, h, e))) refl
]

c_string-line : (line : List ℕ) → is_line line ≡ true → c_string line ≡ line
unfolding c_string is_line
c_string-line [] h = refl
c_string-line (c ∷ line) h = ground (arith, h, c_string-line line, nil_of_at_end line)

pub row_of-line : (line : List ℕ) → is_line line ≡ true → row_of line ≡ line
unfolding row_of is_line
row_of-line [] h = refl
row_of-line (c ∷ line) h = ground (arith, h, row_of-line line, nil_of_at_end line)

count-append : (v : ℕ) (xs ys : List ℕ) → count v (xs ++ ys) ≡ count v xs + count v ys
unfolding count
count-append v [] ys = omega arith
count-append v (x ∷ xs) ys = omega (arith, count-append v xs ys)

count-line : (line : List ℕ) → is_line line ≡ true → count newline line ≡ 1
unfolding count is_line
count-line [] h = absurd (ground arith)
count-line (c ∷ line) h = elim (Bool-cases (c == newline)) [
  | inl e ↦ let z = nil_of_at_end line (ground (arith, h, e)) in rw z (ground (arith, e))
  | inr e ↦ ground (arith, e, count-line line (ground (arith, h, e)))
]

pub countlines-join :
    (lines : List (List ℕ)) → are_lines lines ≡ true → countlines (join lines) ≡ length lines
unfolding join are_lines count
countlines-join [] h = refl
countlines-join (line ∷ lines) h = omega (
  arith,
  count-append newline line (join lines),
  count-line line (ground (arith, h)),
  countlines-join lines (ground (arith, h)),
)

pub at_end-line : (line rest : List ℕ) → is_line line ≡ true → at_end (line ++ rest) ≡ false
unfolding is_line
at_end-line [] rest h = absurd (ground arith)
at_end-line (c ∷ line) rest h = refl

interleave-nil : (xs : List (List ℕ)) → interleave xs [] ≡ xs
unfolding interleave
interleave-nil [] = refl
interleave-nil (x ∷ xs) = refl

merge_step :
    (rounds : ℕ) (file1 file2 line1 rest1 line2 rest2 out : List ℕ)
    → at_end file1 && at_end file2 ≡ false
    → getline file1 ≡ (line1, rest1)
    → getline file2 ≡ (line2, rest2)
    → c_string line1 ≡ line1
    → c_string line2 ≡ line2
    → merge_loop rounds rest1 rest2 ≡ some out
    → merge_loop (suc rounds) file1 file2 ≡ some (line1 ++ (line2 ++ out))
unfolding merge_loop
merge_step rounds file1 file2 line1 rest1 line2 rest2 out e g h p q go =
    rw (e, g, h, go, g, h, p, q) refl

pub merge_loop-join :
    (rounds : ℕ) (xs ys : List (List ℕ))
    → are_lines xs ≡ true
    → are_lines ys ≡ true
    → length xs + length ys < rounds
    → merge_loop rounds (join xs) (join ys) ≡ some (join (interleave xs ys))
unfolding merge_loop join interleave are_lines getline c_string
merge_loop-join zero xs ys h k l = absurd (omega arith)
merge_loop-join (suc n) [] [] h k l = refl
merge_loop-join (suc n) [] (y ∷ ys) h k l =
    let is_y : is_line y ≡ true = ground (arith, k) in
    let go = merge_loop-join n [] ys refl (ground (arith, k)) (omega arith) in
    merge_step n [] (y ++ join ys) [] [] y (join ys) (join ys) (at_end-line y (join ys) is_y) refl
      (getline-line y (join ys) is_y) refl (c_string-line y is_y) go
merge_loop-join (suc n) (x ∷ xs) [] h k l =
    let is_x : is_line x ≡ true = ground (arith, h) in
    let go = merge_loop-join n xs [] (ground (arith, h)) refl (omega arith) in
    merge_step n (x ++ join xs) [] x (join xs) [] [] (join xs)
      (rw (at_end-line x (join xs) is_x) refl) (getline-line x (join xs) is_x) refl
      (c_string-line x is_x) refl (rw (interleave-nil xs) at go)
merge_loop-join (suc n) (x ∷ xs) (y ∷ ys) h k l =
    let is_x : is_line x ≡ true = ground (arith, h) in
    let is_y : is_line y ≡ true = ground (arith, k) in
    let go = merge_loop-join n xs ys (ground (arith, h)) (ground (arith, k)) (omega arith) in
    merge_step n (x ++ join xs) (y ++ join ys) x (join xs) y (join ys) (join (interleave xs ys))
      (rw (at_end-line x (join xs) is_x) refl) (getline-line x (join xs) is_x)
      (getline-line y (join ys) is_y) (c_string-line x is_x) (c_string-line y is_y) go

pub length-join :
    (lines : List (List ℕ)) → are_lines lines ≡ true → length lines ≤ length (join lines)
unfolding join are_lines is_line
length-join [] h = omega arith
length-join ([] ∷ lines) h = absurd (ground arith)
length-join ((c ∷ line) ∷ lines) h =
    omega (arith, length-join lines (ground (arith, h)), length-append line (join lines))

length-getline : (file : List ℕ) → length (getline file).1 ≤ length file
unfolding getline
length-getline [] = omega arith
length-getline (c ∷ file) = ground (arith, length-getline file)

getline-less : (c : ℕ) (file : List ℕ) → length (getline (c ∷ file)).1 ≤ length file
unfolding getline
getline-less c file = ground (arith, length-getline file)

pub merge_loop-ends :
    (rounds : ℕ) (file1 file2 : List ℕ)
    → length file1 + length file2 < rounds
    → (out : List ℕ) × (merge_loop rounds file1 file2 ≡ some out)
unfolding merge_loop getline
merge_loop-ends zero file1 file2 l = absurd (omega arith)
merge_loop-ends (suc n) [] [] l = ([], refl)
merge_loop-ends (suc n) (c ∷ file1) file2 l =
    let go =
      merge_loop-ends n (getline (c ∷ file1)).1 (getline file2).1
        (omega (arith, getline-less c file1, length-getline file2)) in
    (c_string (getline (c ∷ file1)).0 ++ (c_string (getline file2).0 ++ go.0), rw go.1 refl)
merge_loop-ends (suc n) [] (d ∷ file2) l =
    let go = merge_loop-ends n [] (getline (d ∷ file2)).1 (omega (arith, getline-less d file2)) in
    (c_string (getline []).0 ++ (c_string (getline (d ∷ file2)).0 ++ go.0), rw go.1 refl)

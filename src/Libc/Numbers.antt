-- ===== src/Libc/Numbers.antt =====
-- sprintf("%d"), strtol with base 10, and the conversion of a `long` to an `int`.
use agh_sem4_sysopy.Common.{
  ℕ, zero, suc, ◌+◌, ◌-◌, ◌*◌, ◌/◌, ◌%◌, ◌^◌, ◌<◌, ◌≡◌, refl, ap, ◌∙◌, Bool, true, false, ◌&&◌,
  ◌||◌, List, [], ◌∷◌, ◌++◌, arith, length, ◌≤◌, ◌==◌, leb, ltb, if◌then◌else◌, Bool-cases, inl,
  inr,
}
use agh_sem4_sysopy.Common.Int.{ℤ, pos, negsuc}

abbrev pub is_digit : ℕ → Bool
is_digit c = leb b'0' c && leb c b'9'

abbrev pub is_space : ℕ → Bool
is_space c = c == 32 || (leb 9 c && leb c 13)

-- The decimal digits of `n` before `acc`, the most significant first.
unfoldable pub digits_before : ℕ → ℕ → List ℕ → List ℕ
digits_before zero n acc = acc
digits_before (suc f) n acc = elim (ltb n 10) [
  | true ↦ (b'0' + n) ∷ acc
  | false ↦ digits_before f (n / 10) ((b'0' + n % 10) ∷ acc)
]

unfoldable pub decimal : ℕ → List ℕ
unfolding digits_before
decimal n = digits_before (suc n) n []

-- `sprintf(s, "%d", z)`
unfoldable pub print_int : ℤ → List ℕ
unfolding decimal
print_int (pos n) = decimal n
print_int (negsuc n) = b'-' ∷ decimal (suc n)

-- The number that the digits at the head of a text continue, and the text that follows.
unfoldable pub read_digits : ℕ → List ℕ → ℕ × List ℕ
read_digits acc [] = (acc, [])
read_digits acc (c ∷ cs) =
    if is_digit c then read_digits (acc * 10 + (c - b'0')) cs else (acc, c ∷ cs)

abbrev pub negate_ℕ : ℕ → ℤ
negate_ℕ zero = pos 0
negate_ℕ (suc n) = negsuc n

-- After the spaces: a sign, then digits.
unfoldable pub read_signed : List ℕ → ℤ
unfolding read_digits
read_signed [] = pos 0
read_signed (c ∷ cs) =
    if c == b'-'
    then negate_ℕ (read_digits 0 cs).0
    else (if c == b'+' then pos (read_digits 0 cs).0 else pos (read_digits 0 (c ∷ cs)).0)

unfoldable pub skip_spaces : List ℕ → List ℕ
skip_spaces [] = []
skip_spaces (c ∷ cs) = if is_space c then skip_spaces cs else c ∷ cs

-- A `long` beyond its range is its largest or smallest value.
unfoldable pub clamp_long : ℤ → ℤ
clamp_long (pos n) = if ltb n (2 ^ 63) then pos n else pos (2 ^ 63 - 1)
clamp_long (negsuc n) = if ltb n (2 ^ 63) then negsuc n else negsuc (2 ^ 63 - 1)

unfoldable pub strtol : List ℕ → ℤ
unfolding read_signed skip_spaces clamp_long
strtol text = clamp_long (read_signed (skip_spaces text))

abbrev pub of_bits : ℕ → ℤ
of_bits r = if ltb r (2 ^ 31) then pos r else negsuc (2 ^ 32 - 1 - r)

-- The low 32 bits of a `long`, as an `int`.
unfoldable pub to_int : ℤ → ℤ
to_int (pos n) = of_bits (n % 2 ^ 32)
to_int (negsuc n) = of_bits (2 ^ 32 - 1 - n % 2 ^ 32)

-- A value of an `int`.
abbrev pub IsInt : ℤ → Type 0
IsInt (pos n) = n < 2 ^ 31
IsInt (negsuc n) = n < 2 ^ 31

read_digits-digit :
    (a d : ℕ) (cs : List ℕ) → d < 10 → read_digits a ((b'0' + d) ∷ cs) ≡ read_digits (a * 10 + d) cs
unfolding read_digits
read_digits-digit a d cs h =
    let e : a * 10 + (b'0' + d - b'0') ≡ a * 10 + d = omega arith in ground arith

-- Reading the digits of `n` and what follows is to go on from `n`.
pub read_digits-digits_before :
    (f n : ℕ) (acc : List ℕ) → n < f → read_digits 0 (digits_before f n acc) ≡ read_digits n acc
unfolding digits_before
read_digits-digits_before zero n acc h = elim h [ ]
read_digits-digits_before (suc f) n acc h = elim (Bool-cases (ltb n 10)) [
  | inl small ↦
      rw (small, digits_before)
        (read_digits-digit 0 n acc (ground arith) ∙ ap (λ k. read_digits k acc) (omega arith))
  | inr large ↦
      let e : n / 10 * 10 + n % 10 ≡ n = omega arith in
      rw (large, digits_before)
        (read_digits-digits_before f (n / 10) ((b'0' + n % 10) ∷ acc) (ground arith)
          ∙ read_digits-digit (n / 10) (n % 10) acc (omega arith)
          ∙ ap (λ k. read_digits k acc) e)
]

-- The digits of a number, before anything that is no digit, read as that number.
abbrev pub StopsDigits : List ℕ → Type 0
StopsDigits [] = Unit
StopsDigits (c ∷ cs) = is_digit c ≡ false

digits_before-append :
    (f n : ℕ) (acc rest : List ℕ) → digits_before f n acc ++ rest ≡ digits_before f n (acc ++ rest)
unfolding digits_before
digits_before-append zero n acc rest = refl
digits_before-append (suc f) n acc rest = elim (Bool-cases (ltb n 10)) [
  | inl small ↦ rw (small, digits_before)
  | inr large ↦
      rw (large, digits_before) (digits_before-append f (n / 10) ((b'0' + n % 10) ∷ acc) rest)
]

stops : (n : ℕ) (rest : List ℕ) → StopsDigits rest → read_digits n rest ≡ (n, rest)
unfolding read_digits
stops n [] h = refl
stops n (c ∷ cs) h = ground arith

pub read_digits-decimal :
    (n : ℕ) (rest : List ℕ) → StopsDigits rest → read_digits 0 (decimal n ++ rest) ≡ (n, rest)
unfolding decimal
read_digits-decimal n rest h =
    ap (read_digits 0) (digits_before-append (suc n) n [] rest)
    ∙ read_digits-digits_before (suc n) n rest (omega arith)
    ∙ stops n rest h

-- A printed number begins with a digit.
digits_before-head :
    (f n : ℕ) (acc : List ℕ)
    → n < f
    → (d : ℕ) × (ds : List ℕ) × (digits_before f n acc ≡ d ∷ ds) × (is_digit d ≡ true)
unfolding digits_before
digits_before-head zero n acc h = elim h [ ]
digits_before-head (suc f) n acc h = elim (Bool-cases (ltb n 10)) [
  | inl small ↦ (b'0' + n, acc, rw (small, digits_before), ground arith)
  | inr large ↦
      let (d, ds, e, g) = digits_before-head f (n / 10) ((b'0' + n % 10) ∷ acc) (ground arith) in
      (d, ds, rw (large, digits_before) e, g)
]

pub decimal-head : (n : ℕ) → (d : ℕ) × (ds : List ℕ) × (decimal n ≡ d ∷ ds) × (is_digit d ≡ true)
unfolding decimal
decimal-head n = digits_before-head (suc n) n [] (omega arith)

read_signed-decimal :
    (n : ℕ) (rest : List ℕ)
    → StopsDigits rest
    → read_signed (skip_spaces (decimal n ++ rest)) ≡ pos n
unfolding read_signed skip_spaces
read_signed-decimal n rest h =
    let (d, ds, e, g) = decimal-head n in ground (arith, e, g, read_digits-decimal n rest h)

read_signed-print_int :
    (z : ℤ) (rest : List ℕ) → StopsDigits rest → read_signed (skip_spaces (print_int z ++ rest)) ≡ z
unfolding print_int
read_signed-print_int (pos n) rest h = read_signed-decimal n rest h
read_signed-print_int (negsuc n) rest h =
    unfold read_signed skip_spaces in ap (λ r. negate_ℕ r.0) (read_digits-decimal (suc n) rest h)

to_int-clamp_long : (z : ℤ) → IsInt z → to_int (clamp_long z) ≡ z
unfolding to_int clamp_long
to_int-clamp_long (pos n) h = ground arith
to_int-clamp_long (negsuc n) h = ground arith

-- An `int` that was printed is read back, whatever follows that is no digit.
pub strtol-print_int :
    (z : ℤ) (rest : List ℕ) → IsInt z → StopsDigits rest → to_int (strtol (print_int z ++ rest)) ≡ z
unfolding strtol
strtol-print_int z rest h stop =
    ap (λ x. to_int (clamp_long x)) (read_signed-print_int z rest stop) ∙ to_int-clamp_long z h

clamp_long_small : (n : ℕ) → n < 2 ^ 63 → clamp_long (pos n) ≡ pos n
unfolding clamp_long
clamp_long_small n h = ground arith

pub strtol-decimal :
    (n : ℕ) (rest : List ℕ) → n < 2 ^ 63 → StopsDigits rest → strtol (decimal n ++ rest) ≡ pos n
unfolding strtol
strtol-decimal n rest h stop =
    ap clamp_long (read_signed-decimal n rest stop) ∙ clamp_long_small n h

-- Every character of a printed number is a digit.
abbrev pub AllDigits : List ℕ → Type 0
AllDigits [] = Unit
AllDigits (c ∷ cs) = (is_digit c ≡ true) × AllDigits cs

digits_before-AllDigits :
    (f n : ℕ) (acc : List ℕ) → AllDigits acc → AllDigits (digits_before f n acc)
unfolding digits_before
digits_before-AllDigits zero n acc h = h
digits_before-AllDigits (suc f) n acc h = elim (Bool-cases (ltb n 10)) [
  | inl small ↦ rw (small, digits_before) (ground arith, h)
  | inr large ↦
      rw (large, digits_before)
        (digits_before-AllDigits f (n / 10) ((b'0' + n % 10) ∷ acc) (ground arith, h))
]

pub decimal-AllDigits : (n : ℕ) → AllDigits (decimal n)
unfolding decimal
decimal-AllDigits n = digits_before-AllDigits (suc n) n [] tt

abbrev pub tens : ℕ → ℕ
tens zero = 1
tens (suc k) = 10 * tens k

-- A number below 10 ^ k has at most k digits.
length-digits_before :
    (k f n : ℕ) (acc : List ℕ)
    → n < tens (suc k)
    → length (digits_before f n acc) ≤ suc k + length acc
unfolding digits_before
length-digits_before k zero n acc h = omega arith
length-digits_before zero (suc f) n acc h = ground arith
length-digits_before (suc k) (suc f) n acc h = elim (Bool-cases (ltb n 10)) [
  | inl small ↦ rw (small, digits_before) (omega arith)
  | inr large ↦
      rw (large, digits_before)
        (omega
          (arith, length-digits_before k f (n / 10) ((b'0' + n % 10) ∷ acc) (omega (arith, h))))
]

pub length-decimal : (k n : ℕ) → n < tens (suc k) → length (decimal n) ≤ suc k
unfolding decimal
length-decimal k n h = omega (arith, length-digits_before k (suc n) n [] h)

-- ===== src/Tools/Numbers.antt =====
-- lab02/src/lib/src/lib_library.c: `numberSize` and `filterNumbers`.
pub mod Filtered
pub mod Counted
pub mod Meant
use agh_sem4_sysopy.Common.{
  ℕ, zero, suc, ◌+◌, ◌-◌, ◌*◌, ◌/◌, ◌%◌, Bool, true, false, ◌&&◌, ◌||◌, List, [], ◌∷◌, ◌++◌, ◌==◌,
  leb, ltb, if◌then◌else◌, length, take, replicate,
}
use agh_sem4_sysopy.Common.Int.{ℤ, pos, negsuc}
use agh_sem4_sysopy.Libc.Numbers.{decimal, strtol, to_int}
use agh_sem4_sysopy.Libc.Text.{codes}
use agh_sem4_sysopy.Tools.Lines.{fgetline, is_empty, max_line_len}

-- The loop of `numberSize`; a number has fewer rounds than its value.
unfoldable pub size_rounds : ℕ → ℕ → ℕ → ℕ
size_rounds zero number i = i
size_rounds (suc fuel) number i = elim (ltb 0 (number / 10)) [
  | true ↦ size_rounds fuel (number / 10) (i + 1)
  | false ↦ i
]

unfoldable pub number_size : ℤ → ℕ
unfolding size_rounds
number_size (pos n) = size_rounds n n 1
number_size (negsuc n) = 1

-- The largest number of at most `r` whose square is at most `n`.
unfoldable pub floor_sqrt : ℕ → ℕ → ℕ
floor_sqrt zero n = 0
floor_sqrt (suc r) n = elim (leb (suc r * suc r) n) [ true ↦ suc r | false ↦ floor_sqrt r n ]

-- `(int) round(sqrt((double) n))`, the integer nearest to the root.
unfoldable pub round_sqrt : ℕ → ℕ
unfolding floor_sqrt
round_sqrt n = let r = floor_sqrt n n in if ltb (r * r + r) n then r + 1 else r

-- The three conditions. The root of a negative number is none.
unfoldable pub is_even : ℤ → Bool
is_even (pos n) = n % 2 == 0
is_even (negsuc n) = suc n % 2 == 0

unfoldable pub has_tens : ℤ → Bool
has_tens (pos n) = ltb 10 n && (n / 10 % 10 == 0 || n / 10 % 10 == 7)
has_tens (negsuc n) = false

unfoldable pub is_square : ℤ → Bool
unfolding round_sqrt
is_square (pos n) = round_sqrt n * round_sqrt n == n
is_square (negsuc n) = false

-- `WRITE(out, buf, size)`, of a buffer of MAX_LINE_LEN bytes.
unfoldable pub write_bytes : ℕ → List ℕ → List ℕ → List ℕ
write_bytes size buf out = out ++ take size (buf ++ replicate (max_line_len - length buf) 0)

-- The counter, and what the files `b` and `c` hold.
pub record Sorted : Type 0 where
  pub even_counter : ℕ
  pub out_b : List ℕ
  pub out_c : List ℕ

-- A round of the loop.
unfoldable pub sort_line : List ℕ → Sorted → Sorted
unfolding is_even has_tens is_square write_bytes number_size
sort_line buf s =
    let number = to_int (strtol buf) in
    record {
      even_counter = if is_even number then s.even_counter + 1 else s.even_counter;
      out_b = if has_tens number then write_bytes (number_size number + 1) buf s.out_b else s.out_b;
      out_c =
          if is_square number then write_bytes (number_size number + 1) buf s.out_c else s.out_c;
    }

-- The loop, whose rounds but the last each take a byte.
unfoldable pub sort_rounds : ℕ → List ℕ → Sorted → Sorted
unfolding fgetline sort_line
sort_rounds zero file s = s
sort_rounds (suc fuel) file s =
    let (buf, rest) = fgetline file in
    elim (is_empty buf) [ true ↦ s | false ↦ sort_rounds fuel rest (sort_line buf s) ]

-- What the file `a` holds.
unfoldable pub write_count : ℕ → List ℕ
unfolding number_size
write_count even_counter =
    let line = codes "Liczb parzystych jest " ++ (decimal even_counter ++ codes "\n") in
    take (23 + number_size (pos even_counter)) (line ++ replicate (40 - length line) 0)

-- The files `a`, `b` and `c`.
unfoldable pub filter_numbers : List ℕ → List ℕ × List ℕ × List ℕ
unfolding sort_rounds write_count
filter_numbers file =
    let s =
      sort_rounds (length file + 1) file (record { even_counter = 0; out_b = []; out_c = [] }) in
    (write_count s.even_counter, s.out_b, s.out_c)

-- ===== src/Tools/Lines.antt =====
-- lab02/src/lib/src/lib_library.c: `fgetline`, `stringSize`, `merge` and `filterWithSign`. A file is its
-- bytes that are not read yet; a line is what its buffer of MAX_LINE_LEN bytes holds before the zeros.
pub mod Kept
pub mod Merged
pub mod Sizes
use agh_sem4_sysopy.Common.{
  ℕ, zero, suc, ◌+◌, ◌-◌, ◌≤◌, Bool, true, false, not, ◌&&◌, ◌||◌, List, [], ◌∷◌, ◌++◌, ◌==◌,
  if◌then◌else◌, length, replicate,
}

abbrev pub newline : ℕ
newline = 10

abbrev pub max_line_len : ℕ
max_line_len = 255

-- `strcat(line, &buf)`, where the byte after `buf` is a zero: one byte is added, or none if it is a zero.
abbrev pub strcat_byte : ℕ → List ℕ → List ℕ
strcat_byte c line = if c == 0 then line else c ∷ line

-- The line and what is left of the file. A line of more than 254 bytes is more than its buffer holds.
unfoldable pub fgetline : List ℕ → List ℕ × List ℕ
fgetline [] = ([], [])
fgetline (c ∷ cs) =
    let (line, rest) = fgetline cs in
    if c == newline then (c ∷ [], cs) else (strcat_byte c line, rest)

unfoldable pub string_size : List ℕ → ℕ
string_size [] = 0
string_size (c ∷ cs) = if c == newline then 1 else suc (string_size cs)

-- `WRITE(STDOUT, line, MAX_LINE_LEN)`: the whole buffer.
unfoldable pub write_line : List ℕ → List ℕ → List ℕ
write_line line out = out ++ (line ++ replicate (max_line_len - length line) 0)

abbrev pub is_empty : List ℕ → Bool
is_empty [] = true
is_empty (c ∷ cs) = false

-- The files, the flags and the line of `merge`, and what was written.
pub record Merge : Type 0 where
  pub file1 : List ℕ
  pub file2 : List ℕ
  pub eof1 : Bool
  pub eof2 : Bool
  pub line : List ℕ
  pub out : List ℕ

-- The first half of a round. Where `eof1` is set, `line` is what it was.
unfoldable pub first_half : Merge → Merge
unfolding fgetline write_line
first_half m =
    let (line, rest) = fgetline m.file1 in
    if m.eof1
    then record m { out = write_line m.line m.out }
    else (if is_empty line
        then record m { eof1 = true; line = line; file1 = rest }
        else record m { line = line; file1 = rest; out = write_line line m.out })

unfoldable pub second_half : Merge → Merge
unfolding fgetline write_line
second_half m =
    let (line, rest) = fgetline m.file2 in
    if m.eof2
    then record m { out = write_line m.line m.out }
    else (if is_empty line
        then record m { eof2 = true; line = line; file2 = rest }
        else record m { line = line; file2 = rest; out = write_line line m.out })

-- The loop. Each round but the last two takes a byte of a file.
unfoldable pub merge_rounds : ℕ → Merge → Merge
unfolding first_half second_half
merge_rounds zero m = m
merge_rounds (suc fuel) m = elim (not m.eof1 || not m.eof2) [
  | true ↦ merge_rounds fuel (second_half (first_half m))
  | false ↦ m
]

unfoldable pub merge : List ℕ → List ℕ → Merge
unfolding merge_rounds
merge file1 file2 =
    merge_rounds (length file1 + length file2 + 2)
      (record { file1 = file1; file2 = file2; eof1 = false; eof2 = false; line = []; out = [] })

-- `strchr`
unfoldable pub strchr : List ℕ → ℕ → Bool
strchr [] sign = false
strchr (c ∷ cs) sign = c == sign || strchr cs sign

-- The loop of `filterWithSign`, whose rounds but the last each take a byte.
unfoldable pub filter_rounds : ℕ → List ℕ → ℕ → List ℕ → List ℕ
unfolding fgetline strchr write_line
filter_rounds zero file sign out = out
filter_rounds (suc fuel) file sign out =
    let (line, rest) = fgetline file in
    elim (is_empty line) [
      | true ↦ out
      | false ↦ filter_rounds fuel rest sign (if strchr line sign then write_line line out else out)
    ]

unfoldable pub filter_with_sign : List ℕ → ℕ → List ℕ
unfolding filter_rounds
filter_with_sign file sign = filter_rounds (length file + 1) file sign []

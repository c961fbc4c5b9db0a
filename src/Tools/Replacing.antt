-- ===== src/Tools/Replacing.antt =====
-- lab02/src/lib/src/lib_library.c: `replace`.
pub mod Substituted
use agh_sem4_sysopy.Common.{
  ℕ, zero, suc, ◌+◌, ◌-◌, ◌*◌, Bool, true, false, ◌&&◌, List, [], ◌∷◌, ◌++◌, ◌==◌, leb, ltb,
  if◌then◌else◌, Option, none, some, length, take, drop, replicate,
}
use agh_sem4_sysopy.Libc.Strings.{strn_eq}
use agh_sem4_sysopy.Tools.Lines.{newline, fgetline, string_size, is_empty}

-- The count: `rest` is the line from &line[i] on.
unfoldable pub count_rounds : ℕ → List ℕ → ℕ → List ℕ → ℕ
unfolding strn_eq
count_rounds zero rest pattern_size n1 = 0
count_rounds (suc left) rest pattern_size n1 =
    (if strn_eq pattern_size rest n1 then 1 else 0)
    + count_rounds left (drop 1 rest) pattern_size n1

-- The copy, of which `left` characters are left: what the calls of strncat append.
unfoldable pub copy_rounds : ℕ → ℕ → List ℕ → ℕ → List ℕ → List ℕ → List ℕ
unfolding strn_eq
copy_rounds zero left rest pattern_size n1 replacement = []
copy_rounds (suc fuel) zero rest pattern_size n1 replacement = []
copy_rounds (suc fuel) (suc left) rest pattern_size n1 replacement =
    elim (strn_eq pattern_size rest n1) [
      | true ↦
          replacement
          ++ copy_rounds fuel (suc left - pattern_size) (drop pattern_size rest) pattern_size n1
              replacement
      | false ↦ take 1 rest ++ copy_rounds fuel left (drop 1 rest) pattern_size n1 replacement
    ]

-- The text and its terminator are in the buffer, whose last byte becomes the newline. A buffer that is
-- too small, or has no byte, has no result.
unfoldable pub with_newline : List ℕ → ℕ → Option (List ℕ)
with_newline text buf_size =
    if ltb (length text) buf_size
    then some (text ++ (replicate (buf_size - 1 - length text) 0 ++ newline ∷ []))
    else none

-- What is written for a line. `bufSize` is lineSize + (replacementSize - patternSize) * ctr; where the
-- int is not positive, 0 stands for it. With an empty pattern the copy does not end.
unfoldable pub replace_line : List ℕ → List ℕ → List ℕ → Option (List ℕ)
unfolding string_size count_rounds copy_rounds with_newline
replace_line n1 n2 line =
    let pattern_size = string_size n1 in
    let replacement_size = string_size n2 in
    let line_size = string_size line in
    let ctr = count_rounds (line_size - pattern_size) line pattern_size n1 in
    let text =
      copy_rounds line_size (line_size - 1) line pattern_size n1 (take replacement_size n2) in
    if pattern_size == 0 && ltb 1 line_size
    then none
    else with_newline text (line_size + replacement_size * ctr - pattern_size * ctr)

unfoldable pub add_replaced : List ℕ → Option (List ℕ) → Option (List ℕ)
add_replaced out none = none
add_replaced out (some bytes) = some (out ++ bytes)

unfoldable pub then_replace : (List ℕ → Option (List ℕ)) → Option (List ℕ) → Option (List ℕ)
then_replace next none = none
then_replace next (some out) = next out

-- The loop over the lines of the file, whose rounds but the last each take a byte.
unfoldable pub replace_file : ℕ → List ℕ → List ℕ → List ℕ → List ℕ → Option (List ℕ)
unfolding fgetline replace_line add_replaced then_replace
replace_file zero file n1 n2 out = some out
replace_file (suc fuel) file n1 n2 out =
    let (line, rest) = fgetline file in
    elim (is_empty line) [
      | true ↦ some out
      | false ↦
          then_replace (replace_file fuel rest n1 n2) (add_replaced out (replace_line n1 n2 line))
    ]

unfoldable pub replace : List ℕ → List ℕ → List ℕ → Option (List ℕ)
unfolding replace_file
replace file n1 n2 = replace_file (length file + 1) file n1 n2 []

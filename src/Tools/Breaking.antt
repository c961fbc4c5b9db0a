-- ===== src/Tools/Breaking.antt =====
-- lab02/src/lib/src/lib_library.c: `breakLines`.
pub mod Broken
use agh_sem4_sysopy.Common.{
  ◌&&◌, if◌then◌else◌, ℕ, zero, suc, ◌+◌, ◌-◌, ◌*◌, ◌/◌, ◌≤◌, ◌<◌, ◌≡◌, refl, sym, ap, ◌∙◌, inl,
  inr, Bool, true, false, List, [], ◌∷◌, ◌++◌, arith, ◌==◌, ltb, if◌then◌else◌, Option, none, some,
  length, length-append, take, drop, replicate, take-all, take-length, length-take_le, length-drop,
  drop-drop, Bool-cases, length-replicate,
}
use agh_sem4_sysopy.Tools.Lines.{newline, fgetline, string_size, is_empty, max_line_len}

-- The size of `brokenLine`.
abbrev pub broken_size : ℕ
broken_size = 52

-- `brokenLine` once its newline is added.
abbrev pub piece_at : ℕ → List ℕ → List ℕ
piece_at i line = take 50 (drop (50 * i) line) ++ newline ∷ []

-- The inner loop, of which `left` rounds are left: `brokenLine` is at most 50 characters from the place
-- 50 * i of the line's buffer on, and a newline. There is no result where that place is outside, or
-- where `brokenLine` does not hold the characters and a terminator.
unfoldable pub break_rounds : ℕ → ℕ → List ℕ → List ℕ → Option (List ℕ)
break_rounds zero i line buf = some buf
break_rounds (suc left) i line buf =
    elim (ltb (50 * i) max_line_len && ltb (length (piece_at i line)) broken_size) [
      | true ↦ break_rounds left (i + 1) line (buf ++ piece_at i line)
      | false ↦ none
    ]

-- `size + breaks_num` bytes of a buffer of two bytes more, filled with zeros; it has no result where the
-- text, which only grows, and its terminator are more than the buffer holds.
unfoldable pub written_pieces : ℕ → Option (List ℕ) → Option (List ℕ)
written_pieces n none = none
written_pieces n (some buf) =
    if ltb (length buf) (n + 2)
    then some (take n (buf ++ replicate (n + 2 - length buf) 0))
    else none

-- What is written of one line. There is no result of a division by zero.
unfoldable pub break_line : ℕ → List ℕ → Option (List ℕ)
unfolding string_size break_rounds written_pieces
break_line zero line = none
break_line (suc b) line =
    let size = string_size line in
    let breaks_num = size / suc b in
    elim (ltb 0 breaks_num) [
      | true ↦ written_pieces (size + breaks_num) (break_rounds (suc breaks_num) 0 line [])
      | false ↦ some (take size line)
    ]

unfoldable pub add_broken : List ℕ → Option (List ℕ) → Option (List ℕ)
add_broken out none = none
add_broken out (some bytes) = some (out ++ bytes)

unfoldable pub then_break : (List ℕ → Option (List ℕ)) → Option (List ℕ) → Option (List ℕ)
then_break next none = none
then_break next (some out) = next out

-- The loop over the lines of the file, whose rounds but the last each take a byte.
unfoldable pub break_file : ℕ → List ℕ → ℕ → List ℕ → Option (List ℕ)
unfolding fgetline break_line add_broken then_break
break_file zero file breakpoint out = some out
break_file (suc fuel) file breakpoint out =
    let (line, rest) = fgetline file in
    elim (is_empty line) [
      | true ↦ some out
      | false ↦
          then_break (break_file fuel rest breakpoint) (add_broken out (break_line breakpoint line))
    ]

unfoldable pub break_lines : List ℕ → ℕ → Option (List ℕ)
unfolding break_file
break_lines file breakpoint = break_file (length file + 1) file breakpoint []

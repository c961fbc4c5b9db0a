-- ===== src/Merge/Laws.antt =====
-- lab01/src/lib/src/lib_merge.c: from two files to a block of rows and its printing, and the rows of a block.
use mathlib.Core.List.{◌++◌}
use agh_sem4_sysopy.Common.{
  ℕ, zero, suc, ◌+◌, ◌-◌, ◌%◌, ◌^◌, ◌<◌, ◌≡◌, refl, ap, List, [], ◌∷◌, arith, true, Option, none,
  some, ◌==◌, length, set, count, Bool-cases, inl, inr,
}
use agh_sem4_sysopy.Merge.Files.{newline, merge, divide_files_pair, read_rows}
use agh_sem4_sysopy.Merge.Blocks.{
  Block, read_block, lookup, drop_row, print_row, print_rows, print_array,
}
use agh_sem4_sysopy.Merge.Interleaved.{
  is_line, are_lines, join, interleave, getline-line, row_of-line, countlines-join, length-join,
  at_end-line, nil_of_at_end, merge_loop-join, merge_loop-ends,
}

abbrev pub all_rows : List (List ℕ) → List (Option (List ℕ))
all_rows [] = []
all_rows (line ∷ lines) = some line ∷ all_rows lines

read_rows-join :
    (lines : List (List ℕ))
    → are_lines lines ≡ true
    → read_rows (length lines) (join lines) ≡ all_rows lines
unfolding read_rows join are_lines
read_rows-join [] h = refl
read_rows-join (line ∷ lines) h =
    let is : is_line line ≡ true = ground (arith, h) in
    let go = read_rows-join lines (ground (arith, h)) in
    rw
      (at_end-line line (join lines) is, getline-line line (join lines) is, go, row_of-line line is)
      refl

read_block-join :
    (lines : List (List ℕ))
    → are_lines lines ≡ true
    → read_block (join lines)
      ≡ record { rows = some (all_rows lines); size = length lines; current_size = length lines }
read_block-join lines h = rw (countlines-join lines h, read_rows-join lines h) refl

are_lines-interleave :
    (xs ys : List (List ℕ))
    → are_lines xs ≡ true
    → are_lines ys ≡ true
    → are_lines (interleave xs ys) ≡ true
unfolding interleave are_lines
are_lines-interleave [] ys h k = k
are_lines-interleave (x ∷ xs) [] h k = h
are_lines-interleave (x ∷ xs) (y ∷ ys) h k =
    ground (arith, h, k, are_lines-interleave xs ys (ground (arith, h)) (ground (arith, k)))

length-interleave : (xs ys : List (List ℕ)) → length (interleave xs ys) ≡ length xs + length ys
unfolding interleave
length-interleave [] ys = omega arith
length-interleave (x ∷ xs) [] = omega arith
length-interleave (x ∷ xs) (y ∷ ys) = omega (arith, length-interleave xs ys)

-- `merge` writes the lines of the two files by turns, beginning with the first file's, and then what is left of the
-- longer one, if each file holds whole lines without zeros.
pub merge-interleave :
    (xs ys : List (List ℕ))
    → are_lines xs ≡ true
    → are_lines ys ≡ true
    → merge (join xs) (join ys) ≡ some (join (interleave xs ys))
unfolding merge
merge-interleave xs ys h k =
    merge_loop-join _ xs ys h k (omega (arith, length-join xs h, length-join ys k))

-- `merge` comes to an end on every two files, whatever their bytes.
pub merge-ends : (file1 file2 : List ℕ) → (out : List ℕ) × (merge file1 file2 ≡ some out)
unfolding merge
merge-ends file1 file2 = merge_loop-ends _ file1 file2 (omega arith)

-- The block that is read from the merged file has one row for each line of the two files, in the order in
-- which they were merged, and both its sizes are the number of the lines, if each file holds whole lines without zeros.
pub read_block-merge :
    (xs ys : List (List ℕ))
    → are_lines xs ≡ true
    → are_lines ys ≡ true
    → (out : List ℕ) × (merge (join xs) (join ys) ≡ some out)
      × (read_block out ≡ record {
        rows = some (all_rows (interleave xs ys));
        size = length xs + length ys;
        current_size = length xs + length ys;
      })
read_block-merge xs ys h k = (
  join (interleave xs ys),
  merge-interleave xs ys h k,
  rw (← length-interleave xs ys)
      (read_block-join (interleave xs ys) (are_lines-interleave xs ys h k)),
)

print_row-line : (line : List ℕ) → is_line line ≡ true → print_row line ≡ none
unfolding print_row is_line
print_row-line [] h = refl
print_row-line (c ∷ line) h = elim (Bool-cases (c == newline)) [
  | inl e ↦ let z = nil_of_at_end line (ground (arith, h, e)) in rw z (ground (arith, e))
  | inr e ↦ ground (arith, e, h, print_row-line line (ground (arith, h, e)))
]

print_rows-none :
    (row : List ℕ) (rows : List (Option (List ℕ)))
    → print_row row ≡ none
    → print_rows (some row ∷ rows) ≡ none
unfolding print_rows
print_rows-none row rows e = rw (print_rows, e) refl

print_array-none :
    (block : Block) (rows : List (Option (List ℕ))) (blocks : List Block)
    → block.rows ≡ some rows
    → print_rows rows ≡ none
    → print_array (block ∷ blocks) ≡ none
unfolding print_array
print_array-none block rows blocks e f = rw (print_array, e, f) refl

-- `print_array` has no result where the first block was read from a file of at least one whole line without zeros:
-- the row leaves no room for the string's terminator, and `%s` reads past its end.
pub print_array-overread :
    (line : List ℕ) (lines : List (List ℕ)) (blocks : List Block)
    → are_lines (line ∷ lines) ≡ true
    → print_array (read_block (join (line ∷ lines)) ∷ blocks) ≡ none
unfolding are_lines
print_array-overread line lines blocks h =
    print_array-none (read_block (join (line ∷ lines))) (all_rows (line ∷ lines)) blocks
      (ap (λ block. block.rows) (read_block-join (line ∷ lines) h))
      (print_rows-none line (all_rows lines) (print_row-line line (ground (arith, h))))

-- `divide_files_pair` cuts at the first colon.
pub divide-colon :
    (file1 file2 : List ℕ)
    → count b':' file1 ≡ 0
    → divide_files_pair (file1 ++ (b':' ∷ file2)) ≡ some (file1, file2)
unfolding divide_files_pair count
divide-colon [] file2 h = refl
divide-colon (c ∷ file1) file2 h = elim (Bool-cases (c == b':')) [
  | inl e ↦ absurd (ground (arith, h, e))
  | inr e ↦ rw (e, divide-colon file1 file2 (ground (arith, h, e))) refl
]

-- How many rows of a block are left.
unfoldable pub live : List (Option (List ℕ)) → ℕ
live [] = 0
live (none ∷ rows) = live rows
live (some _ ∷ rows) = suc (live rows)

live-set :
    (rows : List (Option (List ℕ))) (i : ℕ) (row : List ℕ)
    → lookup rows i ≡ some (some row)
    → live (set rows i none) + 1 ≡ live rows
unfolding live lookup
live-set [] i row e = absurd (ground arith)
live-set (none ∷ rows) zero row e = absurd (ground arith)
live-set (some r ∷ rows) zero row e = omega arith
live-set (none ∷ rows) (suc i) row e = omega (arith, live-set rows i row e)
live-set (some r ∷ rows) (suc i) row e = omega (arith, live-set rows i row e)

live-pos :
    (rows : List (Option (List ℕ))) (i : ℕ) (row : List ℕ)
    → lookup rows i ≡ some (some row)
    → 0 < live rows
live-pos rows i row e = omega (arith, live-set rows i row e)

-- `remove_row` of a row that is there takes away that row alone, and keeps `current_size` the number of the rows
-- that are left, if it was that and is an `int`.
pub drop_row-live :
    (rows : List (Option (List ℕ))) (size i : ℕ) (row : List ℕ)
    → lookup rows i ≡ some (some row)
    → live rows < 2 ^ 31
    → (drop_row (record { rows = some rows; size = size; current_size = live rows }) i
        ≡ some (record {
          rows = some (set rows i none);
          size = size;
          current_size = live (set rows i none);
        }))
      × (live (set rows i none) + 1 ≡ live rows)
unfolding drop_row
drop_row-live rows size i row e l =
    let n : (live rows + (2 ^ 32 - 1)) % 2 ^ 32 ≡ live (set rows i none) =
      omega (arith, live-set rows i row e, l) in
    (rw (drop_row, e, n) refl, live-set rows i row e)

-- ===== src/Merge/Tests.antt =====
-- lab01/src/lib/src/lib_merge.c: two short files.
use agh_sem4_sysopy.Common.{ℕ, ◌+◌, ◌≡◌, refl, List, [], ◌∷◌, Option, none, some}
use agh_sem4_sysopy.Libc.Text.{codes}
use agh_sem4_sysopy.Merge.Files.{merge, merge_loop, getline, c_string}
use agh_sem4_sysopy.Merge.Blocks.{read_block, drop_row, lookup, print_array}
use agh_sem4_sysopy.Merge.Interleaved.{join, interleave, is_line, are_lines}
use agh_sem4_sysopy.Merge.Laws.{merge-ends, read_block-merge, all_rows, print_array-overread}

abbrev first_lines : List (List ℕ)
first_lines = codes "a\n" ∷ codes "bc\n" ∷ []

abbrev second_lines : List (List ℕ)
second_lines = codes "d\n" ∷ []

merge_runs : merge (codes "a\nbc\n") (codes "d\n") ≡ some (codes "a\nd\nbc\n")
unfolding merge merge_loop getline c_string
merge_runs = refl

-- A last line without a newline runs into the next one.
merge_joins : merge (codes "a") (codes "d\n") ≡ some (codes "ad\n")
unfolding merge merge_loop getline c_string
merge_joins = refl

merge-ends_example : (out : List ℕ) × (merge (codes "a\nb") (codes "") ≡ some out)
merge-ends_example = merge-ends (codes "a\nb") (codes "")

read_block-merge_example :
    (out : List ℕ) × (merge (join first_lines) (join second_lines) ≡ some out)
    × (read_block out ≡ record {
      rows = some (all_rows (interleave first_lines second_lines));
      size = 2 + 1;
      current_size = 2 + 1;
    })
unfolding are_lines is_line
read_block-merge_example = read_block-merge first_lines second_lines refl refl

print_array-overread_example : print_array (read_block (join first_lines) ∷ []) ≡ none
unfolding are_lines is_line
print_array-overread_example = print_array-overread (codes "a\n") (codes "bc\n" ∷ []) [] refl

abbrev two_rows : List (Option (List ℕ))
two_rows = some (codes "a\n") ∷ none ∷ some (codes "b\n") ∷ []

-- A row that is gone is counted down again.
drops_twice :
    drop_row (record { rows = some two_rows; size = 3; current_size = 2 }) 1
    ≡ some (record { rows = some two_rows; size = 3; current_size = 1 })
unfolding drop_row lookup
drops_twice = refl

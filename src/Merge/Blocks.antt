-- ===== src/Merge/Blocks.antt =====
-- lab01/src/lib: `struct block` of lib_merge.h and the functions of lib_merge.c on an array of blocks. A null pointer is
-- none; a function that follows one, or leaves its array, has no result. What `free` gives back is left out.
use mathlib.Core.List.{◌++◌}
use agh_sem4_sysopy.Common.{
  ℕ, zero, suc, ◌+◌, ◌-◌, ◌%◌, ◌^◌, List, [], ◌∷◌, Option, none, some, ◌==◌, if◌then◌else◌, set,
  replicate,
}
use agh_sem4_sysopy.Merge.Files.{countlines, read_rows, newline}

pub record Block : Type 0 where
  pub rows : Option (List (Option (List ℕ)))
  pub size : ℕ
  pub current_size : ℕ

abbrev pub read_block : List ℕ → Block
read_block file = record {
  rows = some (read_rows (countlines file) file);
  size = countlines file;
  current_size = countlines file;
}

-- `a[i]`
unfoldable pub lookup {ℓ} : {A : Type ℓ} → List A → ℕ → Option A
lookup [] i = none
lookup (x ∷ xs) zero = some x
lookup (x ∷ xs) (suc i) = lookup xs i

-- `create_array`, whose blocks `calloc` clears.
abbrev pub create_array : ℕ → List Block
create_array n = replicate n (record { rows = none; size = 0; current_size = 0 })

-- The loop of `add_blocks` from `i` on, over the files of `tmp`.
unfoldable pub add_from : (ℕ → List ℕ) → ℕ → ℕ → List Block → Option (List Block)
add_from files i zero blocks = some blocks
add_from files i (suc k) blocks =
    let rest = add_from files (suc i) k (set blocks i (read_block (files i))) in
    elim (lookup blocks i) [ none ↦ none | some old ↦ rest ]

abbrev pub add_blocks : (ℕ → List ℕ) → ℕ → List Block → Option (List Block)
add_blocks files n blocks = add_from files 0 n blocks

unfoldable pub remove_block : List Block → ℕ → Option (List Block)
remove_block blocks block_index = elim (lookup blocks block_index) [
  | none ↦ none
  | some block ↦ some (set blocks block_index (record block { rows = none }))
]

-- `remove_row` on one block.
unfoldable pub drop_row : Block → ℕ → Option Block
drop_row block row_index = elim block.rows [
  | none ↦ none
  | some rows ↦ elim (lookup rows row_index) [
    | none ↦ none
    | some row ↦ some (record {
      rows = some (set rows row_index none);
      size = block.size;
      current_size = (block.current_size + (2 ^ 32 - 1)) % 2 ^ 32;
    })
  ]
]

unfoldable pub remove_row : List Block → ℕ → ℕ → Option (List Block)
remove_row blocks block_index row_index = elim (lookup blocks block_index) [
  | none ↦ none
  | some block ↦ elim (drop_row block row_index) [
    | none ↦ none
    | some block' ↦ some (set blocks block_index block')
  ]
]

-- `printf("%s", row)`, which has no result where the row holds no zero and the read leaves it.
unfoldable pub print_row : List ℕ → Option (List ℕ)
print_row [] = none
print_row (c ∷ row) =
    let rest = print_row row in
    if c == 0 then some [] else elim rest [ none ↦ none | some s ↦ some (c ∷ s) ]

-- The inner loop of `print_array`.
unfoldable pub print_rows : List (Option (List ℕ)) → Option (List ℕ)
print_rows [] = some []
print_rows (none ∷ rows) = print_rows rows
print_rows (some row ∷ rows) = elim (print_row row) [
  | none ↦ none
  | some s ↦ elim (print_rows rows) [ none ↦ none | some rest ↦ some (s ++ rest) ]
]

unfoldable pub print_array : List Block → Option (List ℕ)
print_array [] = some []
print_array (block ∷ blocks) =
    let rest = print_array blocks in
    elim block.rows [
      | none ↦ rest
      | some rows ↦ elim (print_rows rows) [
        | none ↦ none
        | some s ↦ elim rest [ none ↦ none | some t ↦ some (s ++ (newline ∷ t)) ]
      ]
    ]

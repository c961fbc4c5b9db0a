-- ===== src/Merge/Files.antt =====
-- lab01/src/lib/src/lib_merge.c: what `merge`, `divide_files_pair`, `countlines` and `read_block` do with the
-- bytes of a file. The files are given by what they hold; opening and closing them is left out.
use mathlib.Core.List.{◌++◌}
use agh_sem4_sysopy.Common.{
  ℕ, zero, suc, ◌+◌, List, [], ◌∷◌, Bool, true, false, ◌&&◌, Option, none, some, ◌==◌,
  if◌then◌else◌, length, replicate, count,
}

abbrev pub newline : ℕ
newline = 10

-- `getline`: the line read, with its newline, and what is left of the file. At the end of the file the line is empty.
unfoldable pub getline : List ℕ → List ℕ × List ℕ
getline [] = ([], [])
getline (c ∷ file) =
    let (line, rest) = getline file in if c == newline then (c ∷ [], file) else (c ∷ line, rest)

-- A string up to its first zero, as `%s` prints it.
unfoldable pub c_string : List ℕ → List ℕ
c_string [] = []
c_string (c ∷ s) = let rest = c_string s in if c == 0 then [] else c ∷ rest

abbrev pub at_end : List ℕ → Bool
at_end [] = true
at_end (_ ∷ _) = false

-- The loop of `merge`, in at most so many rounds, to what it writes to the output.
unfoldable pub merge_loop : ℕ → List ℕ → List ℕ → Option (List ℕ)
merge_loop zero file1 file2 = none
merge_loop (suc rounds) file1 file2 =
    let (line1, rest1) = getline file1 in
    let (line2, rest2) = getline file2 in
    let written = merge_loop rounds rest1 rest2 in
    if at_end file1 && at_end file2
    then some []
    else elim written [ none ↦ none | some out ↦ some (c_string line1 ++ (c_string line2 ++ out)) ]

-- Every round but the last reads a byte.
unfoldable pub merge : List ℕ → List ℕ → Option (List ℕ)
merge file1 file2 = merge_loop (suc (length file1 + length file2)) file1 file2

-- `divide_files_pair`: nothing where the loop runs past the end of a sequence without a colon.
unfoldable pub divide_files_pair : List ℕ → Option (List ℕ × List ℕ)
divide_files_pair [] = none
divide_files_pair (c ∷ sequence) =
    let rest = divide_files_pair sequence in
    if c == b':'
    then some ([], sequence)
    else elim rest [ none ↦ none | some (file1, file2) ↦ some (c ∷ file1, file2) ]

abbrev pub countlines : List ℕ → ℕ
countlines file = count newline file

-- `block.rows[i]`: the line up to its first zero, in as many cells as were read.
unfoldable pub row_of : List ℕ → List ℕ
row_of [] = []
row_of (c ∷ line) =
    let rest = row_of line in if c == 0 then replicate (suc (length line)) 0 else c ∷ rest

-- The loop of `read_block`, for so many rows that are still empty.
unfoldable pub read_rows : ℕ → List ℕ → List (Option (List ℕ))
read_rows zero file = []
read_rows (suc n) file =
    let (line, rest) = getline file in
    if at_end file then replicate (suc n) none else some (row_of line) ∷ read_rows n rest

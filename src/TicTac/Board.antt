-- ===== src/TicTac/Board.antt =====
-- lab10/tcp/src/server.c: the board, `check_line` and `check_board`, with the constants of
-- lab10/tcp/src/utils.h. A `char` is the number of its byte, and `+=` on a `char` keeps its low
-- eight bits.
pub mod Winner
use agh_sem4_sysopy.Common.{
  ℕ, ◌+◌, ◌%◌, Bool, true, false, not, ◌&&◌, List, [], ◌∷◌, ◌==◌, if◌then◌else◌, get_or,
}

abbrev pub board_size : ℕ
board_size = 9

abbrev pub tick1 : ℕ
tick1 = b'O'

abbrev pub tick2 : ℕ
tick2 = b'X'

abbrev pub blank : ℕ
blank = 32

abbrev pub draw : ℕ
draw = b'd'

-- `board[i]`
abbrev pub at : List ℕ → ℕ → ℕ
at board i = get_or board i 0

abbrev pub add_char : ℕ → ℕ → ℕ
add_char a b = (a + b) % 256

unfoldable pub check_line : ℕ → ℕ → ℕ → ℕ
check_line field1 field2 field3 =
    if not (field1 == blank) && (field1 == field2) && (field2 == field3) then field1 else 0

-- The loop that looks for a free field.
unfoldable pub is_full : List ℕ → Bool
is_full [] = true
is_full (field ∷ fields) = not (field == blank) && is_full fields

-- `winner += check_line(board[i], board[j], board[k])`
abbrev pub tally : List ℕ → ℕ → ℕ → ℕ → ℕ → ℕ
tally board winner i j k = add_char winner (check_line (at board i) (at board j) (at board k))

unfoldable pub check_board : List ℕ → ℕ
check_board board =
    let columns = tally board (tally board (tally board 0 0 3 6) 1 4 7) 2 5 8 in
    let rows = tally board (tally board (tally board columns 0 1 2) 3 4 5) 6 7 8 in
    let diagonal = tally board rows 0 4 8 in
    let winner = tally board diagonal 2 4 6 in
    if columns == 0
    then columns
    else (if rows == 0
        then rows
        else (if diagonal == 0 then diagonal else (if is_full board then draw else winner)))

-- ===== src/TicTac/Board/Winner.antt =====
-- What `check_board` of lab10/tcp/src/server.c reports, in terms of the eight lines of the board.
use agh_sem4_sysopy.Common.{
  ℕ, ◌+◌, ◌*◌, ◌%◌, ◌≤◌, ◌<◌, ◌≡◌, ◌⊎◌, ◌≢◌, ◌↔◌, Bool, false, ◌&&◌, List, arith, ◌==◌,
  if◌then◌else◌,
}
use agh_sem4_sysopy.TicTac.Board.{
  tick1, tick2, blank, draw, at, check_line, is_full, tally, check_board,
}

-- A field of a game: free, or one of the two ticks.
abbrev pub IsField : ℕ → Type 0
IsField c = (c ≡ blank) ⊎ (c ≡ tick1) ⊎ (c ≡ tick2)

abbrev pub IsGame : List ℕ → Type 0
IsGame board = (i : ℕ) → i < 9 → IsField (at board i)

-- 1 if the fields `i`, `j`, `k` all hold `v`.
unfoldable pub line : List ℕ → ℕ → ℕ → ℕ → ℕ → ℕ
line board v i j k = if (at board i == v) && (at board j == v) && (at board k == v) then 1 else 0

-- How many columns, and how many rows and diagonals, hold `v` throughout.
unfoldable pub columns_of : List ℕ → ℕ → ℕ
unfolding line
columns_of board v = line board v 0 3 6 + line board v 1 4 7 + line board v 2 5 8

unfoldable pub others_of : List ℕ → ℕ → ℕ
unfolding line
others_of board v =
    line board v 0 1 2
    + line board v 3 4 5
    + line board v 6 7 8
    + line board v 0 4 8
    + line board v 2 4 6

line-le : (board : List ℕ) (i j k : ℕ) → line board tick1 i j k + line board tick2 i j k ≤ 1
unfolding line
line-le board i j k = ground arith

line-check :
    (board : List ℕ) (i j k : ℕ)
    → IsField (at board i)
    → check_line (at board i) (at board j) (at board k)
      ≡ 79 * line board tick1 i j k + 88 * line board tick2 i j k
unfolding line check_line
line-check board i j k f = ground arith

-- The sum of `a` noughts and `b` crosses in a `char`.
abbrev marks : ℕ → ℕ → ℕ
marks a b = (79 * a + 88 * b) % 256

tally-marks :
    (board : List ℕ) (w a b i j k : ℕ)
    → IsField (at board i)
    → w ≡ marks a b
    → tally board w i j k ≡ marks (a + line board tick1 i j k) (b + line board tick2 i j k)
tally-marks board w a b i j k f e = omega (arith, line-check board i j k f)

marks-eq_zero : (a b : ℕ) → a + b ≤ 8 → marks a b ≡ 0 → a + b ≡ 0
marks-eq_zero a b h e = omega arith

abbrev verdict : ℕ → ℕ → ℕ → ℕ → Bool → ℕ
verdict columns rows diagonal winner full =
    if columns == 0
    then columns
    else (if rows == 0
        then rows
        else (if diagonal == 0 then diagonal else (if full then draw else winner)))

module _ (board : List ℕ) (game : IsGame board) where
  abbrev o : ℕ → ℕ → ℕ → ℕ
  o = line board tick1

  abbrev x : ℕ → ℕ → ℕ → ℕ
  x = line board tick2

  abbrev columns : ℕ
  columns = tally board (tally board (tally board 0 0 3 6) 1 4 7) 2 5 8

  abbrev rows : ℕ
  rows = tally board (tally board (tally board columns 0 1 2) 3 4 5) 6 7 8

  columns_sum : columns ≡ marks (columns_of board tick1) (columns_of board tick2)
  unfolding columns_of
  columns_sum = omega (
    arith,
    line-check board 0 3 6 (game 0 (omega arith)),
    line-check board 1 4 7 (game 1 (omega arith)),
    line-check board 2 5 8 (game 2 (omega arith)),
  )

  rows_sum :
      rows
      ≡ marks
          (columns_of board tick1 + (o 0 1 2 + o 3 4 5 + o 6 7 8))
          (columns_of board tick2 + (x 0 1 2 + x 3 4 5 + x 6 7 8))
  rows_sum = omega (
    arith,
    columns_sum,
    line-check board 0 1 2 (game 0 (omega arith)),
    line-check board 3 4 5 (game 3 (omega arith)),
    line-check board 6 7 8 (game 6 (omega arith)),
  )

  diagonal_sum :
      tally board rows 0 4 8
      ≡ marks
          (columns_of board tick1 + (o 0 1 2 + o 3 4 5 + o 6 7 8 + o 0 4 8))
          (columns_of board tick2 + (x 0 1 2 + x 3 4 5 + x 6 7 8 + x 0 4 8))
  diagonal_sum = omega (arith, rows_sum, line-check board 0 4 8 (game 0 (omega arith)))

  winner_sum :
      tally board (tally board rows 0 4 8) 2 4 6
      ≡ marks
          (columns_of board tick1 + others_of board tick1)
          (columns_of board tick2 + others_of board tick2)
  unfolding others_of
  winner_sum = omega (arith, diagonal_sum, line-check board 2 4 6 (game 2 (omega arith)))

  few_lines :
      columns_of board tick1
        + (o 0 1 2 + o 3 4 5 + o 6 7 8 + o 0 4 8)
        + (columns_of board tick2 + (x 0 1 2 + x 3 4 5 + x 6 7 8 + x 0 4 8))
      ≤ 7
  unfolding columns_of
  few_lines = omega (
    arith,
    line-le board 0 3 6,
    line-le board 1 4 7,
    line-le board 2 5 8,
    line-le board 0 1 2,
    line-le board 3 4 5,
    line-le board 6 7 8,
    line-le board 0 4 8,
  )

  -- What `check_board` returns on a board of a game, in full: 0 unless some column is complete,
  -- whatever the rows and diagonals hold; else 'd' if no field is free; else the sum, in a `char`,
  -- of the ticks of all complete lines.
  pub check_board_lem : check_board board ≡ (
      if columns_of board tick1 + columns_of board tick2 == 0
      then 0
      else (if is_full board
          then draw
          else (79 * (columns_of board tick1 + others_of board tick1)
              + 88 * (columns_of board tick2 + others_of board tick2))
            % 256))
  unfolding check_board
  check_board_lem = ground (
    arith,
    columns_sum,
    rows_sum,
    diagonal_sum,
    winner_sum,
    few_lines,
    marks-eq_zero (columns_of board tick1) (columns_of board tick2),
    marks-eq_zero (columns_of board tick1 + (o 0 1 2 + o 3 4 5 + o 6 7 8))
        (columns_of board tick2 + (x 0 1 2 + x 3 4 5 + x 6 7 8)),
    marks-eq_zero (columns_of board tick1 + (o 0 1 2 + o 3 4 5 + o 6 7 8 + o 0 4 8))
        (columns_of board tick2 + (x 0 1 2 + x 3 4 5 + x 6 7 8 + x 0 4 8)),
  )

  winner_nonzero :
      1 ≤ columns_of board tick1 + columns_of board tick2
      → marks
          (columns_of board tick1 + others_of board tick1)
          (columns_of board tick2 + others_of board tick2)
        ≢ 0
  unfolding others_of
  winner_nonzero h = omega (
    arith,
    few_lines,
    line-le board 2 4 6,
    marks-eq_zero (columns_of board tick1 + others_of board tick1)
        (columns_of board tick2 + others_of board tick2),
  )

  -- A game is never called while no column is complete, also where a row or a diagonal is won and
  -- where every field is taken.
  pub check_board-eq_zero :
      (check_board board ≡ 0) ↔ ((columns_of board tick1 ≡ 0) × (columns_of board tick2 ≡ 0))
  check_board-eq_zero =
      (λ e. ground (arith, check_board_lem, winner_nonzero), λ h. ground (arith, check_board_lem))

-- A player who completes one column, and nothing else, while a field is free is reported.
pub check_board_single :
    (board : List ℕ) (v : ℕ)
    → IsGame board
    → ((v ≡ tick1) × (columns_of board tick1 ≡ 1) × (columns_of board tick2 ≡ 0))
      ⊎ ((v ≡ tick2) × (columns_of board tick1 ≡ 0) × (columns_of board tick2 ≡ 1))
    → others_of board tick1 ≡ 0
    → others_of board tick2 ≡ 0
    → is_full board ≡ false
    → check_board board ≡ v
check_board_single board v game won o x free = ground (arith, check_board_lem board game)

-- A move that completes a column and another line of the same tick, while a field is free, makes
-- `winner` a byte that is neither tick nor 'd'.
pub check_board_double :
    (board : List ℕ)
    → IsGame board
    → ((columns_of board tick1 ≡ 1)
        × (others_of board tick1 ≡ 1)
        × (columns_of board tick2 ≡ 0)
        × (others_of board tick2 ≡ 0))
      ⊎ ((columns_of board tick1 ≡ 0)
          × (others_of board tick1 ≡ 0)
          × (columns_of board tick2 ≡ 1)
          × (others_of board tick2 ≡ 1))
    → is_full board ≡ false
    → (check_board board ≢ tick1)
      × (check_board board ≢ tick2)
      × (check_board board ≢ draw)
      × (check_board board ≢ 0)
check_board_double board game won free = (
  λ e. ground (arith, check_board_lem board game),
  λ e. ground (arith, check_board_lem board game),
  λ e. ground (arith, check_board_lem board game),
  λ e. ground (arith, check_board_lem board game),
)

-- ===== src/TicTac/Game/Fair.antt =====
-- lab10/tcp/src/server.c, `game_connection`: the board and the turns through a whole game.
use agh_sem4_sysopy.Common.{
  ℕ, ◌+◌, ◌-◌, ◌/◌, ◌≤◌, ◌<◌, ◌≡◌, refl, sym, inl, inr, true, false, List, arith, ◌==◌, length,
  length-set, set, get_or-set, get_or-replicate, count, count-set,
}
use agh_sem4_sysopy.Common.Int.{ℤ, pos, negsuc, pos_part}
use agh_sem4_sysopy.TicTac.Board.{tick1, tick2, blank, at, check_board}
use agh_sem4_sysopy.TicTac.Board.Winner.{IsGame, columns_of, check_board_lem, check_board-eq_zero}
use agh_sem4_sysopy.TicTac.Server.{Server}
use agh_sem4_sysopy.TicTac.Game.Steps.{game_loop_rule, turn-continues}
use mathlib.Core.Path.{subst₂}
use agh_sem4_sysopy.TicTac.Game.{
  Reply, Game, continues, GameResult, won, left, reading, tick_of, is_refused, turn, start_game,
  game_connection,
}

-- A board that alternate turns have filled: `round` fields, noughts first.
pub record IsFair (board : List ℕ) (round : ℕ) : Type 0 where
  pub size : length board ≡ 9
  pub fields : IsGame board
  pub noughts : count tick1 board ≡ (round + 1) / 2
  pub crosses : count tick2 board ≡ round / 2
  pub free : count blank board + round ≡ 9

-- The field that a move on the board writes.
pub record Accepted (board : List ℕ) (move : ℤ) : Type 0 where
  pub in_range : pos_part move - 1 < 9
  pub was_free : at board (pos_part move - 1) ≡ blank

accepted : (board : List ℕ) (move : ℤ) → is_refused board move ≡ false → Accepted board move
unfolding is_refused
accepted board (pos n) e = ground arith
accepted board (negsuc n) e = ground arith

set-IsFair :
    (board : List ℕ) (round i : ℕ)
    → IsFair board round
    → i < 9
    → at board i ≡ blank
    → IsFair (set board i (tick_of round)) (round + 1)
set-IsFair board round i f h e = record {
  size = omega (arith, length-set board i (tick_of round));
  fields = λ j hj. ground (arith, get_or-set board i j (tick_of round) 0, f.fields j);
  noughts = ground (arith, count-set tick1 board i (tick_of round) 0);
  crosses = ground (arith, count-set tick2 board i (tick_of round) 0);
  free = ground (arith, count-set blank board i (tick_of round) 0);
}

empty-IsFair : (s : Server) (player1 player2 : ℕ) → IsFair (start_game s player1 player2).board 0
unfolding start_game count
empty-IsFair s player1 player2 = record {
  size = refl;
  fields = λ i h. inl (get_or-replicate 9 i blank 0 h);
  noughts = refl;
  crosses = refl;
  free = refl;
}

turn-IsFair :
    (player1 player2 : ℕ) (g g' : Game) (reply : Reply)
    → IsFair g.board g.round
    → turn player1 player2 g reply ≡ continues g'
    → IsFair g'.board g'.round
turn-IsFair player1 player2 g g' reply f h = elim (turn-continues player1 player2 g g' reply h) [
  | inl (bad, b, r) ↦ subst₂ IsFair (sym b) (sym r) f
  | inr (good, b, r) ↦
      let a = accepted g.board reply.move good in
      subst₂ IsFair (sym b) (sym r)
        (set-IsFair g.board g.round (pos_part reply.move - 1) f a.in_range a.was_free)
]

-- What the result of a game says of its board: the game still runs with no column complete, or it
-- ended with one on its own board.
abbrev pub IsFairResult : GameResult → Type 0
IsFairResult (reading g) =
    IsFair g.board g.round × (columns_of g.board tick1 + columns_of g.board tick2 ≡ 0)
IsFairResult (left s) = Unit
IsFairResult (won winner board s) =
    (round : ℕ) × IsFair board round
    × (winner ≡ check_board board)
    × (1 ≤ columns_of board tick1 + columns_of board tick2)

ended :
    (board : List ℕ) (round : ℕ)
    → IsFair board round
    → (check_board board == 0) ≡ false
    → 1 ≤ columns_of board tick1 + columns_of board tick2
ended board round f e = ground (arith, check_board_lem board f.fields)

going :
    (board : List ℕ) (round : ℕ)
    → IsFair board round
    → (check_board board == 0) ≡ true
    → columns_of board tick1 + columns_of board tick2 ≡ 0
going board round f e = ground (arith, (check_board-eq_zero board f.fields).0)

-- Through every game, whatever the clients answer, the ticks alternate and each accepted move fills
-- one free field. The game still runs while no column is complete, and it is called won only if
-- the board that it is left with has a complete column, by the value of `check_board` on that board.
pub game_connection-IsFair :
    (s : Server) (player1 player2 : ℕ) (replies : List Reply)
    → IsFairResult (game_connection s player1 player2 replies)
unfolding game_connection
game_connection-IsFair s player1 player2 replies =
    game_loop_rule player1 player2 (λ g. IsFair g.board g.round) IsFairResult
      (λ g f e. (f, going g.board g.round f e))
      (λ g f e. (g.round, f, refl, ended g.board g.round f e))
      (λ g reply f e. (λ s' h. tt, λ g' h. turn-IsFair player1 player2 g g' reply f h))
      (start_game s player1 player2) replies (empty-IsFair s player1 player2)

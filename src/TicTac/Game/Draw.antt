-- ===== src/TicTac/Game/Draw.antt =====
-- lab10/tcp/src/server.c, `game_connection`: the games that `check_board` lets run on for ever.
use agh_sem4_sysopy.Common.{
  ℕ, suc, zero, ◌+◌, ◌-◌, ◌≡◌, refl, inl, inr, ◌≢◌, Bool, true, false, ◌||◌, ◌==◌, Bool-cases, List,
  [], ◌∷◌, arith,
}
use agh_sem4_sysopy.Common.Int.{ℤ, pos_part}
use agh_sem4_sysopy.TicTac.Board.{blank, tick1, tick2, at, is_full, check_board}
use agh_sem4_sysopy.TicTac.Board.Winner.{IsGame, columns_of, check_board-eq_zero}
use agh_sem4_sysopy.TicTac.Message.{Message, is_disconnect}
use agh_sem4_sysopy.TicTac.Server.{Server}
use agh_sem4_sysopy.TicTac.Game.{
  Reply, Game, returned, continues, GameResult, won, left, reading, is_refused, turn, game_loop,
  player_of, abandon, send_msg_move,
}

at-is_full : (board : List ℕ) (i : ℕ) → is_full board ≡ true → at board i ≢ blank
unfolding is_full
at-is_full [] i h e = absurd (omega arith)
at-is_full (c ∷ cs) zero h e = ground arith
at-is_full (c ∷ cs) (suc i) h e = at-is_full cs i (ground arith) e

-- On a full board every move is refused.
is_refused-is_full :
    (board : List ℕ) (move : ℤ) → is_full board ≡ true → is_refused board move ≡ true
unfolding is_refused
is_refused-is_full board move h = ground (arith, at-is_full board (pos_part move - 1) h)

unwon :
    (board : List ℕ)
    → IsGame board
    → columns_of board tick1 + columns_of board tick2 ≡ 0
    → (check_board board == 0) ≡ true
unwon board game none_won =
    let e = (check_board-eq_zero board game).1 (omega arith, omega arith) in rw e refl

-- Whether a player leaves.
unfoldable pub some_leaves : List Reply → Bool
some_leaves [] = false
some_leaves (reply ∷ replies) = is_disconnect reply.type || some_leaves replies

-- The game still asks for moves on this board, in this round, and no player has left it; or one has.
abbrev pub Unresolved : List ℕ → ℕ → Bool → GameResult → Type 0
Unresolved board round leaves (reading g) = (g.board ≡ board) × (g.round ≡ round) × (leaves ≡ false)
Unresolved board round leaves (left s) = leaves ≡ true
Unresolved board round leaves (won winner b s) = ⊥

turn-leaves :
    (player1 player2 : ℕ) (g : Game) (reply : Reply)
    → is_disconnect reply.type ≡ true
    → (s : Server) × (turn player1 player2 g reply ≡ returned s)
unfolding turn
turn-leaves player1 player2 g reply e =
    let player = player_of player1 player2 g.round in
    let sent = send_msg_move g.msg g.server player reply in
    (abandon sent.0 sent.1 player (player_of player1 player2 (g.round + 1)), rw e refl)

turn-refused :
    (player1 player2 : ℕ) (g : Game) (reply : Reply)
    → is_disconnect reply.type ≡ false
    → is_refused g.board reply.move ≡ true
    → (s : Server) × (msg : Message) × (turn player1 player2 g reply
        ≡ continues (record g { server = s; msg = msg }))
unfolding turn
turn-refused player1 player2 g reply e h =
    let sent = send_msg_move g.msg g.server (player_of player1 player2 g.round) reply in
    (sent.1, sent.0, rw (e, h) refl)

-- A draw is never declared, nor is a game that a row or a diagonal has won, once the board is full
-- with no column complete: whatever the clients answer, the loop asks the same player again on the
-- same board until one of the answers is a disconnection, and then it ends; no other answer ends it.
pub game_loop-Unresolved :
    (player1 player2 : ℕ) (g : Game) (replies : List Reply)
    → IsGame g.board
    → is_full g.board ≡ true
    → columns_of g.board tick1 + columns_of g.board tick2 ≡ 0
    → Unresolved g.board g.round (some_leaves replies) (game_loop player1 player2 g replies)
unfolding game_loop some_leaves
game_loop-Unresolved player1 player2 g [] game full none_won =
    rw (unwon g.board game none_won) (refl, refl, refl)
game_loop-Unresolved player1 player2 g (reply ∷ replies) game full none_won =
    let going = unwon g.board game none_won in
    elim (Bool-cases (is_disconnect reply.type)) [
      | inl e ↦ let t = turn-leaves player1 player2 g reply e in rw (game_loop, going, t.1, e) refl
      | inr e ↦
          let t =
            turn-refused player1 player2 g reply e (is_refused-is_full g.board reply.move full) in
          rw (game_loop, going, t.2, e)
            (game_loop-Unresolved player1 player2 (record g { server = t.0; msg = t.1 }) replies
              game full none_won)
    ]

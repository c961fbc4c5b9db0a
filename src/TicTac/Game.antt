-- ===== src/TicTac/Game.antt =====
-- lab10/tcp/src/server.c: `game_connection`, with `send_msg_move`. What `read` leaves in the message
-- is a list of replies; a list that runs out is a server that still waits in `read`.
pub mod Steps
pub mod Ending
pub mod Draw
pub mod Fair
use agh_sem4_sysopy.Common.{
  ℕ, zero, suc, ◌+◌, ◌-◌, ◌%◌, Bool, true, false, not, ◌||◌, List, [], ◌∷◌, ◌==◌, ltb,
  if◌then◌else◌, replicate, set,
}
use agh_sem4_sysopy.Common.Int.{ℤ, pos, ltb_ℤ, pos_part}
use agh_sem4_sysopy.TicTac.Message.{MessageType, MessageData, Message, msg_move, is_disconnect}
use agh_sem4_sysopy.TicTac.Board.{board_size, tick1, tick2, blank, at, check_board}
use agh_sem4_sysopy.TicTac.Server.{
  Server, write, socket_of, disconnect_client, send_msg_start, send_msg_update, send_msg_disconnect,
  send_msg_waiting, send_msg_end,
}

-- `msg.type` and `msg.data.move` after the `read` of `send_msg_move`.
pub record Reply : Type 0 where
  pub type : MessageType
  pub move : ℤ

pub record Game : Type 0 where
  pub server : Server
  pub msg : Message
  pub board : List ℕ
  pub round : ℕ

pub data Turn : Type 0 where
  returned : Server → Turn
  continues : Game → Turn

-- `won` has the board that the loop was left with.
pub data GameResult : Type 0 where
  won : (winner : ℕ) (board : List ℕ) → Server → GameResult
  left : Server → GameResult
  reading : Game → GameResult

unfoldable pub send_msg_move : Message → Server → ℕ → Reply → Message × Server
send_msg_move msg s player reply = (
  record { type = reply.type; content = MessageData.move reply.move },
  write s (socket_of s player) (record msg { type = msg_move }),
)

-- `players[round % 2]`
abbrev pub player_of : ℕ → ℕ → ℕ → ℕ
player_of player1 player2 round = if round % 2 == 0 then player1 else player2

abbrev pub tick_of : ℕ → ℕ
tick_of round = if round % 2 == 0 then tick1 else tick2

-- The test that sends the loop back to ask again.
unfoldable pub is_refused : List ℕ → ℤ → Bool
is_refused board move =
    ltb_ℤ move (pos 1) || ltb_ℤ (pos 9) move || not (at board (pos_part move - 1) == blank)

-- The end of a game that `player` has left.
unfoldable pub abandon : Message → Server → ℕ → ℕ → Server
abandon msg s player other =
    let (gone, s1) = send_msg_disconnect msg (disconnect_client s player) other in
    (send_msg_waiting gone s1 other).1

-- One turn of the loop's body.
unfoldable pub turn : ℕ → ℕ → Game → Reply → Turn
turn player1 player2 g reply =
    let player = player_of player1 player2 g.round in
    let other = player_of player1 player2 (g.round + 1) in
    let (msg, s) = send_msg_move g.msg g.server player reply in
    let board = set g.board (pos_part reply.move - 1) (tick_of g.round) in
    let (updated, s2) = send_msg_update s player1 player2 board in
    if is_disconnect reply.type
    then returned (abandon msg s player other)
    else (if is_refused g.board reply.move
        then continues (record g { server = s; msg = msg })
        else continues (record { server = s2; msg = updated; board = board; round = g.round + 1 }))

unfoldable pub game_loop : ℕ → ℕ → Game → List Reply → GameResult
game_loop player1 player2 g [] =
    if check_board g.board == 0
    then reading g
    else won (check_board g.board) g.board
        (send_msg_end g.server player1 player2 (check_board g.board))
game_loop player1 player2 g (reply ∷ replies) = elim (check_board g.board == 0) [
  | true ↦ elim (turn player1 player2 g reply) [
    | returned s ↦ left s
    | continues g' ↦ game_loop player1 player2 g' replies
  ]
  | false ↦
      won (check_board g.board) g.board
        (send_msg_end g.server player1 player2 (check_board g.board))
]

abbrev pub empty_board : List ℕ
empty_board = replicate board_size blank

unfoldable pub start_game : Server → ℕ → ℕ → Game
start_game s player1 player2 =
    let s1 = (send_msg_start s player1 player2).1 in
    let (msg, s2) = send_msg_update s1 player1 player2 empty_board in
    record { server = s2; msg = msg; board = empty_board; round = 0 }

unfoldable pub game_connection : Server → ℕ → ℕ → List Reply → GameResult
unfolding start_game
game_connection s player1 player2 replies =
    game_loop player1 player2 (start_game s player1 player2) replies

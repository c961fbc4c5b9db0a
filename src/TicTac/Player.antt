-- ===== src/TicTac/Player.antt =====
-- lab10/tcp/src/client.c: the client's loop over the messages of the server, a message at a time.
-- What it prints and writes is a log, the newest entry first.
pub mod Verdict
use agh_sem4_sysopy.Common.{ℕ, List, ◌∷◌, [], ◌==◌, if◌then◌else◌}
use agh_sem4_sysopy.Common.Int.{ℤ}
use agh_sem4_sysopy.TicTac.Message.{
  MessageType, MessageData, Message, msg_connect, msg_disconnect, msg_end, msg_move,
  msg_name_taken_error, msg_ping, msg_start, msg_update, msg_waiting,
}
use agh_sem4_sysopy.TicTac.Board.{draw}

-- `sizeof(msg)` where `msg` is a pointer, on a 64-bit machine.
abbrev pub pointer_size : ℕ
pointer_size = 8

pub data Output : Type 0 where
  opponent_left ended_draw ended_won ended_lost choose_position : Output
  name_taken waiting : Output
  started : (name : List ℕ) → (symbol : ℕ) → Output
  shown : (board : List ℕ) → Output
  wrote_message : (size : ℕ) → Message → Output
  wrote_pointer : (size : ℕ) → Output

pub record Player : Type 0 where
  pub symbol : ℕ
  pub log : List Output

pub data Step : Type 0 where
  runs : Player → Step
  exits : Player → Step
  fatal : Player → Step

abbrev pub put : Player → Output → Player
put p o = record p { log = o ∷ p.log }

unfoldable pub handle_disconnect : Player → Player
handle_disconnect p = put p opponent_left

unfoldable pub handle_end : Player → ℕ → Player
handle_end p winner =
    if winner == draw
    then put p ended_draw
    else (if winner == p.symbol then put p ended_won else put p ended_lost)

-- `position` is what `scanf` reads. Only the first `sizeof(msg)` bytes of the message go out.
unfoldable pub handle_move : Player → ℤ → Player
handle_move p position =
    put (put p choose_position)
      (wrote_message pointer_size (record { type = msg_move; content = MessageData.move position }))

unfoldable pub handle_name_taken_error : Player → Player
handle_name_taken_error p = put p name_taken

-- The address of the message is written, and not the message.
unfoldable pub handle_ping : Player → Player
handle_ping p = put p (wrote_pointer pointer_size)

unfoldable pub handle_start : Player → List ℕ → ℕ → Player
handle_start p name symbol = record (put p (started name symbol)) { symbol = symbol }

unfoldable pub handle_update : Player → List ℕ → Player
handle_update p board = put p (shown board)

unfoldable pub handle_waiting : Player → Player
handle_waiting p = put p waiting

-- How the bytes of a message's union read as one of its members.
pub record View : Type 0 where
  pub name_of : MessageData → List ℕ
  pub symbol_of : MessageData → ℕ
  pub board_of : MessageData → List ℕ
  pub winner_of : MessageData → ℕ

-- One pass of the loop in `main`.
unfoldable pub handle_message : View → Player → Message → ℤ → Step
handle_message v p msg position = elim (msg.type) [
  | msg_connect ↦ fatal p
  | msg_disconnect ↦ exits (handle_disconnect p)
  | msg_end ↦ exits (handle_end p (v.winner_of msg.content))
  | msg_move ↦ runs (handle_move p position)
  | msg_name_taken_error ↦ runs (handle_name_taken_error p)
  | msg_ping ↦ runs (handle_ping p)
  | msg_start ↦ runs (handle_start p (v.name_of msg.content) (v.symbol_of msg.content))
  | msg_update ↦ runs (handle_update p (v.board_of msg.content))
  | msg_waiting ↦ runs (handle_waiting p)
]

-- ===== src/TicTac/Message.antt =====
-- lab10/tcp/src/utils.h: `struct message_t` and `struct client_t`. The union of a message is its
-- member last written. A client's mutex has no value of its own here.
use agh_sem4_sysopy.Common.{ℕ, Bool, true, false, List}
use agh_sem4_sysopy.Common.Int.{ℤ}

abbrev pub client_name_len : ℕ
client_name_len = 16

abbrev pub max_client_count : ℕ
max_client_count = 32

pub data MessageType : Type 0 where
  msg_connect msg_disconnect msg_end msg_move msg_name_taken_error : MessageType
  msg_ping msg_start msg_update msg_waiting : MessageType

pub data MessageData : Type 0 where
  init : (name : List ℕ) → (symbol : ℕ) → MessageData
  board : List ℕ → MessageData
  winner : ℕ → MessageData
  move : ℤ → MessageData

pub record Message : Type 0 where
  pub type : MessageType
  pub content : MessageData

pub record Client : Type 0 where
  pub taken : Bool
  pub playing : Bool
  pub name : List ℕ
  pub socket_fd : ℕ

abbrev pub is_disconnect : MessageType → Bool
is_disconnect msg_disconnect = true
is_disconnect _ = false

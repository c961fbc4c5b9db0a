-- ===== src/Chat/Message.antt =====
-- lab06/src/SystemV/communication.h: the types of messages, and `struct message`. The text of a
-- message is what stands before its terminator.
use agh_sem4_sysopy.Common.{ℕ, List}
use agh_sem4_sysopy.Common.Int.{ℤ}

abbrev pub stop : ℕ
stop = 1

abbrev pub disconnect : ℕ
disconnect = 2

abbrev pub list : ℕ
list = 3

abbrev pub connect : ℕ
connect = 4

abbrev pub init : ℕ
init = 5

pub record Message : Type 0 where
  pub type : ℕ
  pub sender_pid : ℤ
  pub text : List ℕ

-- ===== src/Chat/Client.antt =====
-- lab06/src/SystemV/client.c and lab06/src/POSIX/client.c: the client of the chat. The two programs
-- differ in how a queue is named and in a few texts; a `Variant` is what differs. A client moves at
-- the events of its surroundings: what stands in its queue and at its terminal when it looks, and
-- SIGINT. What it prints is left out.
pub mod Variants
pub mod Guard
pub mod Protocol
pub mod Places
pub mod Session
pub mod Talk
pub mod Steps
pub mod OverPosix
mod Tests
pub mod Meet
use agh_sem4_sysopy.Common.{
  ℕ, Bool, true, false, Option, none, some, List, [], ◌∷◌, ◌++◌, ◌==◌, if◌then◌else◌, take,
}
use agh_sem4_sysopy.Common.Int.{ℤ, eqb_ℤ}
use agh_sem4_sysopy.Libc.Strings.{str_eq}
use agh_sem4_sysopy.Libc.Text.{codes}
use agh_sem4_sysopy.Chat.Message.{Message}

-- The numbers of the types; the queue that a text names; the text of INIT; the text of the id of a
-- CONNECT, of the line that was typed; and the text of a DISCONNECT, of what the message held.
pub record Variant (Address : Type 0) : Type 0 where
  pub stop : ℕ
  pub disconnect : ℕ
  pub list : ℕ
  pub connect : ℕ
  pub init : ℕ
  pub opened : List ℕ → Address
  pub init_text : List ℕ
  pub id_text : List ℕ → List ℕ
  pub disconnect_text : List ℕ → List ℕ

-- The server's queue, or that of the other client.
pub data Target (Address : Type 0) : Type 0 where
  server : Target Address
  partner : Address → Target Address

-- Where a client stands: the two halves of the loop of `main`, the places where it waits, the two
-- halves of the loop of `direct_connection`, which is called by `connect` or by `main`.
pub data Place (Address : Type 0) : Type 0 where
  wait_init : Place Address
  at_queue : Place Address
  at_input : Place Address
  ask_id : Place Address
  wait_connect : Place Address
  wait_list : Place Address
  talk_queue : (dqd : Address) (by_connect : Bool) → Place Address
  talk_input : (dqd : Address) (by_connect : Bool) → Place Address
  exited : Place Address

-- `message` is that of `main`, `said` that of `direct_connection`. The log holds what was sent, the
-- newest first.
pub record Client (Address : Type 0) : Type 0 where
  pub place : Place Address
  pub message : Message
  pub said : Message
  pub ignores_sigint : Bool
  pub has_queue : Bool
  pub log : List (Target Address × Message)

-- `line` is the string that `fgets` stores; it cuts one that its buffer does not hold, and the rest
-- is the next line.
pub data Input : Type 0 where
  unavailable : Input
  failed : Input
  line : List ℕ → Input

pub data Event : Type 0 where
  looks : (arrived : Option Message) (input : Input) → Event
  sigint : Event

abbrev pub newline : ℕ
newline = 10

unfoldable pub trim : List ℕ → List ℕ
trim [] = []
trim (c ∷ []) = if c == newline then [] else c ∷ []
trim (c ∷ d ∷ s) = c ∷ trim (d ∷ s)

-- A buffer of `n` bytes.
abbrev pub fgets : ℕ → List ℕ → List ℕ
fgets n text = take n text

abbrev pub command_size : ℕ
command_size = 9

abbrev pub text_size : ℕ
text_size = 2047

abbrev pub goodbye : List ℕ
goodbye = codes "DISCONNECT\n"

module _ {Address : Type 0} where
  -- `exit`, and `close_queue`.
  abbrev pub exits : Client Address → Client Address
  exits c = record c { place = exited; has_queue = false }

  abbrev pub go : Place Address → Client Address → Client Address
  go place c = record c { place = place }

  -- Where `direct_connection` returns to.
  abbrev pub back : Bool → Place Address
  back by_connect = if by_connect then at_queue else at_input

  abbrev pub direct_connection : Address → Bool → Message → Client Address → Client Address
  direct_connection dqd by_connect garbage c = record c {
    place = talk_queue dqd by_connect;
    said = garbage;
    ignores_sigint = true;
  }

abbrev pub farewell : {Address : Type 0} → Variant Address → ℤ → Message → Message
farewell v getpid message = record {
  type = v.disconnect;
  sender_pid = getpid;
  text = v.disconnect_text message.text;
}

module _ {Address : Type 0} (v : Variant Address) (getpid : ℤ) (garbage : Message)
    (delivers : Target Address → Message → Bool) where
  -- MSGSND and MQ_SEND, and what follows.
  unfoldable pub send :
      Target Address → Message → (Client Address → Client Address) → Client Address → Client Address
  send target message next c =
      if delivers target message
      then next (record c { log = (target, message) ∷ c.log })
      else exits c

  unfoldable pub disconnect :
      Message → (Client Address → Client Address) → Client Address → Client Address
  unfolding send
  disconnect message next c =
      send server (farewell v getpid message) (λ c1. next (record c1 { ignores_sigint = false })) c

  unfoldable pub stop : Client Address → Client Address
  unfolding disconnect send
  stop c =
      disconnect garbage (send server (record (farewell v getpid garbage) { type = v.stop }) exits)
        c

  unfoldable pub list : Client Address → Client Address
  unfolding send
  list c =
      let message : Message = record c.message { type = v.list; sender_pid = getpid } in
      send server message (go wait_list) (record c { message = message })

  -- The two halves of `connect`: up to its `fgets`, and with the line.
  unfoldable pub connect : Client Address → Client Address
  connect c = record c {
    message = record c.message { type = v.connect; sender_pid = getpid };
    place = ask_id;
  }

  unfoldable pub connect_to : Input → Client Address → Client Address
  unfolding send
  connect_to unavailable c = c
  connect_to failed c = exits c
  connect_to (line text) c =
      let message : Message = record c.message { text = v.id_text (fgets text_size text) } in
      send server message (go wait_connect) (record c { message = message })

  -- The answer to CONNECT.
  unfoldable pub connected : Message → Client Address → Client Address
  connected answer c =
      if eqb_ℤ answer.sender_pid getpid
      then record c { message = answer; place = at_queue }
      else direct_connection (v.opened answer.text) true garbage (record c { message = answer })

  -- The loop of `main`: a message that has come, and the terminal.
  unfoldable pub main_queue : Message → Client Address → Client Address
  unfolding stop
  main_queue message c =
      let c1 : Client Address = record c { message = message } in
      if message.type == v.connect
      then direct_connection (v.opened message.text) false garbage c1
      else (if message.type == v.stop then stop c1 else go at_input c1)

  unfoldable pub run_command : List ℕ → Client Address → Client Address
  unfolding stop list connect
  run_command command c =
      if str_eq command (codes "CONNECT")
      then connect c
      else (if str_eq command (codes "LIST")
          then list c
          else (if str_eq command (codes "DISCONNECT")
              then go at_queue c
              else (if str_eq command (codes "STOP") then stop c else go at_queue c)))

  unfoldable pub main_input : Input → Client Address → Client Address
  unfolding run_command
  main_input unavailable c = go at_queue c
  main_input failed c = go at_queue c
  main_input (line text) c = run_command (trim (fgets command_size text)) c

  -- The loop of `direct_connection`.
  unfoldable pub talk_receive : Address → Bool → Message → Client Address → Client Address
  unfolding disconnect
  talk_receive dqd by_connect message c =
      if str_eq message.text goodbye
      then disconnect message (go (back by_connect)) c
      else record c { said = message; place = talk_input dqd by_connect }

  unfoldable pub talk_send : Address → Bool → Input → Client Address → Client Address
  unfolding disconnect send
  talk_send dqd by_connect unavailable c = go (talk_queue dqd by_connect) c
  talk_send dqd by_connect failed c = go (talk_queue dqd by_connect) c
  talk_send dqd by_connect (line text) c =
      let message : Message = record c.said { text = fgets text_size text } in
      if str_eq message.text goodbye
      then send (partner dqd) message (disconnect message (go (back by_connect))) c
      else send (partner dqd) message
          (λ c1. record c1 { said = message; place = talk_queue dqd by_connect }) c

  unfoldable pub proceed : Place Address → Option Message → Input → Client Address → Client Address
  unfolding connect_to connected main_queue main_input talk_receive talk_send
  proceed wait_init none input c = c
  proceed wait_init (some m) input c = record c { message = m; place = at_queue }
  proceed at_queue none input c = go at_input c
  proceed at_queue (some m) input c = main_queue m c
  proceed at_input arrived input c = main_input input c
  proceed ask_id arrived input c = connect_to input c
  proceed wait_connect none input c = c
  proceed wait_connect (some m) input c = connected m c
  proceed wait_list none input c = c
  proceed wait_list (some m) input c = record c { message = m; place = at_queue }
  proceed (talk_queue dqd b) none input c = go (talk_input dqd b) c
  proceed (talk_queue dqd b) (some m) input c = talk_receive dqd b m c
  proceed (talk_input dqd b) arrived input c = talk_send dqd b input c
  proceed exited arrived input c = c

  -- SIGINT: `exit_handler`, or SIG_IGN.
  unfoldable pub turn : Event → Client Address → Client Address
  unfolding proceed
  turn (looks arrived input) c = proceed c.place arrived input c
  turn sigint c = if c.ignores_sigint then c else exits c

  unfoldable pub run : List Event → Client Address → Client Address
  unfolding turn
  run [] c = c
  run (e ∷ events) c = run events (turn e c)

  -- The client after `init` has sent its message.
  unfoldable pub init : Client Address
  unfolding send
  init =
      let first : Message = record { type = v.init; sender_pid = getpid; text = v.init_text } in
      send server first (go wait_init) (record {
        place = wait_init;
        message = first;
        said = garbage;
        ignores_sigint = false;
        has_queue = true;
        log = [];
      })

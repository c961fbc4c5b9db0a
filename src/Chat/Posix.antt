-- ===== src/Chat/Posix.antt =====
-- lab06/src/POSIX/server.c: the chat server over POSIX message queues. A queue is named by a path
-- made of its client's pid; which paths `mq_open` opens, and for which `mq_send` succeeds, are
-- parameters. The log holds what was sent, by path, the newest first.
pub mod Laws
use agh_sem4_sysopy.Common.{
  ℕ, Bool, true, false, not, List, [], ◌∷◌, ◌++◌, ◌==◌, if◌then◌else◌, remove_first,
}
use agh_sem4_sysopy.Common.Int.{ℤ, pos, eqb_ℤ}
use agh_sem4_sysopy.Libc.Numbers.{print_int, strtol, to_int}
use agh_sem4_sysopy.Libc.Text.{codes}
use agh_sem4_sysopy.Chat.Message.{Message}

-- The types of messages, in the order of this program's communication.h.
abbrev pub init : ℕ
init = 1

abbrev pub connect : ℕ
connect = 2

abbrev pub list : ℕ
list = 3

abbrev pub disconnect : ℕ
disconnect = 4

abbrev pub stop : ℕ
stop = 5

pub record Client : Type 0 where
  pub pid : ℤ
  pub active : Bool

pub record Server : Type 0 where
  pub clients : List Client
  pub log : List (List ℕ × Message)

pub data Outcome : Type 0 where
  ok : Server → Outcome
  exits : Server → Outcome

infixl 5 ◌>>=◌
abbrev pub ◌>>=◌ : Outcome → (Server → Outcome) → Outcome
ok s >>= f = f s
exits s >>= f = exits s

-- `sprintf(path, "/%d", pid)`
unfoldable pub path_of : ℤ → List ℕ
path_of pid = b'/' ∷ print_int pid

abbrev pub has_pid : ℤ → Client → Bool
has_pid pid c = eqb_ℤ c.pid pid

unfoldable pub set_active : Bool → ℤ → List Client → List Client
set_active b pid [] = []
set_active b pid (c ∷ clients) =
    if eqb_ℤ c.pid pid then record c { active = b } ∷ clients else c ∷ set_active b pid clients

abbrev pub deactivate : ℤ → List Client → List Client
deactivate = set_active false

abbrev pub no_client : Client
no_client = record { pid = pos 0; active = false }

unfoldable pub removeclient : ℤ → List Client → List Client
removeclient pid clients = remove_first no_client (has_pid pid) clients

unfoldable pub list_lines : List Client → ℤ → List ℕ
list_lines [] sender_pid = []
list_lines (c ∷ clients) sender_pid =
    (if not (eqb_ℤ c.pid sender_pid)
      then print_int c.pid ++ (if c.active then codes "\tyes\n" else codes "\tno\n")
      else [])
    ++ list_lines clients sender_pid

-- Three en dashes, in UTF-8.
abbrev pub dashes : List ℕ
dashes = 0xe2 ∷ 0x80 ∷ 0x93 ∷ 0xe2 ∷ 0x80 ∷ 0x93 ∷ 0xe2 ∷ 0x80 ∷ 0x93 ∷ []

abbrev pub list_header : List ℕ
list_header =
    dashes ++ (codes " LIST OF AVAILABLE CLIENTS " ++ (dashes ++ codes "\n\nID\tACTIVE\n"))

module _ (getpid : ℤ) (opens delivers : List ℕ → Bool) where
  -- `mq_open`, or ERROR_MSG.
  unfoldable pub mq_open : List ℕ → Server → Outcome
  mq_open path s = if opens path then ok s else exits s

  -- MQ_SEND
  unfoldable pub mq_send : List ℕ → Message → Server → Outcome
  mq_send path message s =
      if delivers path then ok (record s { log = (path, message) ∷ s.log }) else exits s

  unfoldable pub handle_init : Message → Server → Outcome
  unfolding mq_open mq_send
  handle_init message s =
      let path = path_of message.sender_pid in
      let client : Client = record { pid = message.sender_pid; active = true } in
      mq_open path s >>= λ s1.
      mq_send path (record message { sender_pid = getpid })
        (record s1 { clients = s1.clients ++ client ∷ [] })

  unfoldable pub handle_connect : Message → Server → Outcome
  unfolding mq_open mq_send
  handle_connect message s =
      let id = to_int (strtol message.text) in
      let key1 = path_of message.sender_pid in
      let key2 = path_of id in
      let clients = deactivate id (deactivate message.sender_pid s.clients) in
      mq_open key1 (record s { clients = clients })
      >>= mq_open key2
      >>= mq_send key2 (record message { sender_pid = getpid; text = key1 })
      >>= mq_send key1 (record message { sender_pid = getpid; text = key2 })

  unfoldable pub handle_disconnect : Message → Server → Outcome
  handle_disconnect message s =
      ok (record s { clients = set_active true message.sender_pid s.clients })

  unfoldable pub handle_stop : Message → Server → Outcome
  handle_stop message s = ok (record s { clients = removeclient message.sender_pid s.clients })

  unfoldable pub handle_list : Message → Server → Outcome
  unfolding mq_open mq_send
  handle_list message s =
      let path = path_of message.sender_pid in
      mq_open path s
      >>= mq_send path (record message {
        type = list;
        text = list_header ++ (list_lines s.clients message.sender_pid ++ codes "\n\n");
      })

  unfoldable pub serve : Message → Server → Outcome
  serve message s =
      if message.type == connect
      then handle_connect message s
      else (if message.type == init
          then handle_init message s
          else (if message.type == disconnect
              then handle_disconnect message s
              else (if message.type == stop
                  then handle_stop message s
                  else (if message.type == list then handle_list message s else exits s))))

  -- The loop of `exit_handler`, and its `exit(0)`.
  unfoldable pub stop_all : List Client → Server → Outcome
  stop_all [] s = exits s
  stop_all (c ∷ clients) s =
      let message : Message = record { type = stop; sender_pid = getpid; text = [] } in
      elim (opens (path_of c.pid)) [
        | false ↦ exits s
        | true ↦ elim (delivers (path_of c.pid)) [
          | false ↦ exits s
          | true ↦ stop_all clients (record s { log = (path_of c.pid, message) ∷ s.log })
        ]
      ]

  unfoldable pub exit_handler : Server → Outcome
  unfolding stop_all
  exit_handler s = stop_all s.clients s

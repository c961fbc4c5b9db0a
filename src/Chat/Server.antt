-- ===== src/Chat/Server.antt =====
-- lab06/src/SystemV/server.c: the server's list of clients and its handlers. `getpid` and the queues
-- for which `msgsnd` succeeds are parameters; what the server prints is left out. The log holds the
-- messages sent, the newest first.
pub mod Registry
pub mod Pairing
pub mod Distinct
use agh_sem4_sysopy.Common.{
  ℕ, zero, suc, ◌+◌, ◌-◌, Bool, true, false, not, ◌||◌, ◌&&◌, Option, none, some, List, [], ◌∷◌,
  ◌++◌, ◌==◌, length, get_or, set, take, if◌then◌else◌, remove_first,
}
use agh_sem4_sysopy.Common.Int.{ℤ, pos, negsuc, eqb_ℤ}
use agh_sem4_sysopy.Libc.Numbers.{print_int, strtol, to_int}
use agh_sem4_sysopy.Libc.Text.{codes}
use agh_sem4_sysopy.Chat.Message.{Message, stop, disconnect, list, connect, init}

pub record Client : Type 0 where
  pub pqd : ℤ
  pub id : ℤ
  pub active : Bool

pub record Server : Type 0 where
  pub clients : List Client
  pub log : List (ℤ × Message)

-- `exits` is a call of `exit`, by ERROR_MSG or at the end of `exit_handler`.
pub data Outcome : Type 0 where
  ok : Server → Outcome
  exits : Server → Outcome

infixl 5 ◌>>=◌
abbrev pub ◌>>=◌ : Outcome → (Server → Outcome) → Outcome
ok s >>= f = f s
exits s >>= f = exits s

abbrev pub minus_one : ℤ
minus_one = negsuc 0

-- -1 also for a client that is busy.
unfoldable pub find : List Client → ℤ → ℤ
find [] id = minus_one
find (c ∷ clients) id =
    if eqb_ℤ c.id id then (if c.active then c.pqd else minus_one) else find clients id

-- The loops of `deactivate` and `handle_disconnect`.
unfoldable pub set_active : Bool → ℤ → List Client → List Client
set_active b id [] = []
set_active b id (c ∷ clients) =
    if eqb_ℤ c.id id then record c { active = b } ∷ clients else c ∷ set_active b id clients

abbrev pub deactivate : ℤ → List Client → List Client
deactivate = set_active false

abbrev pub no_client : Client
no_client = record { pqd = pos 0; id = pos 0; active = false }

abbrev pub has_id : ℤ → Client → Bool
has_id id c = eqb_ℤ c.id id

-- The search, the loop that moves the later clients down, and the shorter array.
unfoldable pub removeclient : ℤ → List Client → List Client
removeclient id clients = remove_first no_client (has_id id) clients

-- One line of the answer to LIST.
unfoldable pub list_line : Client → List ℕ
list_line c =
    print_int c.id
    ++ codes "\t"
    ++ print_int c.pqd
    ++ (if c.active then codes "\tyes\n" else codes "\tno\n")

unfoldable pub list_lines : List Client → ℤ → List ℕ
list_lines [] sender_pid = []
list_lines (c ∷ clients) sender_pid =
    (if not (eqb_ℤ c.id sender_pid) then list_line c else []) ++ list_lines clients sender_pid

-- Three en dashes, in UTF-8.
abbrev pub dashes : List ℕ
dashes = 0xe2 ∷ 0x80 ∷ 0x93 ∷ 0xe2 ∷ 0x80 ∷ 0x93 ∷ 0xe2 ∷ 0x80 ∷ 0x93 ∷ []

abbrev pub list_header : List ℕ
list_header =
    dashes ++ (codes " LIST OF AVAILABLE CLIENTS " ++ (dashes ++ codes "\n\nID\tPQD\tACTIVE\n"))

module _ (getpid : ℤ) (delivers : ℤ → Bool) where
  -- MSGSND
  unfoldable pub msgsnd : ℤ → Message → Server → Outcome
  msgsnd qd message s =
      if delivers qd then ok (record s { log = (qd, message) ∷ s.log }) else exits s

  unfoldable pub handle_init : Message → Server → Outcome
  unfolding msgsnd
  handle_init message s =
      let pqd = to_int (strtol message.text) in
      let client : Client = record { pqd = pqd; id = message.sender_pid; active = true } in
      msgsnd pqd (record { type = init; sender_pid = getpid; text = print_int message.sender_pid })
        (record s { clients = s.clients ++ client ∷ [] })

  unfoldable pub handle_connect : Message → Server → Outcome
  unfolding msgsnd
  handle_connect message s =
      let id = to_int (strtol message.text) in
      let pqd = find s.clients id in
      let fqd = find s.clients message.sender_pid in
      let clients = deactivate message.sender_pid (deactivate id s.clients) in
      let to_sender = record message { sender_pid = getpid; text = print_int pqd } in
      let to_other = record message { sender_pid = getpid; text = print_int fqd } in
      if eqb_ℤ pqd minus_one || eqb_ℤ fqd minus_one
      then msgsnd fqd message s
      else (msgsnd fqd to_sender (record s { clients = clients }) >>= msgsnd pqd to_other)

  unfoldable pub handle_disconnect : Message → Server → Outcome
  handle_disconnect message s =
      ok (record s { clients = set_active true message.sender_pid s.clients })

  unfoldable pub handle_list : Message → Server → Outcome
  unfolding msgsnd
  handle_list message s =
      msgsnd (find s.clients message.sender_pid)
        (record {
          type = list;
          sender_pid = getpid;
          text = list_header ++ (list_lines s.clients message.sender_pid ++ codes "\n\n");
        })
        s

  unfoldable pub handle_stop : Message → Server → Outcome
  handle_stop message s = ok (record s { clients = removeclient message.sender_pid s.clients })

  -- The `switch` of the main loop.
  unfoldable pub serve : Message → Server → Outcome
  serve message s =
      if message.type == init
      then handle_init message s
      else (if message.type == connect
          then handle_connect message s
          else (if message.type == list
              then handle_list message s
              else (if message.type == disconnect
                  then handle_disconnect message s
                  else (if message.type == stop then handle_stop message s else exits s))))

  -- The loop of `exit_handler`, and its `exit(0)`.
  unfoldable pub stop_all : List Client → Server → Outcome
  stop_all [] s = exits s
  stop_all (c ∷ clients) s = elim (delivers c.pqd) [
    | true ↦
        stop_all clients (record s {
          log = (c.pqd, record { type = stop; sender_pid = getpid; text = [] }) ∷ s.log;
        })
    | false ↦ exits s
  ]

  unfoldable pub exit_handler : Server → Outcome
  unfolding stop_all
  exit_handler s = stop_all s.clients s

  -- The main loop over the messages received.
  unfoldable pub serve_all : List Message → Server → Outcome
  serve_all [] s = ok s
  serve_all (message ∷ messages) s = serve message s >>= serve_all messages

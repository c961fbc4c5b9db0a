-- ===== src/TicTac/Table.antt =====
-- lab10/tcp/src/server.c: `accepting_routine` and what it calls under `clients_mutex`. The file
-- descriptor that `accept` returns and the first message are its arguments.
pub mod Search
pub mod Invariant
pub mod Joining
use agh_sem4_sysopy.Common.{
  ℕ, zero, suc, ◌+◌, Bool, true, false, not, ◌&&◌, List, [], ◌∷◌, Option, none, some, set,
  first_index, if◌then◌else◌,
}
use agh_sem4_sysopy.Libc.Strings.{strn_eq, strncpy}
use agh_sem4_sysopy.TicTac.Message.{
  MessageType, MessageData, Message, Client, msg_connect, msg_name_taken_error, msg_waiting,
  client_name_len,
}
use agh_sem4_sysopy.TicTac.Server.{Server, client, set_client, write}

-- What a connection leads to. `fatal` is ERROR_MSG, which ends the server.
pub data Accept : Type 0 where
  fatal : Server → Accept
  duplicate : Server → Accept
  waits : (id : ℕ) → Server → Accept
  plays : (opponent : ℕ) → (id : ℕ) → Server → Accept

-- `check_username`: no client of the table has the name.
unfoldable pub check_username : List Client → List ℕ → Bool
check_username [] name = true
check_username (c ∷ clients) name =
    not (c.taken && strn_eq client_name_len name c.name) && check_username clients name

-- A client that waits for an opponent.
abbrev pub is_pending : Client → Bool
is_pending c = c.taken && not c.playing

abbrev pub is_free : Client → Bool
is_free c = not c.taken

-- `create_client`: the slot's number and the new table.
unfoldable pub create_client : Server → ℕ → List ℕ → Option (ℕ × Server)
create_client s client_fd name = elim (first_index is_free 0 s.clients) [
  | none ↦ none
  | some id ↦ some (
    id,
    set_client s id (record {
      taken = true;
      playing = true;
      name = strncpy client_name_len name;
      socket_fd = client_fd;
    }),
  )
]

-- `connect_pending`: the opponent found, or none and the client now waits.
unfoldable pub connect_pending : Server → ℕ → Option ℕ × Server
connect_pending s id = elim (first_index is_pending 0 s.clients) [
  | some i ↦ (some i, set_client s i (record (client s i) { playing = true }))
  | none ↦ (none, set_client s id (record (client s id) { playing = false }))
]

abbrev pub is_connect : MessageType → Bool
is_connect msg_connect = true
is_connect _ = false

abbrev pub name_taken : Message
name_taken = record { type = msg_name_taken_error; content = MessageData.init [] 0 }

-- After a slot has been found.
unfoldable pub join_table : Message → ℕ → ℕ × Server → Accept
join_table msg client_fd (id, s) =
    let (pending, s1) = connect_pending s id in
    elim pending [
      | some i ↦ plays i id s1
      | none ↦ waits id (write s1 client_fd (record msg { type = msg_waiting }))
    ]

unfoldable pub accepting_routine : Server → ℕ → MessageType → List ℕ → ℕ → Accept
accepting_routine s client_fd type name symbol =
    let msg : Message = record { type = type; content = MessageData.init name symbol } in
    if not (is_connect type)
    then fatal s
    else (if not (check_username s.clients name)
        then duplicate (write s client_fd name_taken)
        else (elim (create_client s client_fd name) [
          | none ↦ fatal s
          | some (id, s1) ↦ join_table msg client_fd (id, s1)
        ]))

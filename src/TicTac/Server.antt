-- ===== src/TicTac/Server.antt =====
-- lab10/tcp/src/server.c: the server's table of clients, and the functions that send messages.
-- What the server does to its sockets is a log, the newest event first.
use agh_sem4_sysopy.Common.{ℕ, false, List, ◌∷◌, get_or, set, replicate}
use agh_sem4_sysopy.Libc.Strings.{strncpy}
use agh_sem4_sysopy.TicTac.Message.{
  MessageData, Message, Client, msg_start, msg_update, msg_disconnect, msg_waiting, msg_end,
  client_name_len, max_client_count,
}
use agh_sem4_sysopy.TicTac.Board.{board_size, tick1, tick2}

pub data Event : Type 0 where
  wrote : (fd : ℕ) → Message → Event
  closed : (fd : ℕ) → Event

pub record Server : Type 0 where
  pub clients : List Client
  pub log : List Event

abbrev pub no_client : Client
no_client = record {
  taken = false;
  playing = false;
  name = replicate client_name_len 0;
  socket_fd = 0;
}

abbrev pub init_clients : List Client
init_clients = replicate max_client_count no_client

-- `clients[id]`
abbrev pub client : Server → ℕ → Client
client s id = get_or s.clients id no_client

abbrev pub socket_of : Server → ℕ → ℕ
socket_of s id = (client s id).socket_fd

abbrev pub set_client : Server → ℕ → Client → Server
set_client s id c = record s { clients = set s.clients id c }

abbrev pub write : Server → ℕ → Message → Server
write s fd msg = record s { log = wrote fd msg ∷ s.log }

unfoldable pub disconnect_client : Server → ℕ → Server
disconnect_client s id = record {
  clients = set s.clients id (record c { taken = false });
  log = closed c.socket_fd ∷ s.log;
}
  where
    c : Client
    c = client s id

-- `init` of a MSG_START: the other player's name, and the player's own symbol.
abbrev pub start_message : Client → ℕ → Message
start_message opponent symbol = record {
  type = msg_start;
  content = MessageData.init (strncpy client_name_len opponent.name) symbol;
}

unfoldable pub send_msg_start : Server → ℕ → ℕ → Message × Server
send_msg_start s player1 player2 =
    let first = start_message (client s player2) tick1 in
    let second = start_message (client s player1) tick2 in
    (second, write (write s (socket_of s player1) first) (socket_of s player2) second)

unfoldable pub send_msg_update : Server → ℕ → ℕ → List ℕ → Message × Server
send_msg_update s player1 player2 board =
    let msg : Message = record {
      type = msg_update;
      content = MessageData.board (strncpy board_size board);
    } in
    (msg, write (write s (socket_of s player1) msg) (socket_of s player2) msg)

unfoldable pub send_msg_disconnect : Message → Server → ℕ → Message × Server
send_msg_disconnect msg s player =
    let sent = record msg { type = msg_disconnect } in
    (sent, disconnect_client (write s (socket_of s player) sent) player)

unfoldable pub send_msg_waiting : Message → Server → ℕ → Message × Server
send_msg_waiting msg s player =
    let sent = record msg { type = msg_waiting } in (sent, write s (socket_of s player) sent)

unfoldable pub send_msg_end : Server → ℕ → ℕ → ℕ → Server
send_msg_end s player1 player2 winner =
    let msg : Message = record { type = msg_end; content = MessageData.winner winner } in
    disconnect_client
      (disconnect_client (write (write s (socket_of s player1) msg) (socket_of s player2) msg)
        player1)
      player2

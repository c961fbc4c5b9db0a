-- ===== src/TicTac/Tests.antt =====
-- lab10/tcp/src: the server's functions and theorems at concrete games.
use agh_sem4_sysopy.Common.{
  ℕ, zero, suc, ◌<◌, ◌≡◌, refl, inl, Bool, true, false, ◌&&◌, ◌||◌, List, [], ◌∷◌, arith, ◌==◌,
  length, if◌then◌else◌, first_index,
}
use agh_sem4_sysopy.Common.Int.{pos, negsuc, eqb_ℤ}
use agh_sem4_sysopy.Libc.Strings.{strn_eq, strncpy}
use agh_sem4_sysopy.TicTac.Message.{
  MessageData, Message, msg_connect, msg_disconnect, msg_move, msg_ping,
}
use agh_sem4_sysopy.TicTac.Board.{tick1, tick2, blank, at, check_line, is_full, check_board}
use agh_sem4_sysopy.TicTac.Board.Winner.{IsField, columns_of, others_of, check_board_lem}
use agh_sem4_sysopy.TicTac.Server.{Server, init_clients, send_msg_start, send_msg_update}
use agh_sem4_sysopy.TicTac.Game.{
  Reply, Game, GameResult, won, left, reading, turn, game_loop, game_connection, start_game,
  send_msg_move, is_refused, abandon,
}
use agh_sem4_sysopy.TicTac.Game.Fair.{IsFairResult, game_connection-IsFair}
use agh_sem4_sysopy.TicTac.Game.Ending.{Released, game_connection-Released}
use agh_sem4_sysopy.TicTac.Game.Draw.{some_leaves, Unresolved, game_loop-Unresolved}
use agh_sem4_sysopy.TicTac.Table.{
  accepting_routine, Accept, fatal, duplicate, waits, plays, check_username, create_client,
  connect_pending, join_table,
}
use agh_sem4_sysopy.TicTac.Table.Search.{slot}
use agh_sem4_sysopy.TicTac.Pinger.{Answer, pinger_round}
use agh_sem4_sysopy.TicTac.Pinger.Laws.{pinger_round-slot}
use agh_sem4_sysopy.TicTac.Player.{Player, View, exits, put, ended_lost}
use agh_sem4_sysopy.TicTac.Player.Verdict.{told, told-double}
use agh_sem4_sysopy.TicTac.Table.Invariant.{IsTable, init_clients-IsTable}
use agh_sem4_sysopy.TicTac.Table.Joining.{Accepted, accepting_routine-Accepted}

abbrev nought : ℕ
nought = tick1

abbrev cross : ℕ
cross = tick2

-- The first row is complete.
abbrev row_won : List ℕ
row_won = nought ∷ nought ∷ nought ∷ cross ∷ cross ∷ blank ∷ blank ∷ blank ∷ blank ∷ []

abbrev column_won : List ℕ
column_won = nought ∷ cross ∷ blank ∷ nought ∷ cross ∷ blank ∷ nought ∷ blank ∷ blank ∷ []

-- The last move, in the corner, completed a column and a row.
abbrev twice_won : List ℕ
twice_won = nought ∷ nought ∷ nought ∷ nought ∷ cross ∷ cross ∷ nought ∷ cross ∷ blank ∷ []

abbrev full_unwon : List ℕ
full_unwon = nought ∷ nought ∷ cross ∷ cross ∷ cross ∷ nought ∷ nought ∷ cross ∷ nought ∷ []

abbrev full_won : List ℕ
full_won = nought ∷ cross ∷ cross ∷ nought ∷ cross ∷ nought ∷ nought ∷ nought ∷ cross ∷ []

is_field : ℕ → Bool
is_field c = c == blank || (c == tick1) || (c == tick2)

all_fields : List ℕ → Bool
all_fields [] = true
all_fields (c ∷ cs) = is_field c && all_fields cs

game_of :
    (board : List ℕ) → all_fields board ≡ true → (i : ℕ) → i < length board → IsField (at board i)
unfolding all_fields is_field
game_of [] h i lt = absurd (omega arith)
game_of (c ∷ cs) h zero lt = ground arith
game_of (c ∷ cs) h (suc i) lt = game_of cs (ground arith) i (omega arith)

row_unreported : check_board row_won ≡ 0
unfolding check_board check_line
row_unreported = refl

column_reported : check_board column_won ≡ tick1
unfolding check_board check_line is_full
column_reported = refl

check_board_lem_example : check_board twice_won ≡ 158
unfolding all_fields is_field columns_of others_of is_full
check_board_lem_example = check_board_lem twice_won (game_of twice_won refl)

abbrev empty_server : Server
empty_server = record { clients = init_clients; log = [] }

abbrev ann : List ℕ
ann = b'a' ∷ b'n' ∷ b'n' ∷ []

abbrev bob : List ℕ
bob = b'b' ∷ b'o' ∷ b'b' ∷ []

-- The server of an outcome.
abbrev server_of : Accept → Server
server_of (fatal s) = s
server_of (duplicate s) = s
server_of (waits id s) = s
server_of (plays i id s) = s

-- ann waits in slot 0; bob then plays her from slot 1.
abbrev one_waits : Server
one_waits = server_of (accepting_routine empty_server 5 msg_connect ann 0)

abbrev two_play : Accept
two_play = accepting_routine one_waits 6 msg_connect bob 0

abbrev paired : Server
paired = server_of two_play

two_play_runs : two_play ≡ plays 0 1 paired
unfolding accepting_routine check_username create_client connect_pending join_table strn_eq strncpy
    first_index
two_play_runs = refl

same_name_runs :
    (server_of (accepting_routine one_waits 6 msg_connect ann 0)).clients ≡ one_waits.clients
unfolding accepting_routine check_username create_client connect_pending join_table strn_eq strncpy
    first_index
same_name_runs = refl

abbrev move_to : ℕ → Reply
move_to n = record { type = msg_move; move = pos n }

abbrev leave : Reply
leave = record { type = msg_disconnect; move = pos 0 }

-- ann takes 1, bob 2, ann 4, bob asks for the taken 1 and for 11, then takes 5; ann wins with 7.
abbrev replies : List Reply
replies = move_to 1 ∷ move_to 2 ∷ move_to 4 ∷ move_to 1 ∷ move_to 11 ∷ move_to 5 ∷ move_to 7 ∷ []

abbrev winner_of : GameResult → ℕ
winner_of (won winner board s) = winner
winner_of (left s) = 0
winner_of (reading g) = 0

game_runs : winner_of (game_connection empty_server 0 1 replies) ≡ tick1
unfolding game_connection start_game game_loop turn send_msg_move send_msg_start send_msg_update
    is_refused check_board check_line is_full abandon strncpy
game_runs = refl

game_connection-IsFair_example : IsFairResult (game_connection empty_server 0 1 replies)
game_connection-IsFair_example = game_connection-IsFair empty_server 0 1 replies

game_connection-Released_example :
    Released empty_server 0 1 (game_connection empty_server 0 1 (move_to 1 ∷ leave ∷ []))
game_connection-Released_example =
    game_connection-Released empty_server 0 1 (move_to 1 ∷ leave ∷ [])

abbrev stuck : Game
stuck = record {
  server = empty_server;
  msg = record { type = msg_move; content = MessageData.winner 0 };
  board = full_unwon;
  round = 9;
}

game_loop-Unresolved_example :
    Unresolved full_unwon 9
      (some_leaves (move_to 3 ∷ move_to 5 ∷ leave ∷ []))
      (game_loop 0 1 stuck (move_to 3 ∷ move_to 5 ∷ leave ∷ []))
unfolding all_fields is_field columns_of is_full
game_loop-Unresolved_example =
    game_loop-Unresolved 0 1 stuck (move_to 3 ∷ move_to 5 ∷ leave ∷ []) (game_of full_unwon refl)
      refl refl

one_waits-IsTable : IsTable one_waits.clients
unfolding accepting_routine check_username create_client connect_pending join_table strn_eq strncpy
    first_index
one_waits-IsTable =
    (accepting_routine-Accepted empty_server 5 msg_connect ann 0 init_clients-IsTable).0

accepting_routine-Accepted_example : Accepted one_waits 6 bob two_play
accepting_routine-Accepted_example =
    accepting_routine-Accepted one_waits 6 msg_connect bob 0 one_waits-IsTable

-- The client in slot 0 fails, that in slot 1 times out, and all others answer.
abbrev answers : ℕ → Answer
answers i = record {
  available = if i == 0 then negsuc 0 else (if i == 1 then pos 0 else pos 1);
  message = record { type = msg_ping; content = MessageData.winner 0 };
}

abbrev ping : Message
ping = record { type = msg_ping; content = MessageData.winner 0 }

pinger_round-slot_example :
    IsTable (pinger_round answers ping one_waits).1.clients
    × ((j : ℕ)
        → slot (pinger_round answers ping one_waits).1.clients j ≡ (
            if eqb_ℤ (answers j).available (negsuc 0)
            then record (slot one_waits.clients j) { taken = false }
            else slot one_waits.clients j))
pinger_round-slot_example = pinger_round-slot answers ping one_waits one_waits-IsTable

-- A union's bytes as the members that are asked for, where they were written.
abbrev view : View
view = record {
  name_of = λ c. [];
  symbol_of = λ c. 0;
  board_of = λ c. [];
  winner_of = λ c. elim c [ MessageData.winner w ↦ w | _ ↦ 0 ];
}

abbrev first_player : Player
first_player = record { symbol = tick1; log = [] }

abbrev second_player : Player
second_player = record { symbol = tick2; log = [] }

told-double_example :
    told view first_player (check_board twice_won) (pos 0) ≡ exits (put first_player ended_lost)
unfolding all_fields is_field columns_of others_of is_full
told-double_example =
    told-double view (λ c. refl) twice_won first_player (pos 0) (game_of twice_won refl)
      (inl (refl, refl, refl, refl)) refl (inl refl)

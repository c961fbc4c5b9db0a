-- ===== src/Chat/Tests.antt =====
-- lab06/src/SystemV: the server's handlers and theorems at concrete lists of clients.
use mathlib.Core.Bool.{Bool, true, false, not}
use agh_sem4_sysopy.Common.{
  ◌≢◌, ℕ, ◌≡◌, refl, inr, List, [], ◌∷◌, arith, without, shift_down, remove_first, first_index,
}
use agh_sem4_sysopy.Common.Int.{ℤ, pos, eqb_ℤ}
use agh_sem4_sysopy.Libc.Text.{codes}
use agh_sem4_sysopy.Libc.Numbers.{strtol, to_int, print_int}
use agh_sem4_sysopy.Chat.Message.{Message, stop, list, connect, init}
use agh_sem4_sysopy.Chat.Server.{
  handle_connect, msgsnd, ok, serve_all, Client, has_id, Server, exits, find, removeclient,
  minus_one, serve, handle_init, list_lines, list_line,
}
use agh_sem4_sysopy.Chat.Posix
use agh_sem4_sysopy.Chat.Server.Pairing.{serve-busy}
use agh_sem4_sysopy.Chat.Server.Distinct.{IsDistinct, server_of, serve-IsDistinct}

-- Every queue but -1 takes messages.
abbrev delivers : ℤ → Bool
delivers qd = not (eqb_ℤ qd minus_one)

abbrev server_pid : ℤ
server_pid = pos 100

abbrev three : List Client
three =
    record { pqd = pos 7; id = pos 201; active = true }
    ∷ record { pqd = pos 8; id = pos 202; active = true }
    ∷ record { pqd = pos 9; id = pos 203; active = false }
    ∷ []

abbrev running : Server
running = record { clients = three; log = [] }

abbrev ask : Message
ask = record { type = connect; sender_pid = pos 201; text = codes "202" }

abbrev after_ask : Server
after_ask = server_of (serve server_pid delivers ask running)

removeclient_runs : removeclient (pos 202) three ≡ without (has_id (pos 202)) three
unfolding removeclient remove_first first_index shift_down without
removeclient_runs = refl

list_runs : list_lines three (pos 201) ≡ codes "202\t8\tyes\n203\t9\tno\n"
unfolding list_lines list_line print_int
list_runs = refl

init_runs :
    (server_of (
      serve server_pid delivers
        (record { type = init; sender_pid = pos 204; text = codes "10" })
        running)).log
    ≡ (pos 10, record { type = init; sender_pid = pos 100; text = codes "204" }) ∷ []
unfolding serve handle_init strtol to_int print_int
init_runs = refl

free_201 : find three (pos 201) ≢ minus_one
unfolding find
free_201 e = cc

free_202 : find three (pos 202) ≢ minus_one
unfolding find
free_202 e = cc

ask_serves : serve server_pid delivers ask running ≡ ok after_ask
unfolding serve handle_connect msgsnd find strtol to_int
ask_serves = refl

serve-busy_example :
    serve_all server_pid delivers
      (ask ∷ record { type = list; sender_pid = pos 202; text = [] } ∷ ask ∷ [])
      running
    ≡ exits after_ask
unfolding strtol to_int
serve-busy_example =
    serve-busy server_pid delivers ask running after_ask (pos 202) refl refl free_202 free_201
      ask_serves (record { type = list; sender_pid = pos 202; text = [] }) (inr refl) (inr refl)
      refl (ask ∷ [])

serve-IsDistinct_example :
    IsDistinct (server_of (serve server_pid delivers ask running)).clients
    × (connect ≡ stop
        → find (server_of (serve server_pid delivers ask running)).clients (pos 201) ≡ minus_one)
serve-IsDistinct_example =
    serve-IsDistinct server_pid delivers ask running (grind arith) (λ e. absurd (omega arith))

abbrev posix_server : Posix.Server
posix_server = record {
  clients = record { pid = pos 201; active = true } ∷ record { pid = pos 202; active = false } ∷ [];
  log = [];
}

abbrev any_path : List ℕ → Bool
any_path path = true

-- ===== src/Chat/Client/Tests.antt =====
-- lab06/src: clients at concrete events.
use mathlib.Core.Bool.{Bool, true, false}
use agh_sem4_sysopy.Common.{ltb, ℕ, ◌≡◌, refl, ◌≢◌, none, List, [], ◌∷◌, ◌++◌, arith}
use agh_sem4_sysopy.Common.Int.{ℤ, pos}
use agh_sem4_sysopy.Libc.Text.{codes}
use agh_sem4_sysopy.Libc.Strings.{str_eq}
use agh_sem4_sysopy.Libc.Numbers.{strtol, to_int, print_int}
use agh_sem4_sysopy.Chat.Message.{Message}
use agh_sem4_sysopy.Chat.Message
use agh_sem4_sysopy.Chat.Posix
use agh_sem4_sysopy.Chat.Server.{Server, ok, find, set_active, serve, serve_all, handle_connect}
use agh_sem4_sysopy.Chat.Client.{
  Target, server, partner, Place, at_queue, at_input, talk_queue, talk_input, Client, Event,
  unavailable, line, looks, sigint, goodbye, trim, fgets, command_size, back, farewell, turn, run,
  init,
}
use agh_sem4_sysopy.Chat.Client.Variants.{system_v, posix}
use agh_sem4_sysopy.Chat.Client.Guard.{IsGuarded}
use agh_sem4_sysopy.Chat.Client.Protocol.{Session, started, phase_of, to_server}
use agh_sem4_sysopy.Chat.Client.Session.{client-Session}
use agh_sem4_sysopy.Chat.Client.Talk.{types, spoken, types-spoken, command-ne-disconnect}
use agh_sem4_sysopy.Chat.Client.Steps.{dials, hears, request}
use agh_sem4_sysopy.Chat.Client.Meet.{asked, dials-meets, goodbye-parts}
use agh_sem4_sysopy.Chat.Client.OverPosix.{posix_run, posix_turn, posix-dials-meets}

abbrev no_message : Message
no_message = record { type = 0; sender_pid = pos 0; text = [] }

abbrev all_deliver : Target ℤ → Message → Bool
all_deliver t m = true

-- A client at a place, with nothing sent.
abbrev client_at : Place ℤ → Bool → Client ℤ
client_at place talks = record {
  place = place;
  message = no_message;
  said = no_message;
  ignores_sigint = talks;
  has_queue = true;
  log = [];
}

abbrev takes_all : ℤ → Bool
takes_all q = true

abbrev chat_server : Server
chat_server = record {
  clients =
      record { pqd = pos 7; id = pos 201; active = true }
      ∷ record { pqd = pos 8; id = pos 202; active = true }
      ∷ [];
  log = [];
}

-- A whole life: the answer to INIT, a LIST and its answer, a call, a line, the bye, and STOP.
abbrev life : List Event
life =
    hears no_message
    ∷ looks none unavailable
    ∷ looks none (line (codes "LIST\n"))
    ∷ hears no_message
    ∷ hears (record { type = Message.connect; sender_pid = pos 100; text = codes "8" })
    ∷ sigint
    ∷ looks none unavailable
    ∷ looks none (line (codes "hello\n"))
    ∷ hears (record { type = 9; sender_pid = pos 202; text = goodbye })
    ∷ looks none (line (codes "STOP\n"))
    ∷ []

abbrev lived : Client ℤ
lived =
    run (system_v (pos 7)) (pos 201) no_message all_deliver life
      (init (system_v (pos 7)) (pos 201) no_message all_deliver)

life_runs : to_server lived.log ≡ 5 ∷ 3 ∷ 2 ∷ 2 ∷ 1 ∷ []
unfolding run turn init to_server str_eq trim
life_runs = refl

client-Session_example :
    IsGuarded (system_v (pos 7)) lived
    × Session (system_v (pos 7)) started (to_server lived.log) (phase_of lived.place)
client-Session_example = client-Session (system_v (pos 7)) (pos 201) no_message all_deliver life

command-ne-disconnect_example :
    str_eq (trim (fgets command_size (codes "DISCONNECT\n"))) (codes "DISCONNECT") ≡ false
command-ne-disconnect_example = command-ne-disconnect (codes "DISCONNECT\n")

types-spoken_example :
    let ls = codes "hello\n" ∷ codes "again\n" ∷ [] in
    let c = client_at (talk_input (pos 8) true) true in
    let c' = run (system_v (pos 7)) (pos 201) no_message all_deliver (types ls) c in
    let bye : Message = record no_message { text = goodbye } in
    (c'.place ≡ back true)
    × (c'.ignores_sigint ≡ false)
    × (c'.log
        ≡ (server, farewell (system_v (pos 7)) (pos 201) bye)
          ∷ (partner (pos 8), bye)
          ∷ spoken (pos 8) no_message ls [])
unfolding str_eq
types-spoken_example =
    types-spoken (system_v (pos 7)) (pos 201) no_message all_deliver
      (codes "hello\n" ∷ codes "again\n" ∷ []) (pos 8) true
      (client_at (talk_input (pos 8) true) true) (λ t m. refl) refl
      (omega arith, refl, (omega arith, refl, tt))

nat_ne : (n k : ℕ) → n ≢ k → ◌≢◌ {A = ℤ} (pos n) (pos k)
nat_ne n k h e = grind arith

dials-meets_example :
    (s' : Server) × (to_a : Message) × (to_b : Message) × ((run
        (system_v (pos 7))
        (pos 201)
        no_message
        all_deliver
        (dials (pos 202))
        (client_at at_input false)).log
      ≡ (server, asked (pos 201) (pos 202)) ∷ [])
    × (serve (pos 100) takes_all (asked (pos 201) (pos 202)) chat_server ≡ ok s')
    × (s'.log ≡ (pos 8, to_b) ∷ (pos 7, to_a) ∷ [])
    × ((run
          (system_v (pos 7))
          (pos 201)
          no_message
          all_deliver
          (dials (pos 202) ++ hears to_a ∷ [])
          (client_at at_input false)).place
        ≡ talk_queue (pos 8) true)
    × ((turn
          (system_v (pos 8))
          (pos 202)
          no_message
          all_deliver
          (hears to_b)
          (client_at at_queue false)).place
        ≡ talk_queue (pos 7) false)
unfolding find print_int
dials-meets_example =
    dials-meets (pos 100) (pos 201) (pos 202) (pos 7) (pos 8) no_message takes_all all_deliver
      chat_server (client_at at_input false) (client_at at_queue false) refl refl refl refl
      (λ e. cc) (λ e. cc) (nat_ne 100 201 (omega arith)) (omega arith) (omega arith) (omega arith)
      (omega arith) refl refl refl

abbrev after_asked : Server
after_asked = record {
  clients =
      record { pqd = pos 7; id = pos 201; active = false }
      ∷ record { pqd = pos 8; id = pos 202; active = false }
      ∷ [];
  log =
      (pos 8, record { type = Message.connect; sender_pid = pos 100; text = codes "7" })
      ∷ (pos 7, record { type = Message.connect; sender_pid = pos 100; text = codes "8" })
      ∷ [];
}

asked_serves : serve (pos 100) takes_all (asked (pos 201) (pos 202)) chat_server ≡ ok after_asked
unfolding serve handle_connect find strtol to_int print_int set_active
asked_serves = refl

-- msgsnd refuses a type below 1.
abbrev by_type : Target ℤ → Message → Bool
by_type t m = ltb 0 m.type

-- What the partner said before.
abbrev heard : Message
heard = record { type = 9; sender_pid = pos 202; text = codes "hello\n" }

goodbye-parts_example :
    let a = (record (client_at (talk_input (pos 8) true) true) { said = heard }) in
    let b = client_at (talk_queue (pos 7) false) true in
    let a' = turn (system_v (pos 7)) (pos 201) no_message by_type (looks none (line goodbye)) a in
    let last : Message = record heard { text = goodbye } in
    let b' = turn (system_v (pos 8)) (pos 202) no_message by_type (hears last) b in
    (bye_a : Message) × (bye_b : Message) × (a'.log
      ≡ (server, bye_a) ∷ (partner (pos 8), last) ∷ [])
    × (b'.log ≡ (server, bye_b) ∷ [])
    × (a'.place ≡ at_queue)
    × (b'.place ≡ at_input)
    × (serve_all (pos 100) takes_all (bye_a ∷ bye_b ∷ []) after_asked
        ≡ ok (record after_asked { clients = chat_server.clients }))
unfolding find
goodbye-parts_example =
    goodbye-parts (pos 100) (pos 201) (pos 202) (pos 7) (pos 8) no_message takes_all by_type
      chat_server after_asked (record (client_at (talk_input (pos 8) true) true) { said = heard })
      (client_at (talk_queue (pos 7) false) true) true false asked_serves refl refl
      (nat_ne 201 202 (omega arith)) (λ e. cc) (λ e. cc) (omega arith) refl refl refl

-- A path's descriptor, for the test: the pid in it.
abbrev descriptor : List ℕ → ℤ
descriptor path = to_int (strtol path)

abbrev any_path : List ℕ → Bool
any_path path = true

abbrev posix_request : Message
posix_request = request (posix (pos 3) descriptor) (pos 201) (pos 202)

posix-dials-meets_example :
    (s' : Posix.Server) × (to_a : Message) × (to_b : Message) × ((posix_run
        (pos 3)
        descriptor
        (pos 201)
        no_message
        all_deliver
        (dials (pos 202))
        (client_at at_input false)).log
      ≡ (server, posix_request) ∷ [])
    × (Posix.serve (pos 100) any_path any_path posix_request (record { clients = []; log = [] })
        ≡ Posix.ok s')
    × (s'.log ≡ (Posix.path_of (pos 201), to_a) ∷ (Posix.path_of (pos 202), to_b) ∷ [])
    × ((posix_run
          (pos 3)
          descriptor
          (pos 201)
          no_message
          all_deliver
          (dials (pos 202) ++ hears to_a ∷ [])
          (client_at at_input false)).place
        ≡ talk_queue (descriptor (Posix.path_of (pos 202))) true)
    × ((posix_turn
          (pos 3)
          descriptor
          (pos 202)
          no_message
          all_deliver
          (hears to_b)
          (client_at at_queue false)).place
        ≡ talk_queue (descriptor (Posix.path_of (pos 201))) false)
unfolding print_int
posix-dials-meets_example =
    posix-dials-meets (pos 100) (pos 201) (pos 202) (pos 3) (pos 3) descriptor no_message any_path
      any_path all_deliver (record { clients = []; log = [] }) (client_at at_input false)
      (client_at at_queue false) refl refl (nat_ne 100 201 (omega arith)) (omega arith)
      (omega arith) refl refl refl refl refl

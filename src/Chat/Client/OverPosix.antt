-- ===== src/Chat/Client/OverPosix.antt =====
-- lab06/src/POSIX/client.c: the operations of the client over POSIX queues, and the client with the
-- server of lab06/src/POSIX/server.c. What `mq_open` gives for a path is a parameter.
use agh_sem4_sysopy.Common.{
  ℕ, ◌+◌, ◌≤◌, ◌≡◌, ◌≢◌, refl, ap, Bool, true, false, List, [], ◌∷◌, ◌++◌, length,
}
use agh_sem4_sysopy.Common.Int.{ℤ}
use agh_sem4_sysopy.Libc.Numbers.{print_int, strtol, to_int, IsInt, strtol-print_int}
use agh_sem4_sysopy.Chat.Message.{Message}
use agh_sem4_sysopy.Chat.Posix
use agh_sem4_sysopy.Chat.Client.{
  Target, server, at_queue, at_input, wait_connect, talk_queue, Client, Input, Event, newline,
  text_size, init, connect, connect_to, connected, list, disconnect, stop, main_queue, main_input,
  talk_receive, talk_send, turn, run,
}
use agh_sem4_sysopy.Chat.Client.Variants.{posix}
use agh_sem4_sysopy.Chat.Client.Steps.{dials, hears, request, dials-request, answers, called}
use agh_sem4_sysopy.Chat.Client.Talk.{run-append}

module _ (privateid : ℤ) (opened : List ℕ → ℤ) (getpid : ℤ) (garbage : Message)
    (delivers : Target ℤ → Message → Bool) where
  -- `init`.
  abbrev pub posix_init : Client ℤ
  posix_init = init (posix privateid opened) getpid garbage delivers

  -- `connect`, up to its `fgets`, with the line, and with the answer.
  abbrev pub posix_connect : Client ℤ → Client ℤ
  posix_connect = connect (posix privateid opened) getpid garbage delivers

  abbrev pub posix_connect_to : Input → Client ℤ → Client ℤ
  posix_connect_to = connect_to (posix privateid opened) getpid garbage delivers

  abbrev pub posix_connected : Message → Client ℤ → Client ℤ
  posix_connected = connected (posix privateid opened) getpid garbage delivers

  abbrev pub posix_list : Client ℤ → Client ℤ
  posix_list = list (posix privateid opened) getpid garbage delivers

  abbrev pub posix_disconnect : Message → (Client ℤ → Client ℤ) → Client ℤ → Client ℤ
  posix_disconnect = disconnect (posix privateid opened) getpid garbage delivers

  abbrev pub posix_stop : Client ℤ → Client ℤ
  posix_stop = stop (posix privateid opened) getpid garbage delivers

  -- The two halves of the loop of `main`.
  abbrev pub posix_main_queue : Message → Client ℤ → Client ℤ
  posix_main_queue = main_queue (posix privateid opened) getpid garbage delivers

  abbrev pub posix_main_input : Input → Client ℤ → Client ℤ
  posix_main_input = main_input (posix privateid opened) getpid garbage delivers

  -- The two halves of the loop of `direct_connection`.
  abbrev pub posix_talk_receive : ℤ → Bool → Message → Client ℤ → Client ℤ
  posix_talk_receive = talk_receive (posix privateid opened) getpid garbage delivers

  abbrev pub posix_talk_send : ℤ → Bool → Input → Client ℤ → Client ℤ
  posix_talk_send = talk_send (posix privateid opened) getpid garbage delivers

  -- An event, SIGINT among them.
  abbrev pub posix_turn : Event → Client ℤ → Client ℤ
  posix_turn = turn (posix privateid opened) getpid garbage delivers

  abbrev pub posix_run : List Event → Client ℤ → Client ℤ
  posix_run = run (posix privateid opened) getpid garbage delivers

-- What the server answers to a CONNECT, if the two queues open and take messages.
serves_connect :
    (sp : ℤ) (opens takes : List ℕ → Bool) (m : Message) (s : Posix.Server) (id : ℤ)
    → m.type ≡ Posix.connect
    → to_int (strtol m.text) ≡ id
    → opens (Posix.path_of m.sender_pid) ≡ true
    → opens (Posix.path_of id) ≡ true
    → takes (Posix.path_of m.sender_pid) ≡ true
    → takes (Posix.path_of id) ≡ true
    → Posix.serve sp opens takes m s
      ≡ Posix.ok (record {
        clients = Posix.deactivate id (Posix.deactivate m.sender_pid s.clients);
        log =
            (Posix.path_of m.sender_pid, record m { sender_pid = sp; text = Posix.path_of id })
            ∷ (Posix.path_of id, record m { sender_pid = sp; text = Posix.path_of m.sender_pid })
            ∷ s.log;
      })
unfolding Posix.serve Posix.handle_connect Posix.mq_open Posix.mq_send
serves_connect sp opens takes m s id t e om oi tm ti = rw (t, e, om, oi, ti, tm)

module _ (sp pa pb ida idb : ℤ) (opened : List ℕ → ℤ) (garbage : Message)
    (opens takes : List ℕ → Bool) (delivers : Target ℤ → Message → Bool) where
  -- Over POSIX queues too, CONNECT and an id typed at the prompt bring the two clients together: each
  -- opens the path of the other's queue. The server does not ask whether the two are free.
  pub posix-dials-meets :
      (s : Posix.Server) (a b : Client ℤ)
      → a.place ≡ at_input
      → b.place ≡ at_queue
      → sp ≢ pa
      → IsInt pb
      → length (print_int pb) + 1 ≤ text_size
      → opens (Posix.path_of pa) ≡ true
      → opens (Posix.path_of pb) ≡ true
      → takes (Posix.path_of pa) ≡ true
      → takes (Posix.path_of pb) ≡ true
      → delivers server (request (posix ida opened) pa pb) ≡ true
      → let m = request (posix ida opened) pa pb in
        (s' : Posix.Server) × (to_a : Message) × (to_b : Message) × ((posix_run ida opened pa
            garbage delivers
            (dials pb)
            a).log
          ≡ (server, m) ∷ a.log)
        × (Posix.serve sp opens takes m s ≡ Posix.ok s')
        × (s'.log ≡ (Posix.path_of pa, to_a) ∷ (Posix.path_of pb, to_b) ∷ s.log)
        × ((posix_run ida opened pa garbage delivers (dials pb ++ hears to_a ∷ []) a).place
            ≡ talk_queue (opened (Posix.path_of pb)) true)
        × ((posix_turn idb opened pb garbage delivers (hears to_b) b).place
            ≡ talk_queue (opened (Posix.path_of pa)) false)
  posix-dials-meets s a b ha hb n ip fits oa ob ta tb d =
      let v = posix ida opened in
      let m = request v pa pb in
      let to_a : Message = record m { sender_pid = sp; text = Posix.path_of pb } in
      let to_b : Message = record m { sender_pid = sp; text = Posix.path_of pa } in
      let waits : Client ℤ = record a {
        place = wait_connect;
        message = m;
        log = (server, m) ∷ a.log;
      } in
      let dialled = dials-request v pa garbage delivers pb a ha fits d in
      let answered = answers v pa garbage delivers to_a waits refl n in
      (
        record {
          clients = Posix.deactivate pb (Posix.deactivate pa s.clients);
          log = (Posix.path_of pa, to_a) ∷ (Posix.path_of pb, to_b) ∷ s.log;
        },
        to_a,
        to_b,
        ap (λ c. c.log) dialled,
        serves_connect sp opens takes m s pb refl (strtol-print_int pb (newline ∷ []) ip refl) oa ob
            ta tb,
        refl,
        rw (run-append v pa garbage delivers (dials pb) (hears to_a ∷ []) a, dialled)
            (unfold run in answered),
        called (posix idb opened) pb garbage delivers to_b b hb refl,
      )

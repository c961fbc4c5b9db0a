-- ===== src/Chat/Client/Session.antt =====
-- lab06/src/SystemV/client.c and lab06/src/POSIX/client.c: every client keeps to the protocol of its
-- messages to the server.
use agh_sem4_sysopy.Common.{
  ℕ, ◌≡◌, refl, ap, inl, inr, ◌∙◌, Bool, true, false, Option, none, some, List, [], ◌∷◌, ◌++◌,
  Bool-cases, if◌then◌else◌,
}
use agh_sem4_sysopy.Common.Int.{ℤ}
use agh_sem4_sysopy.Chat.Message.{Message}
use agh_sem4_sysopy.Chat.Client.Guard.{AsksFor, IsGuarded, turn-IsGuarded, init-IsGuarded}
use agh_sem4_sysopy.Chat.Client.{
  Variant, Target, server, Place, wait_init, at_queue, at_input, ask_id, wait_connect, wait_list,
  talk_queue, talk_input, exited, Client, Input, unavailable, failed, line, Event, looks, sigint,
  trim, fgets, command_size, exits, send, main_input, proceed, turn, run, init,
}
use agh_sem4_sysopy.Chat.Client.Protocol.{
  Phase, started, joining, free, listing, talking, registers, joined, listed, dies, stays, Session,
  ends, then_moves, phase_of, to_server, Moved, silent, still,
}
use agh_sem4_sysopy.Chat.Client.Places.{
  connect_to-Moved, connected-Moved, main_queue-Moved, run_command-Moved, talk_receive-Moved,
  talk_send-Moved,
}

module _ {Address : Type 0} (v : Variant Address) (getpid : ℤ) (garbage : Message)
    (delivers : Target Address → Message → Bool) where
  proceed-Moved :
      (p : Place Address) (arrived : Option Message) (input : Input) (c : Client Address)
      → c.place ≡ p
      → AsksFor v.connect p c.message
      → Moved v (phase_of p) (to_server c.log) (proceed v getpid garbage delivers p arrived input c)
  unfolding proceed main_input
  proceed-Moved wait_init none input c e a = still v c e
  proceed-Moved wait_init (some m) input c e a = silent v joining (to_server c.log) _ refl joined
  proceed-Moved at_queue none input c e a = silent v free (to_server c.log) _ refl (stays free)
  proceed-Moved at_queue (some m) input c e a = main_queue-Moved v getpid garbage delivers m c
  proceed-Moved at_input arrived unavailable c e a =
      silent v free (to_server c.log) _ refl (stays free)
  proceed-Moved at_input arrived failed c e a = silent v free (to_server c.log) _ refl (stays free)
  proceed-Moved at_input arrived (line text) c e a =
      run_command-Moved v getpid garbage delivers (trim (fgets command_size text)) c
  proceed-Moved ask_id arrived input c e a = connect_to-Moved v getpid garbage delivers input c e a
  proceed-Moved wait_connect none input c e a = still v c e
  proceed-Moved wait_connect (some m) input c e a = connected-Moved v getpid garbage delivers m c
  proceed-Moved wait_list none input c e a = still v c e
  proceed-Moved wait_list (some m) input c e a = silent v listing (to_server c.log) _ refl listed
  proceed-Moved (talk_queue dqd b) none input c e a =
      silent v talking (to_server c.log) _ refl (stays talking)
  proceed-Moved (talk_queue dqd b) (some m) input c e a =
      talk_receive-Moved v getpid garbage delivers dqd b m c
  proceed-Moved (talk_input dqd b) arrived input c e a =
      talk_send-Moved v getpid garbage delivers dqd b input c
  proceed-Moved exited arrived input c e a = still v c e

  turn-Moved :
      (e : Event) (c : Client Address)
      → IsGuarded v c
      → Moved v (phase_of c.place) (to_server c.log) (turn v getpid garbage delivers e c)
  unfolding turn
  turn-Moved (looks arrived input) c g =
      proceed-Moved c.place arrived input c refl (unfold IsGuarded in g.1)
  turn-Moved sigint c g = interrupted c.ignores_sigint
    where
      interrupted :
          (b : Bool) → Moved v (phase_of c.place) (to_server c.log) (if b then c else exits c)
      interrupted true = still v c refl
      interrupted false =
          silent v (phase_of c.place) (to_server c.log) _ refl (dies (phase_of c.place))

  run-Session :
      (events : List Event) (p : Phase) (sent : List ℕ) (c : Client Address)
      → IsGuarded v c
      → to_server c.log ≡ sent
      → Session v p sent (phase_of c.place)
      → let c' = run v getpid garbage delivers events c in
        IsGuarded v c' × Session v p (to_server c'.log) (phase_of c'.place)
  unfolding run
  run-Session [] p sent c g e s = (g, rw e s)
  run-Session (event ∷ events) p sent c g e s =
      let m = turn-Moved event c g in
      run-Session events p (sent ++ m.sent) (turn v getpid garbage delivers event c)
        (turn-IsGuarded v getpid garbage delivers event c g) (m.logged ∙ ap (λ l. l ++ m.sent) e)
        (then_moves p (phase_of c.place) _ sent m.sent s m.moves)

  init-Moved : Moved v started [] (init v getpid garbage delivers)
  unfolding init send to_server
  init-Moved = elim (Bool-cases (delivers server first)) [
    | inl e ↦ rw e (record { sent = v.init ∷ []; moves = registers; logged = refl })
    | inr e ↦ rw e (silent v started [] _ refl (dies started))
  ]
    where
      first : Message
      first = record { type = v.init; sender_pid = getpid; text = v.init_text }

  -- Whatever comes into its queue and from the terminal, and whenever SIGINT comes: what a client
  -- sends to the server follows the protocol, up to the phase where it stands; SIGINT is ignored in a
  -- conversation and at no other time, and the queue is removed at the exit and not before.
  pub client-Session :
      (events : List Event)
      → let c' = run v getpid garbage delivers events (init v getpid garbage delivers) in
        IsGuarded v c' × Session v started (to_server c'.log) (phase_of c'.place)
  client-Session events =
      let first = init v getpid garbage delivers in
      let m = init-Moved in
      run-Session events started m.sent first (init-IsGuarded v getpid garbage delivers) m.logged
        (then_moves started started _ [] m.sent (ends started) m.moves)

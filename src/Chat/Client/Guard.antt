-- ===== src/Chat/Client/Guard.antt =====
-- lab06/src/SystemV/client.c and lab06/src/POSIX/client.c: what holds of a client at each place.
use agh_sem4_sysopy.Common.{
  ℕ, ◌≡◌, refl, ◌&&◌, Bool, true, false, not, Option, none, some, List, ◌∷◌, arith,
}
use agh_sem4_sysopy.Common.Int.{ℤ}
use agh_sem4_sysopy.Chat.Message.{Message}
use agh_sem4_sysopy.Chat.Client.{
  Variant, Target, partner, Place, wait_init, at_queue, at_input, ask_id, wait_connect, wait_list,
  talk_queue, talk_input, exited, Client, Input, unavailable, failed, line, Event, looks, sigint,
  trim, fgets, text_size, command_size, go, back, send, disconnect, stop, list, connect, connect_to,
  connected, main_queue, run_command, main_input, talk_receive, talk_send, proceed, turn, init,
}

module _ {Address : Type 0} where
  abbrev pub guarded : Place Address → Bool → Bool → Bool
  guarded (talk_queue dqd b) ignores queue = ignores && queue
  guarded (talk_input dqd b) ignores queue = ignores && queue
  guarded exited ignores queue = not queue
  guarded _ ignores queue = not ignores && queue

  abbrev pub AsksFor : ℕ → Place Address → Message → Type 0
  AsksFor type ask_id message = message.type ≡ type
  AsksFor type _ message = Unit

  -- SIGINT is ignored in a conversation and at no other time, the queue is removed at the exit and
  -- not before, and what waits for an id is a CONNECT.
  unfoldable pub IsGuarded : Variant Address → Client Address → Type 0
  IsGuarded v c =
      (guarded c.place c.ignores_sigint c.has_queue ≡ true) × AsksFor v.connect c.place c.message

module _ {Address : Type 0} (v : Variant Address) (getpid : ℤ) (garbage : Message)
    (delivers : Target Address → Message → Bool) where
  disconnect-IsGuarded :
      (message : Message) (b : Bool) (c : Client Address)
      → c.has_queue ≡ true
      → IsGuarded v (disconnect v getpid garbage delivers message (go (back b)) c)
  unfolding disconnect send IsGuarded
  disconnect-IsGuarded message b c h = ground arith

  stop-IsGuarded : (c : Client Address) → IsGuarded v (stop v getpid garbage delivers c)
  unfolding disconnect send stop IsGuarded
  stop-IsGuarded c = ground arith

  run_command-IsGuarded :
      (command : List ℕ) (c : Client Address)
      → c.has_queue ≡ true
      → c.ignores_sigint ≡ false
      → IsGuarded v (run_command v getpid garbage delivers command c)
  unfolding run_command connect list send IsGuarded
  run_command-IsGuarded command c h i = ground (arith, stop-IsGuarded c)

  connect_to-IsGuarded :
      (input : Input) (c : Client Address)
      → IsGuarded v c
      → c.has_queue ≡ true
      → c.ignores_sigint ≡ false
      → IsGuarded v (connect_to v getpid garbage delivers input c)
  unfolding connect_to send IsGuarded
  connect_to-IsGuarded unavailable c g h i = g
  connect_to-IsGuarded failed c g h i = (refl, tt)
  connect_to-IsGuarded (line text) c g h i = ground arith

  connected-IsGuarded :
      (answer : Message) (c : Client Address)
      → c.has_queue ≡ true
      → c.ignores_sigint ≡ false
      → IsGuarded v (connected v getpid garbage delivers answer c)
  unfolding connected IsGuarded
  connected-IsGuarded answer c h i = ground arith

  main_queue-IsGuarded :
      (message : Message) (c : Client Address)
      → c.has_queue ≡ true
      → c.ignores_sigint ≡ false
      → IsGuarded v (main_queue v getpid garbage delivers message c)
  unfolding main_queue IsGuarded
  main_queue-IsGuarded message c h i =
      ground (arith, stop-IsGuarded (record c { message = message }))

  main_input-IsGuarded :
      (input : Input) (c : Client Address)
      → c.has_queue ≡ true
      → c.ignores_sigint ≡ false
      → IsGuarded v (main_input v getpid garbage delivers input c)
  unfolding main_input IsGuarded
  main_input-IsGuarded unavailable c h i = ground arith
  main_input-IsGuarded failed c h i = ground arith
  main_input-IsGuarded (line text) c h i =
      run_command-IsGuarded (trim (fgets command_size text)) c h i

  talk_receive-IsGuarded :
      (dqd : Address) (b : Bool) (message : Message) (c : Client Address)
      → c.has_queue ≡ true
      → c.ignores_sigint ≡ true
      → IsGuarded v (talk_receive v getpid garbage delivers dqd b message c)
  unfolding talk_receive IsGuarded
  talk_receive-IsGuarded dqd b message c h i = ground (arith, disconnect-IsGuarded message b c h)

  talk_send-IsGuarded :
      (dqd : Address) (b : Bool) (input : Input) (c : Client Address)
      → c.has_queue ≡ true
      → c.ignores_sigint ≡ true
      → IsGuarded v (talk_send v getpid garbage delivers dqd b input c)
  unfolding talk_send send IsGuarded
  talk_send-IsGuarded dqd b unavailable c h i = ground arith
  talk_send-IsGuarded dqd b failed c h i = ground arith
  talk_send-IsGuarded dqd b (line text) c h i =
      let message : Message = record c.said { text = fgets text_size text } in
      ground (
        arith,
        disconnect-IsGuarded message b (record c { log = (partner dqd, message) ∷ c.log }) h,
      )

  proceed-IsGuarded :
      (p : Place Address) (arrived : Option Message) (input : Input) (c : Client Address)
      → c.place ≡ p
      → guarded p c.ignores_sigint c.has_queue ≡ true
      → AsksFor v.connect p c.message
      → IsGuarded v c
      → IsGuarded v (proceed v getpid garbage delivers p arrived input c)
  unfolding proceed IsGuarded
  proceed-IsGuarded wait_init none input c e g a s = s
  proceed-IsGuarded wait_init (some m) input c e g a s = ground arith
  proceed-IsGuarded at_queue none input c e g a s = ground arith
  proceed-IsGuarded at_queue (some m) input c e g a s =
      main_queue-IsGuarded m c (ground arith) (ground arith)
  proceed-IsGuarded at_input arrived input c e g a s =
      main_input-IsGuarded input c (ground arith) (ground arith)
  proceed-IsGuarded ask_id arrived input c e g a s =
      connect_to-IsGuarded input c s (ground arith) (ground arith)
  proceed-IsGuarded wait_connect none input c e g a s = s
  proceed-IsGuarded wait_connect (some m) input c e g a s =
      connected-IsGuarded m c (ground arith) (ground arith)
  proceed-IsGuarded wait_list none input c e g a s = s
  proceed-IsGuarded wait_list (some m) input c e g a s = ground arith
  proceed-IsGuarded (talk_queue dqd b) none input c e g a s = ground arith
  proceed-IsGuarded (talk_queue dqd b) (some m) input c e g a s =
      talk_receive-IsGuarded dqd b m c (ground arith) (ground arith)
  proceed-IsGuarded (talk_input dqd b) arrived input c e g a s =
      talk_send-IsGuarded dqd b input c (ground arith) (ground arith)
  proceed-IsGuarded exited arrived input c e g a s = s

  pub turn-IsGuarded :
      (e : Event) (c : Client Address)
      → IsGuarded v c
      → IsGuarded v (turn v getpid garbage delivers e c)
  unfolding turn
  turn-IsGuarded (looks arrived input) c s =
      proceed-IsGuarded c.place arrived input c refl (unfold IsGuarded in s.0)
        (unfold IsGuarded in s.1) s
  turn-IsGuarded sigint c s = unfold IsGuarded in ground arith

  pub init-IsGuarded : IsGuarded v (init v getpid garbage delivers)
  unfolding init send IsGuarded
  init-IsGuarded = ground arith

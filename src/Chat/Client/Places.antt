-- ===== src/Chat/Client/Places.antt =====
-- lab06/src/SystemV/client.c and lab06/src/POSIX/client.c: the move of a client at each of its places.
use agh_sem4_sysopy.Common.{
  ℕ, ◌≡◌, refl, inl, inr, sym, ◌==◌, subst, Bool, List, [], ◌∷◌, Bool-cases,
}
use agh_sem4_sysopy.Common.Int.{ℤ, eqb_ℤ}
use agh_sem4_sysopy.Libc.Strings.{str_eq}
use agh_sem4_sysopy.Libc.Text.{codes}
use agh_sem4_sysopy.Chat.Message.{Message}
use agh_sem4_sysopy.Chat.Client.{
  Variant, Target, partner, ask_id, wait_connect, wait_list, Client, Input, unavailable, failed,
  line, goodbye, fgets, text_size, send, list, connect, connect_to, connected, main_queue,
  run_command, talk_receive, talk_send,
}
use agh_sem4_sysopy.Chat.Client.Protocol.{
  free, asking, listing, talking, Moves, asks, lists, refused, paired, called, dies, stays,
  phase_of, to_server, Moved, silent, stop-Moved, send-Moved, disconnect-Moved,
}

module _ {Address : Type 0} (v : Variant Address) (getpid : ℤ) (garbage : Message)
    (delivers : Target Address → Message → Bool) where
  pub connect_to-Moved :
      (input : Input) (c : Client Address)
      → c.place ≡ ask_id
      → c.message.type ≡ v.connect
      → Moved v free (to_server c.log) (connect_to v getpid garbage delivers input c)
  unfolding connect_to
  connect_to-Moved unavailable c e t =
      silent v free (to_server c.log) c refl
        (subst (λ q. Moves v free [] (phase_of q)) (sym e) (stays free))
  connect_to-Moved failed c e t = silent v free (to_server c.log) _ refl (dies free)
  connect_to-Moved (line text) c e t =
      send-Moved v getpid garbage delivers free asking _ wait_connect
        (record c { message = record c.message { text = v.id_text (fgets text_size text) } }) refl
        (subst (λ k. Moves v free (k ∷ []) asking) (sym t) asks)

  pub connected-Moved :
      (answer : Message) (c : Client Address)
      → Moved v asking (to_server c.log) (connected v getpid garbage delivers answer c)
  unfolding connected
  connected-Moved answer c = elim (Bool-cases (eqb_ℤ answer.sender_pid getpid)) [
    | inl e ↦ rw e (silent v asking (to_server c.log) _ refl refused)
    | inr e ↦ rw e (silent v asking (to_server c.log) _ refl paired)
  ]

  pub main_queue-Moved :
      (message : Message) (c : Client Address)
      → Moved v free (to_server c.log) (main_queue v getpid garbage delivers message c)
  unfolding main_queue
  main_queue-Moved message c = elim (Bool-cases (message.type == v.connect)) [
    | inl e ↦ rw e (silent v free (to_server c.log) _ refl called)
    | inr e ↦ rw e (elim (Bool-cases (message.type == v.stop)) [
      | inl f ↦ rw f (stop-Moved v getpid garbage delivers (record c { message = message }))
      | inr f ↦ rw f (silent v free (to_server c.log) _ refl (stays free))
    ])
  ]

  pub run_command-Moved :
      (command : List ℕ) (c : Client Address)
      → Moved v free (to_server c.log) (run_command v getpid garbage delivers command c)
  unfolding run_command connect list
  run_command-Moved command c = elim (Bool-cases (str_eq command (codes "CONNECT"))) [
    | inl e ↦ rw e (silent v free (to_server c.log) _ refl (stays free))
    | inr e ↦ rw e (elim (Bool-cases (str_eq command (codes "LIST"))) [
      | inl f ↦ rw f (
          send-Moved v getpid garbage delivers free listing _ wait_list
            (record c { message = record c.message { type = v.list; sender_pid = getpid } }) refl
            lists)
      | inr f ↦ rw f (elim (Bool-cases (str_eq command (codes "DISCONNECT"))) [
        | inl g ↦ rw g (silent v free (to_server c.log) _ refl (stays free))
        | inr g ↦ rw g (elim (Bool-cases (str_eq command (codes "STOP"))) [
          | inl h ↦ rw h (stop-Moved v getpid garbage delivers c)
          | inr h ↦ rw h (silent v free (to_server c.log) _ refl (stays free))
        ])
      ])
    ])
  ]

  pub talk_receive-Moved :
      (dqd : Address) (b : Bool) (message : Message) (c : Client Address)
      → Moved v talking (to_server c.log) (talk_receive v getpid garbage delivers dqd b message c)
  unfolding talk_receive
  talk_receive-Moved dqd b message c = elim (Bool-cases (str_eq message.text goodbye)) [
    | inl e ↦ rw e (disconnect-Moved v getpid garbage delivers message b c)
    | inr e ↦ rw e (silent v talking (to_server c.log) _ refl (stays talking))
  ]

  pub talk_send-Moved :
      (dqd : Address) (b : Bool) (input : Input) (c : Client Address)
      → Moved v talking (to_server c.log) (talk_send v getpid garbage delivers dqd b input c)
  unfolding talk_send to_server
  talk_send-Moved dqd b unavailable c = silent v talking (to_server c.log) _ refl (stays talking)
  talk_send-Moved dqd b failed c = silent v talking (to_server c.log) _ refl (stays talking)
  talk_send-Moved dqd b (line text) c =
      let message : Message = record c.said { text = fgets text_size text } in
      unfold send in
      elim (Bool-cases (str_eq message.text goodbye)) [
        | inl e ↦ rw e (elim (Bool-cases (delivers (partner dqd) message)) [
          | inl d ↦ rw d (
              disconnect-Moved v getpid garbage delivers message b
                (record c { log = (partner dqd, message) ∷ c.log }))
          | inr d ↦ rw d (silent v talking (to_server c.log) _ refl (dies talking))
        ])
        | inr e ↦ rw e (elim (Bool-cases (delivers (partner dqd) message)) [
          | inl d ↦ rw d (silent v talking (to_server c.log) _ refl (stays talking))
          | inr d ↦ rw d (silent v talking (to_server c.log) _ refl (dies talking))
        ])
      ]

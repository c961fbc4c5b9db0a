-- ===== src/Chat/Client/Protocol.antt =====
-- lab06/src/SystemV/client.c and lab06/src/POSIX/client.c: what a client may send to the server, as a
-- protocol of phases, and the moves of a client that sends something or exits.
use agh_sem4_sysopy.Common.{
  ℕ, ◌≡◌, refl, inl, inr, sym, ◌∙◌, subst, Bool, true, false, List, [], ◌∷◌, ◌++◌, Bool-cases,
}
use mathlib.Core.List.{append-nil, append_assoc}
use agh_sem4_sysopy.Common.Int.{ℤ}
use agh_sem4_sysopy.Chat.Message.{Message}
use agh_sem4_sysopy.Chat.Client.{
  Variant, Target, server, partner, Place, wait_init, at_queue, at_input, ask_id, wait_connect,
  wait_list, talk_queue, talk_input, exited, Client, go, back, send, farewell, disconnect, stop,
}

pub data Phase : Type 0 where
  started joining free asking listing talking gone : Phase

module _ {Address : Type 0} (v : Variant Address) where
  -- What a client may do: the phase it leaves, the types of what it sends to the server, and the phase
  -- that follows. A conversation starts without a word to the server, and ends with a DISCONNECT;
  -- a STOP follows a DISCONNECT, and nothing follows a STOP.
  pub data Moves : Phase → List ℕ → Phase → Type 0 where
    stays : (p : Phase) → Moves p [] p
    registers : Moves started (v.init ∷ []) joining
    joined : Moves joining [] free
    asks : Moves free (v.connect ∷ []) asking
    lists : Moves free (v.list ∷ []) listing
    listed : Moves listing [] free
    refused : Moves asking [] free
    paired : Moves asking [] talking
    called : Moves free [] talking
    hangs_up : Moves talking (v.disconnect ∷ []) free
    quits : Moves free (v.disconnect ∷ v.stop ∷ []) gone
    breaks : Moves free (v.disconnect ∷ []) gone
    dies : (p : Phase) → Moves p [] gone

  -- Several moves, and what they send.
  pub data Session : Phase → List ℕ → Phase → Type 0 where
    ends : (p : Phase) → Session p [] p
    then_moves :
        (p q r : Phase) (sent more : List ℕ)
        → Session p sent q
        → Moves q more r
        → Session p (sent ++ more) r

module _ {Address : Type 0} where
  abbrev pub phase_of : Place Address → Phase
  phase_of wait_init = joining
  phase_of at_queue = free
  phase_of at_input = free
  phase_of ask_id = free
  phase_of wait_connect = asking
  phase_of wait_list = listing
  phase_of (talk_queue dqd b) = talking
  phase_of (talk_input dqd b) = talking
  phase_of exited = gone

  -- The types of the messages to the server, the oldest first.
  unfoldable pub to_server : List (Target Address × Message) → List ℕ
  to_server [] = []
  to_server ((server, message) ∷ log) = to_server log ++ message.type ∷ []
  to_server ((partner dqd, message) ∷ log) = to_server log

module _ {Address : Type 0} (v : Variant Address) where
  -- One move of the protocol, from a phase and a log.
  pub record Moved (p : Phase) (before : List ℕ) (c : Client Address) : Type 0 where
    pub sent : List ℕ
    pub moves : Moves v p sent (phase_of c.place)
    pub logged : to_server c.log ≡ before ++ sent

  pub silent :
      (p : Phase) (before : List ℕ) (c : Client Address)
      → to_server c.log ≡ before
      → Moves v p [] (phase_of c.place)
      → Moved p before c
  silent p before c e m = record { sent = []; moves = m; logged = e ∙ sym (append-nil before) }

  pub still :
      (c : Client Address) {p : Place Address}
      → c.place ≡ p
      → Moved (phase_of p) (to_server c.log) c
  still c {p = p} e =
      silent (phase_of p) (to_server c.log) c refl
        (subst (λ q. Moves v (phase_of p) [] (phase_of q)) (sym e) (stays (phase_of p)))

module _ {Address : Type 0} (v : Variant Address) (getpid : ℤ) (garbage : Message)
    (delivers : Target Address → Message → Bool) where
  pub stop-Moved :
      (c : Client Address) → Moved v free (to_server c.log) (stop v getpid garbage delivers c)
  unfolding stop disconnect send to_server
  stop-Moved c = elim (Bool-cases (delivers server (farewell v getpid garbage))) [
    | inl e ↦
        rw e
          (elim (Bool-cases
            (delivers server (record (farewell v getpid garbage) { type = v.stop }))) [
              | inl f ↦
                  rw f (record {
                    sent = _;
                    moves = quits;
                    logged = append_assoc (to_server c.log) _ _;
                  })
              | inr f ↦ rw f (record { sent = _; moves = breaks; logged = refl })
            ])
    | inr e ↦ rw e (silent v free (to_server c.log) _ refl (dies free))
  ]

  -- A message to the server, and one move.
  pub send-Moved :
      (p q : Phase) (message : Message) (place : Place Address) (c : Client Address)
      → phase_of place ≡ q
      → Moves v p (message.type ∷ []) q
      → Moved v p (to_server c.log) (send v getpid garbage delivers server message (go place) c)
  unfolding send to_server
  send-Moved p q message place c e m = elim (Bool-cases (delivers server message)) [
    | inl d ↦
        rw d (record {
          sent = message.type ∷ [];
          moves = subst (Moves v p _) (sym e) m;
          logged = refl;
        })
    | inr d ↦ rw d (silent v p (to_server c.log) _ refl (dies p))
  ]

  pub disconnect-Moved :
      (message : Message) (b : Bool) (c : Client Address)
      → Moved v talking
          (to_server c.log)
          (disconnect v getpid garbage delivers message (go (back b)) c)
  unfolding disconnect send to_server
  disconnect-Moved message b c = elim (Bool-cases (delivers server (farewell v getpid message))) [
    | inl d ↦ rw d (record { sent = v.disconnect ∷ []; moves = returns b; logged = refl })
    | inr d ↦ rw d (silent v talking (to_server c.log) _ refl (dies talking))
  ]
    where
      returns :
          (b : Bool) → Moves v talking (v.disconnect ∷ []) (phase_of {Address = Address} (back b))
      returns true = hangs_up
      returns false = hangs_up

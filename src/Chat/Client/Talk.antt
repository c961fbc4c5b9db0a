-- ===== src/Chat/Client/Talk.antt =====
-- lab06/src/SystemV/client.c and lab06/src/POSIX/client.c: what a client says in a conversation, and the
-- commands that its buffer can hold.
use agh_sem4_sysopy.Common.{
  length-take, take-all, ℕ, ◌≤◌, ◌≡◌, refl, ap, inl, inr, Bool, true, false, none, List, [], ◌∷◌,
  ◌++◌, arith, length, Bool-cases,
}
use agh_sem4_sysopy.Common.Int.{ℤ}
use agh_sem4_sysopy.Libc.Strings.{str_eq, str_eq_refl, eq_of_str_eq}
use agh_sem4_sysopy.Libc.Text.{codes}
use agh_sem4_sysopy.Chat.Message.{Message}
use agh_sem4_sysopy.Chat.Client.{
  Variant, Target, server, partner, talk_input, Client, unavailable, line, Event, looks, newline,
  goodbye, trim, fgets, text_size, command_size, farewell, back, send, disconnect, talk_send,
  proceed, turn, run,
}

pub length-trim : (s : List ℕ) → length (trim s) ≤ length s
unfolding trim
length-trim [] = omega arith
length-trim (c ∷ []) = ground arith
length-trim (c ∷ d ∷ s) = omega (arith, length-trim (d ∷ s))

-- `trim` takes the newline off a line.
pub trim-line : (s : List ℕ) → trim (s ++ newline ∷ []) ≡ s
unfolding trim
trim-line [] = refl
trim-line (c ∷ []) = refl
trim-line (c ∷ d ∷ s) = ap (λ r. c ∷ r) (trim-line (d ∷ s))

-- Lines that a buffer holds and that do not end the conversation.
abbrev pub AreSaid : List (List ℕ) → Type 0
AreSaid [] = Unit
AreSaid (l ∷ ls) = (length l ≤ text_size) × (str_eq l goodbye ≡ false) × AreSaid ls

-- The lines come from the terminal, and no message comes meanwhile.
abbrev pub types : List (List ℕ) → List Event
types [] = looks none (line goodbye) ∷ []
types (l ∷ ls) = looks none (line l) ∷ looks none unavailable ∷ types ls

module _ {Address : Type 0} where
  -- The lines, put on a log one by one.
  unfoldable pub spoken :
      Address
      → Message
      → List (List ℕ)
      → List (Target Address × Message)
      → List (Target Address × Message)
  spoken dqd said [] log = log
  spoken dqd said (l ∷ ls) log = spoken dqd said ls ((partner dqd, record said { text = l }) ∷ log)

module _ {Address : Type 0} (v : Variant Address) (getpid : ℤ) (garbage : Message)
    (delivers : Target Address → Message → Bool) where
  -- The bye of a client: to its partner, and to the server.
  pub says_goodbye :
      (dqd : Address) (b : Bool) (c : Client Address)
      → let message : Message = record c.said { text = goodbye } in
        delivers (partner dqd) message ≡ true
        → delivers server (farewell v getpid message) ≡ true
        → c.place ≡ talk_input dqd b
        → turn v getpid garbage delivers (looks none (line goodbye)) c ≡ record c {
          place = back b;
          ignores_sigint = false;
          log = (server, farewell v getpid message) ∷ (partner dqd, message) ∷ c.log;
        }
  unfolding turn proceed talk_send disconnect send
  says_goodbye dqd b c p q e = rw (e, str_eq_refl goodbye, p, q)

  says_line :
      (dqd : Address) (b : Bool) (l : List ℕ) (c : Client Address)
      → ((t : Target Address) (m : Message) → delivers t m ≡ true)
      → c.place ≡ talk_input dqd b
      → length l ≤ text_size
      → str_eq l goodbye ≡ false
      → let message : Message = record c.said { text = l } in
        run v getpid garbage delivers (looks none (line l) ∷ looks none unavailable ∷ []) c
        ≡ record c {
          place = talk_input dqd b;
          said = message;
          log = (partner dqd, message) ∷ c.log;
        }
  unfolding run turn proceed talk_send send
  says_line dqd b l c d e h n =
      rw (e, take-all text_size l h, n, d (partner dqd) (record c.said { text = l }))

  pub run-append :
      (es fs : List Event) (c : Client Address)
      → run v getpid garbage delivers (es ++ fs) c
        ≡ run v getpid garbage delivers fs (run v getpid garbage delivers es c)
  unfolding run
  run-append [] fs c = refl
  run-append (e ∷ es) fs c = run-append es fs (turn v getpid garbage delivers e c)

  -- In a conversation, lines that the buffer holds and then DISCONNECT, while every queue takes
  -- messages: each line goes to the partner's queue, in order, then the DISCONNECT; the server is sent
  -- one DISCONNECT, after them; and the client is back at the loop of `main`, where SIGINT ends it.
  pub types-spoken :
      (ls : List (List ℕ)) (dqd : Address) (b : Bool) (c : Client Address)
      → ((t : Target Address) (m : Message) → delivers t m ≡ true)
      → c.place ≡ talk_input dqd b
      → AreSaid ls
      → let c' = run v getpid garbage delivers (types ls) c in
        let bye : Message = record c.said { text = goodbye } in
        (c'.place ≡ back b)
        × (c'.ignores_sigint ≡ false)
        × (c'.log
            ≡ (server, farewell v getpid bye) ∷ (partner dqd, bye) ∷ spoken dqd c.said ls c.log)
  unfolding spoken
  types-spoken [] dqd b c d e a =
      let q = says_goodbye dqd b c (d (partner dqd) _) (d server _) e in
      unfold run in rw q (refl, refl, refl)
  types-spoken (l ∷ ls) dqd b c d e a =
      let q = says_line dqd b l c d e a.0 a.1 in
      rw (run-append (looks none (line l) ∷ looks none unavailable ∷ []) (types ls) c, q)
        (types-spoken ls dqd b _ d refl a.2)

longer :
    (command : List ℕ) → length command ≤ command_size → str_eq command (codes "DISCONNECT") ≡ false
longer command h = elim (Bool-cases (str_eq command (codes "DISCONNECT"))) [
  | inl e ↦ absurd (omega (arith, ap length (eq_of_str_eq command (codes "DISCONNECT") e)))
  | inr e ↦ e
]

-- The command that `main` reads is never DISCONNECT, whatever is typed, since its buffer has ten
-- bytes.
pub command-ne-disconnect :
    (text : List ℕ) → str_eq (trim (fgets command_size text)) (codes "DISCONNECT") ≡ false
command-ne-disconnect text =
    longer (trim (fgets command_size text))
      (omega (arith, length-trim (fgets command_size text), length-take command_size text))

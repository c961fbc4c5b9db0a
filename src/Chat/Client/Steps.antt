-- ===== src/Chat/Client/Steps.antt =====
-- lab06/src/SystemV/client.c and lab06/src/POSIX/client.c: what a client does when it is told to connect,
-- and when it hears an answer, a call or a bye.
use agh_sem4_sysopy.Common.{
  take-all, ◌+◌, ◌≤◌, ◌≡◌, ◌≢◌, refl, ap, ◌∙◌, Bool, true, false, none, some, List, [], ◌∷◌, ◌++◌,
  arith, ◌==◌, ==_refl, length, length-append,
}
use agh_sem4_sysopy.Common.Int.{ℤ, eq_of_eqb_ℤ}
use agh_sem4_sysopy.Libc.Numbers.{print_int}
use agh_sem4_sysopy.Libc.Text.{codes}
use agh_sem4_sysopy.Libc.Strings.{str_eq, str_eq_refl}
use agh_sem4_sysopy.Chat.Message.{Message}
use agh_sem4_sysopy.Chat.Client.{
  Variant, Target, server, at_queue, at_input, wait_connect, talk_queue, Client, unavailable, line,
  Event, looks, newline, goodbye, trim, text_size, farewell, send, connect, connect_to, connected,
  main_input, main_queue, run_command, talk_receive, back, disconnect, proceed, turn, run,
}

-- At the prompt, CONNECT and an id are typed.
abbrev pub dials : ℤ → List Event
dials id =
    looks none (line (codes "CONNECT\n")) ∷ looks none (line (print_int id ++ newline ∷ [])) ∷ []

abbrev pub hears : Message → Event
hears message = looks (some message) unavailable

-- The CONNECT that a client sends.
abbrev pub request : {Address : Type 0} → Variant Address → ℤ → ℤ → Message
request v getpid id = record {
  type = v.connect;
  sender_pid = getpid;
  text = v.id_text (print_int id ++ newline ∷ []);
}

module _ {Address : Type 0} (v : Variant Address) (getpid : ℤ) (garbage : Message)
    (delivers : Target Address → Message → Bool) where
  pub dials-request :
      (id : ℤ) (c : Client Address)
      → c.place ≡ at_input
      → length (print_int id) + 1 ≤ text_size
      → delivers server (request v getpid id) ≡ true
      → run v getpid garbage delivers (dials id) c ≡ record c {
        place = wait_connect;
        message = request v getpid id;
        log = (server, request v getpid id) ∷ c.log;
      }
  unfolding run turn proceed main_input run_command connect connect_to send trim str_eq
  dials-request id c e h d =
      let fits : length (print_int id ++ newline ∷ []) ≤ text_size =
        omega (arith, h, length-append (print_int id) (newline ∷ [])) in
      rw (e, take-all text_size (print_int id ++ newline ∷ []) fits, d)

  -- An answer that is not the client's own message starts the conversation with the queue it names.
  pub answers :
      (answer : Message) (c : Client Address)
      → c.place ≡ wait_connect
      → answer.sender_pid ≢ getpid
      → (turn v getpid garbage delivers (hears answer) c).place
        ≡ talk_queue (v.opened answer.text) true
  unfolding turn proceed connected
  answers answer c e n = ground (arith, eq_of_eqb_ℤ answer.sender_pid getpid)

  pub called :
      (message : Message) (c : Client Address)
      → c.place ≡ at_queue
      → message.type ≡ v.connect
      → (turn v getpid garbage delivers (hears message) c).place
        ≡ talk_queue (v.opened message.text) false
  unfolding turn proceed main_queue
  called message c e n = rw (e, ap (λ k. k == v.connect) n ∙ ==_refl v.connect) refl

  -- A partner that hears a DISCONNECT.
  pub hears_bye :
      (message : Message) (dqd : Address) (b : Bool) (c : Client Address)
      → c.place ≡ talk_queue dqd b
      → message.text ≡ goodbye
      → delivers server (farewell v getpid message) ≡ true
      → turn v getpid garbage delivers (hears message) c ≡ record c {
        place = back b;
        ignores_sigint = false;
        log = (server, farewell v getpid message) ∷ c.log;
      }
  unfolding turn proceed talk_receive disconnect send
  hears_bye message dqd b c e t d = rw (e, ap (λ x. str_eq x goodbye) t ∙ str_eq_refl goodbye, d)

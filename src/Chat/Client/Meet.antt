-- ===== src/Chat/Client/Meet.antt =====
-- lab06/src/SystemV: two clients (client.c) and the server (server.c) together. What one sends is what
-- the other receives.
use mathlib.Core.List.{append-nil}
use agh_sem4_sysopy.Common.{
  ◌+◌, ◌≤◌, ◌≡◌, ◌≢◌, refl, sym, ap, ◌∙◌, Bool, true, false, none, [], ◌∷◌, ◌++◌, arith, length,
}
use agh_sem4_sysopy.Common.Int.{ℤ, eq_of_eqb_ℤ}
use agh_sem4_sysopy.Libc.Numbers.{print_int, strtol, to_int, IsInt, strtol-print_int}
use agh_sem4_sysopy.Chat.Message
use agh_sem4_sysopy.Chat.Message.{Message}
use agh_sem4_sysopy.Chat.Server.{
  Server, ok, find, minus_one, deactivate, serve, serve_all, handle_connect, handle_disconnect,
  msgsnd,
}
use agh_sem4_sysopy.Chat.Server.Pairing.{connect-disconnect, leaves}
use agh_sem4_sysopy.Chat.Client.{
  Target, server, partner, at_queue, at_input, wait_connect, talk_queue, talk_input, Client, line,
  looks, goodbye, text_size, farewell, back, turn, run,
}
use agh_sem4_sysopy.Chat.Client.Variants.{system_v}
use agh_sem4_sysopy.Chat.Client.Steps.{
  dials, hears, request, dials-request, answers, called, hears_bye,
}
use agh_sem4_sysopy.Chat.Client.Talk.{trim-line, says_goodbye, run-append}

-- The server's answers to a CONNECT between two free clients.
serves_connect :
    (sp : ℤ) (delivers : ℤ → Bool) (m : Message) (s : Server) (id : ℤ)
    → m.type ≡ Message.connect
    → to_int (strtol m.text) ≡ id
    → find s.clients id ≢ minus_one
    → find s.clients m.sender_pid ≢ minus_one
    → delivers (find s.clients id) ≡ true
    → delivers (find s.clients m.sender_pid) ≡ true
    → serve sp delivers m s
      ≡ ok (record {
        clients = deactivate m.sender_pid (deactivate id s.clients);
        log =
            (
              find s.clients id,
              record m { sender_pid = sp; text = print_int (find s.clients m.sender_pid) },
            )
            ∷ (
              find s.clients m.sender_pid,
              record m { sender_pid = sp; text = print_int (find s.clients id) },
            )
            ∷ s.log;
      })
unfolding serve handle_connect msgsnd
serves_connect sp delivers m s id t e p f dp df = rw e (
    ground (
      arith,
      eq_of_eqb_ℤ (find s.clients id) minus_one,
      eq_of_eqb_ℤ (find s.clients m.sender_pid) minus_one,
    ))

reads : (z : ℤ) → IsInt z → to_int (strtol (print_int z)) ≡ z
reads z h =
    ap (λ t. to_int (strtol t)) (sym (append-nil (print_int z))) ∙ strtol-print_int z [] h tt

-- The server reads only the sender of a DISCONNECT.
byes-leaves :
    (sp : ℤ) (delivers : ℤ → Bool) (m1 m2 : Message) (s : Server)
    → m1.type ≡ Message.disconnect
    → m2.type ≡ Message.disconnect
    → serve_all sp delivers (m1 ∷ m2 ∷ []) s
      ≡ serve_all sp delivers (leaves m1.sender_pid ∷ leaves m2.sender_pid ∷ []) s
unfolding serve_all serve handle_disconnect
byes-leaves sp delivers m1 m2 s e f = rw (e, f)

-- The CONNECT of a client.
abbrev pub asked : ℤ → ℤ → Message
asked getpid id = record { type = Message.connect; sender_pid = getpid; text = print_int id }

-- The newline that was typed after the id does not reach the server.
request-asked : (pqd getpid id : ℤ) → request (system_v pqd) getpid id ≡ asked getpid id
request-asked pqd getpid id =
    ap (λ t. record { type = Message.connect; sender_pid = getpid; text = t })
      (trim-line (print_int id))

module _ (sp pa pb qa qb : ℤ) (garbage : Message) (serves : ℤ → Bool)
    (delivers : Target ℤ → Message → Bool) where
  dials-asked :
      (a : Client ℤ)
      → a.place ≡ at_input
      → length (print_int pb) + 1 ≤ text_size
      → delivers server (asked pa pb) ≡ true
      → run (system_v qa) pa garbage delivers (dials pb) a ≡ record a {
        place = wait_connect;
        message = asked pa pb;
        log = (server, asked pa pb) ∷ a.log;
      }
  dials-asked a h fits d =
      let r = request-asked qa pa pb in
      dials-request (system_v qa) pa garbage delivers pb a h fits (ap (delivers server) r ∙ d)
      ∙ ap (λ m. record a { place = wait_connect; message = m; log = (server, m) ∷ a.log }) r

  -- At the prompt of one of two free clients, CONNECT and the other's id are typed: it sends one
  -- request; the server answers with one message to each of the two; and when they hear it, each is in
  -- a conversation with the queue of the other.
  pub dials-meets :
      (s : Server) (a b : Client ℤ)
      → a.place ≡ at_input
      → b.place ≡ at_queue
      → find s.clients pa ≡ qa
      → find s.clients pb ≡ qb
      → qa ≢ minus_one
      → qb ≢ minus_one
      → sp ≢ pa
      → IsInt qa
      → IsInt qb
      → IsInt pb
      → length (print_int pb) + 1 ≤ text_size
      → serves qa ≡ true
      → serves qb ≡ true
      → delivers server (asked pa pb) ≡ true
      → (s' : Server) × (to_a : Message) × (to_b : Message) × ((run
            (system_v qa)
            pa
            garbage
            delivers
            (dials pb)
            a).log
          ≡ (server, asked pa pb) ∷ a.log)
        × (serve sp serves (asked pa pb) s ≡ ok s')
        × (s'.log ≡ (qb, to_b) ∷ (qa, to_a) ∷ s.log)
        × ((run (system_v qa) pa garbage delivers (dials pb ++ hears to_a ∷ []) a).place
            ≡ talk_queue qb true)
        × ((turn (system_v qb) pb garbage delivers (hears to_b) b).place ≡ talk_queue qa false)
  dials-meets s a b ha hb fa fb na nb n ia ib ip fits sa sb d =
      let to_a : Message = record (asked pa pb) { sender_pid = sp; text = print_int qb } in
      let to_b : Message = record (asked pa pb) { sender_pid = sp; text = print_int qa } in
      let waits : Client ℤ = record a {
        place = wait_connect;
        message = asked pa pb;
        log = (server, asked pa pb) ∷ a.log;
      } in
      let answered = answers (system_v qa) pa garbage delivers to_a waits refl n in
      let dialled = dials-asked a ha fits d in
      let served =
        serves_connect sp serves (asked pa pb) s pb refl (reads pb ip) (λ e. nb (sym fb ∙ e))
          (λ e. na (sym fa ∙ e)) (ap serves fb ∙ sb) (ap serves fa ∙ sa) in
      (
        record {
          clients = deactivate pa (deactivate pb s.clients);
          log = (qb, to_b) ∷ (qa, to_a) ∷ s.log;
        },
        to_a,
        to_b,
        ap (λ c. c.log) dialled,
        rw (sym fa, sym fb) served,
        refl,
        rw (run-append (system_v qa) pa garbage delivers (dials pb) (hears to_a ∷ []) a, dialled)
            (unfold run in answered ∙ ap (λ q. talk_queue q true) (reads qb ib)),
        called (system_v qb) pb garbage delivers to_b b hb refl
            ∙ ap (λ q. talk_queue q false) (reads qa ia),
      )

  -- In a conversation of two clients that the server paired while they were free, one types
  -- DISCONNECT and the other hears it. If the queues take this message, which has the type that the last
  -- one had, and the DISCONNECT of each to the server, each then stands at the loop of `main` and has sent the server
  -- one DISCONNECT; and when the server has served both, its list of clients is what it was before
  -- the conversation.
  pub goodbye-parts :
      (s s' : Server) (a b : Client ℤ) (ca cb : Bool)
      → serve sp serves (asked pa pb) s ≡ ok s'
      → a.place ≡ talk_input qb ca
      → b.place ≡ talk_queue qa cb
      → pa ≢ pb
      → find s.clients pa ≢ minus_one
      → find s.clients pb ≢ minus_one
      → IsInt pb
      → let last : Message = record a.said { text = goodbye } in
        delivers (partner qb) last ≡ true
        → delivers server (farewell (system_v qa) pa last) ≡ true
        → delivers server (farewell (system_v qb) pb last) ≡ true
        → let a' = turn (system_v qa) pa garbage delivers (looks none (line goodbye)) a in
          let b' = turn (system_v qb) pb garbage delivers (hears last) b in
          (bye_a : Message) × (bye_b : Message) × (a'.log
            ≡ (server, bye_a) ∷ (partner qb, last) ∷ a.log)
          × (b'.log ≡ (server, bye_b) ∷ b.log)
          × (a'.place ≡ back ca)
          × (b'.place ≡ back cb)
          × (serve_all sp serves (bye_a ∷ bye_b ∷ []) s' ≡ ok (record s' { clients = s.clients }))
  goodbye-parts s s' a b ca cb h ha hb n fa fb ip d da db =
      let last : Message = record a.said { text = goodbye } in
      let bye_a = farewell (system_v qa) pa last in
      let bye_b = farewell (system_v qb) pb last in
      let qa' = says_goodbye (system_v qa) pa garbage delivers qb ca a d da ha in
      let qb' = hears_bye (system_v qb) pb garbage delivers last qa cb b hb refl db in
      (
        bye_a,
        bye_b,
        ap (λ c. c.log) qa',
        ap (λ c. c.log) qb',
        ap (λ c. c.place) qa',
        ap (λ c. c.place) qb',
        byes-leaves sp serves bye_a bye_b s' refl refl
            ∙ (connect-disconnect sp serves (asked pa pb) s s' pb refl (reads pb ip) n fb fa h).0,
      )

-- ===== src/Chat/Server/Pairing.antt =====
-- lab06/src/SystemV/server.c: which clients are free, through CONNECT, DISCONNECT and the rest.
use agh_sem4_sysopy.Common.{
  inl, inr, ap, ◌∙◌, List, ◌∷◌, ◌≡◌, refl, sym, ◌⊎◌, ◌≢◌, Bool, true, false, [], arith,
}
use mathlib.Core.List.{append-nil}
use agh_sem4_sysopy.Common.Int.{ℤ, eq_of_eqb_ℤ, eqb_ℤ_refl}
use agh_sem4_sysopy.Libc.Numbers.{print_int, strtol, to_int, IsInt, strtol-print_int}
use agh_sem4_sysopy.Chat.Message.{Message, disconnect, list, connect}
use agh_sem4_sysopy.Chat.Server.{
  Client, Server, ok, exits, find, set_active, deactivate, minus_one, msgsnd, handle_connect,
  handle_disconnect, handle_list, serve, serve_all,
}

find-deactivate_self : (id : ℤ) (cs : List Client) → find (deactivate id cs) id ≡ minus_one
unfolding find set_active
find-deactivate_self id [] = refl
find-deactivate_self id (c ∷ cs) = ground (arith, find-deactivate_self id cs)

find-deactivate :
    (x id : ℤ) (cs : List Client) → find cs id ≡ minus_one → find (deactivate x cs) id ≡ minus_one
unfolding find set_active
find-deactivate x id [] h = refl
find-deactivate x id (c ∷ cs) h = ground (arith, find-deactivate x id cs)

-- Setting the mark of one client does not move another.
find-set_active_ne :
    (b : Bool) (x id : ℤ) (cs : List Client) → x ≢ id → find (set_active b x cs) id ≡ find cs id
unfolding find set_active
find-set_active_ne b x id [] h = refl
find-set_active_ne b x id (c ∷ cs) h =
    ground (arith, eq_of_eqb_ℤ c.id x, eq_of_eqb_ℤ c.id id, find-set_active_ne b x id cs h)

set_active_comm :
    (b d : Bool) (x y : ℤ) (cs : List Client)
    → x ≢ y
    → set_active b x (set_active d y cs) ≡ set_active d y (set_active b x cs)
unfolding set_active
set_active_comm b d x y [] h = refl
set_active_comm b d x y (c ∷ cs) h =
    ground (arith, eq_of_eqb_ℤ c.id x, eq_of_eqb_ℤ c.id y, set_active_comm b d x y cs h)

same_mark : (c : Client) → c.active ≡ true → record c { active = true } ≡ c
same_mark c e = ground arith

-- A free client that was marked busy and then free again is as it was.
set_active-deactivate :
    (id : ℤ) (cs : List Client)
    → find cs id ≢ minus_one
    → set_active true id (deactivate id cs) ≡ cs
unfolding find set_active
set_active-deactivate id [] h = refl
set_active-deactivate id (c ∷ cs) h = ground (arith, same_mark c, set_active-deactivate id cs)

-- Freeing two clients that were marked busy, in either order.
free_both :
    (x y : ℤ) (cs : List Client)
    → x ≢ y
    → find cs x ≢ minus_one
    → find cs y ≢ minus_one
    → (set_active true y (set_active true x (deactivate x (deactivate y cs))) ≡ cs)
      × (set_active true x (set_active true y (deactivate x (deactivate y cs))) ≡ cs)
free_both x y cs n f g =
    let stays : find (deactivate y cs) x ≢ minus_one =
      λ e. f (sym (find-set_active_ne false y x cs (λ q. n (sym q))) ∙ e) in
    (
      ap (set_active true y) (set_active-deactivate x (deactivate y cs) stays)
          ∙ set_active-deactivate y cs g,
      ap (set_active true x) (
            set_active_comm true false y x (deactivate y cs) (λ q. n (sym q))
            ∙ ap (deactivate x) (set_active-deactivate y cs g))
          ∙ set_active-deactivate x cs f,
    )

-- The DISCONNECT of one client.
abbrev pub leaves : ℤ → Message
leaves pid = record { type = disconnect; sender_pid = pid; text = [] }

module _ (getpid : ℤ) (delivers : ℤ → Bool) where
  -- A CONNECT between two free clients whose queues take messages: each of the two is sent one
  -- message, whose text reads as the queue of the other, and `find` then finds neither.
  pub handle_connect-pairs :
      (message : Message) (s : Server) (id : ℤ)
      → to_int (strtol message.text) ≡ id
      → find s.clients id ≢ minus_one
      → find s.clients message.sender_pid ≢ minus_one
      → delivers (find s.clients id) ≡ true
      → delivers (find s.clients message.sender_pid) ≡ true
      → IsInt (find s.clients id)
      → IsInt (find s.clients message.sender_pid)
      → (s' : Server) × (to_sender : Message) × (to_other : Message) × (handle_connect getpid
            delivers message s
          ≡ ok s')
        × (s'.log
            ≡ (find s.clients id, to_other)
              ∷ (find s.clients message.sender_pid, to_sender)
              ∷ s.log)
        × (to_int (strtol to_sender.text) ≡ find s.clients id)
        × (to_int (strtol to_other.text) ≡ find s.clients message.sender_pid)
        × (find s'.clients id ≡ minus_one)
        × (find s'.clients message.sender_pid ≡ minus_one)
  unfolding handle_connect msgsnd
  handle_connect-pairs message s id e p f dp df ip if' =
      let sender = message.sender_pid in
      let cs = deactivate sender (deactivate id s.clients) in
      let pqd = find s.clients id in
      let fqd = find s.clients sender in
      let m1 : Message = record message { sender_pid = getpid; text = print_int pqd } in
      let m2 : Message = record message { sender_pid = getpid; text = print_int fqd } in
      (
        record { clients = cs; log = (pqd, m2) ∷ (fqd, m1) ∷ s.log },
        m1,
        m2,
        rw e (ground (arith, eq_of_eqb_ℤ pqd minus_one, eq_of_eqb_ℤ fqd minus_one)),
        refl,
        ap (λ t. to_int (strtol t)) (sym (append-nil (print_int pqd)))
            ∙ strtol-print_int pqd [] ip tt,
        ap (λ t. to_int (strtol t)) (sym (append-nil (print_int fqd)))
            ∙ strtol-print_int fqd [] if' tt,
        find-deactivate sender id (deactivate id s.clients) (find-deactivate_self id s.clients),
        find-deactivate_self sender (deactivate id s.clients),
      )

  -- The clients after a CONNECT between two free clients that did not end the server.
  connect-clients :
      (message : Message) (s s' : Server) (id : ℤ)
      → message.type ≡ connect
      → to_int (strtol message.text) ≡ id
      → find s.clients id ≢ minus_one
      → find s.clients message.sender_pid ≢ minus_one
      → serve getpid delivers message s ≡ ok s'
      → s'.clients ≡ deactivate message.sender_pid (deactivate id s.clients)
  unfolding serve handle_connect msgsnd
  connect-clients message s s' id t e p f h = ground (
    arith,
    eq_of_eqb_ℤ (find s.clients id) minus_one,
    eq_of_eqb_ℤ (find s.clients message.sender_pid) minus_one,
  )

  -- A CONNECT between two different free clients, and then the DISCONNECT of both, in the order
  -- that they come in, leave the list of clients as it was.
  pub connect-disconnect :
      (message : Message) (s s' : Server) (id : ℤ)
      → message.type ≡ connect
      → to_int (strtol message.text) ≡ id
      → message.sender_pid ≢ id
      → find s.clients id ≢ minus_one
      → find s.clients message.sender_pid ≢ minus_one
      → serve getpid delivers message s ≡ ok s'
      → (serve_all getpid delivers (leaves message.sender_pid ∷ leaves id ∷ []) s'
          ≡ ok (record s' { clients = s.clients }))
        × (serve_all getpid delivers (leaves id ∷ leaves message.sender_pid ∷ []) s'
            ≡ ok (record s' { clients = s.clients }))
  unfolding serve serve_all handle_disconnect
  connect-disconnect message s s' id t e n p f h =
      let c = connect-clients message s s' id t e p f h in
      let both = free_both message.sender_pid id s.clients n f p in
      (
        ap (λ cs. ok (record s' { clients = cs }))
            (ap (λ cs. set_active true id (set_active true message.sender_pid cs)) c ∙ both.0),
        ap (λ cs. ok (record s' { clients = cs }))
            (ap (λ cs. set_active true message.sender_pid (set_active true id cs)) c ∙ both.1),
      )

  refused :
      (message : Message) (s : Server)
      → (message.type ≡ connect) ⊎ (message.type ≡ list)
      → find s.clients message.sender_pid ≡ minus_one
      → delivers minus_one ≡ false
      → serve getpid delivers message s ≡ exits s
  unfolding serve handle_connect handle_list msgsnd
  refused message s t f d = ground (arith, eqb_ℤ_refl minus_one)

  -- After a CONNECT between two free clients, the next message being a CONNECT or a LIST from one of the
  -- two, who are busy now: it ends the server, whatever else was to be served, if `msgsnd` refuses the
  -- descriptor -1.
  pub serve-busy :
      (message : Message) (s s' : Server) (id : ℤ)
      → message.type ≡ connect
      → to_int (strtol message.text) ≡ id
      → find s.clients id ≢ minus_one
      → find s.clients message.sender_pid ≢ minus_one
      → serve getpid delivers message s ≡ ok s'
      → (next : Message) → (next.type ≡ connect) ⊎ (next.type ≡ list)
      → (next.sender_pid ≡ message.sender_pid) ⊎ (next.sender_pid ≡ id)
      → delivers minus_one ≡ false
      → (rest : List Message) → serve_all getpid delivers (message ∷ next ∷ rest) s ≡ exits s'
  unfolding serve_all
  serve-busy message s s' id t e p f h next kind from d rest =
      let c = connect-clients message s s' id t e p f h in
      let busy : find s'.clients next.sender_pid ≡ minus_one = elim from [
        | inl q ↦
            ap (λ i. find s'.clients i) q
            ∙ ap (λ cs. find cs message.sender_pid) c
            ∙ find-deactivate_self message.sender_pid (deactivate id s.clients)
        | inr q ↦
            ap (λ i. find s'.clients i) q
            ∙ ap (λ cs. find cs id) c
            ∙ find-deactivate message.sender_pid id (deactivate id s.clients)
                (find-deactivate_self id s.clients)
      ] in
      rw (h, refused next s' kind busy d) refl

-- ===== src/Chat/Server/Distinct.antt =====
-- lab06/src/SystemV/server.c: the ids of the clients stay distinct, and what `exit_handler` sends.
use agh_sem4_sysopy.Common.{
  ◌≡◌, refl, sym, inl, inr, ◌≢◌, Bool, true, false, List, [], ◌∷◌, subst, ◌++◌, arith, Bool-cases,
  without,
}
use agh_sem4_sysopy.Common.Int.{ℤ, eqb_ℤ, eq_of_eqb_ℤ, eqb_ℤ_refl}
use agh_sem4_sysopy.Libc.Numbers.{strtol, to_int}
use agh_sem4_sysopy.Chat.Message.{Message, stop, init}
use agh_sem4_sysopy.Chat.Server.{
  Client, has_id, Server, Outcome, ok, exits, find, set_active, deactivate, minus_one, msgsnd,
  handle_init, handle_connect, handle_disconnect, handle_list, handle_stop, serve, stop_all,
  exit_handler,
}
use agh_sem4_sysopy.Chat.Server.Registry.{removeclient-without}

-- No client of the list has the id.
abbrev pub IsFresh : ℤ → List Client → Type 0
IsFresh id [] = Unit
IsFresh id (c ∷ cs) = (c.id ≢ id) × IsFresh id cs

abbrev pub IsDistinct : List Client → Type 0
IsDistinct [] = Unit
IsDistinct (c ∷ cs) = IsFresh c.id cs × IsDistinct cs

set_active-IsFresh :
    (b : Bool) (x id : ℤ) (cs : List Client) → IsFresh id cs → IsFresh id (set_active b x cs)
unfolding set_active
set_active-IsFresh b x id [] f = tt
set_active-IsFresh b x id (c ∷ cs) f = ground (arith, set_active-IsFresh b x id cs f.1)

set_active-IsDistinct :
    (b : Bool) (x : ℤ) (cs : List Client) → IsDistinct cs → IsDistinct (set_active b x cs)
unfolding set_active
set_active-IsDistinct b x [] d = tt
set_active-IsDistinct b x (c ∷ cs) d =
    ground (arith, set_active-IsFresh b x c.id cs d.0, set_active-IsDistinct b x cs d.1)

without-IsFresh : (x id : ℤ) (cs : List Client) → IsFresh id cs → IsFresh id (without (has_id x) cs)
unfolding without
without-IsFresh x id [] f = tt
without-IsFresh x id (c ∷ cs) f = ground (arith, without-IsFresh x id cs f.1)

without-IsDistinct : (x : ℤ) (cs : List Client) → IsDistinct cs → IsDistinct (without (has_id x) cs)
unfolding without
without-IsDistinct x [] d = tt
without-IsDistinct x (c ∷ cs) d =
    ground (arith, without-IsFresh x c.id cs d.0, without-IsDistinct x cs d.1)

append-IsFresh :
    (id : ℤ) (cs : List Client) (new : Client)
    → IsFresh id cs
    → new.id ≢ id
    → IsFresh id (cs ++ new ∷ [])
append-IsFresh id [] new f n = (n, tt)
append-IsFresh id (c ∷ cs) new f n = (f.0, append-IsFresh id cs new f.1 n)

append-IsDistinct :
    (cs : List Client) (new : Client)
    → IsDistinct cs
    → IsFresh new.id cs
    → IsDistinct (cs ++ new ∷ [])
append-IsDistinct [] new d f = (tt, tt)
append-IsDistinct (c ∷ cs) new d f =
    (append-IsFresh c.id cs new d.0 (λ e. f.0 (sym e)), append-IsDistinct cs new d.1 f.1)

find-IsFresh : (id : ℤ) (cs : List Client) → IsFresh id cs → find cs id ≡ minus_one
unfolding find
find-IsFresh id [] f = refl
find-IsFresh id (c ∷ cs) f = ground (arith, eq_of_eqb_ℤ c.id id, find-IsFresh id cs f.1, f.0)

without-gone : (id : ℤ) (cs : List Client) → IsDistinct cs → IsFresh id (without (has_id id) cs)
unfolding without
without-gone id [] d = tt
without-gone id (c ∷ cs) d = elim (Bool-cases (eqb_ℤ c.id id)) [
  | inl e ↦ rw e (subst (λ k. IsFresh k cs) (eq_of_eqb_ℤ c.id id e) d.0)
  | inr e ↦ rw e (
    (λ q. (cc (e, subst (λ k. eqb_ℤ k id ≡ true) (sym q) (eqb_ℤ_refl id)))),
    without-gone id cs d.1,
  )
]

-- The clients of an outcome, also where the server ends.
abbrev pub server_of : Outcome → Server
server_of (ok s) = s
server_of (exits s) = s

module _ (getpid : ℤ) (delivers : ℤ → Bool) (message : Message) (s : Server) where
  abbrev clients_of : Outcome → List Client
  clients_of r = (server_of r).clients

  init-IsDistinct :
      IsDistinct s.clients
      → IsFresh message.sender_pid s.clients
      → IsDistinct (clients_of (handle_init getpid delivers message s))
  unfolding handle_init msgsnd
  init-IsDistinct d f =
      let new : Client = record {
        pqd = to_int (strtol message.text);
        id = message.sender_pid;
        active = true;
      } in
      ground (arith, append-IsDistinct s.clients new d f)

  connect-IsDistinct :
      IsDistinct s.clients → IsDistinct (clients_of (handle_connect getpid delivers message s))
  unfolding handle_connect msgsnd
  connect-IsDistinct d =
      let id = to_int (strtol message.text) in
      ground (
        arith,
        set_active-IsDistinct false message.sender_pid (deactivate id s.clients)
            (set_active-IsDistinct false id s.clients d),
      )

  list-IsDistinct :
      IsDistinct s.clients → IsDistinct (clients_of (handle_list getpid delivers message s))
  unfolding handle_list msgsnd
  list-IsDistinct d = ground arith

  stop-clients :
      clients_of (handle_stop getpid delivers message s)
      ≡ without (has_id message.sender_pid) s.clients
  unfolding handle_stop
  stop-clients = removeclient-without message.sender_pid s.clients

  disconnect-IsDistinct :
      IsDistinct s.clients → IsDistinct (clients_of (handle_disconnect getpid delivers message s))
  unfolding handle_disconnect
  disconnect-IsDistinct d = set_active-IsDistinct true message.sender_pid s.clients d

  stop-IsDistinct :
      IsDistinct s.clients → IsDistinct (clients_of (handle_stop getpid delivers message s))
  stop-IsDistinct d = rw stop-clients (without-IsDistinct message.sender_pid s.clients d)

  -- Every message keeps the ids distinct, if an INIT comes from a client that is not yet listed;
  -- and after a STOP its sender is found no more.
  pub serve-IsDistinct :
      IsDistinct s.clients
      → (message.type ≡ init → IsFresh message.sender_pid s.clients)
      → IsDistinct (server_of (serve getpid delivers message s)).clients
        × (message.type ≡ stop
            → find (server_of (serve getpid delivers message s)).clients message.sender_pid
              ≡ minus_one)
  unfolding serve
  serve-IsDistinct d new =
      let i = init-IsDistinct d in
      let c = connect-IsDistinct d in
      let l = list-IsDistinct d in
      let q = disconnect-IsDistinct d in
      let p = stop-IsDistinct d in
      (
        ground arith,
        λ e.
            let gone =
              find-IsFresh message.sender_pid _ (without-gone message.sender_pid s.clients d) in
            ground (arith, stop-clients),
      )

-- One STOP for each client, in the order of the list, put on a log.
unfoldable pub stops_on : ℤ → List Client → List (ℤ × Message) → List (ℤ × Message)
stops_on getpid [] log = log
stops_on getpid (c ∷ cs) log =
    stops_on getpid cs ((c.pqd, record { type = stop; sender_pid = getpid; text = [] }) ∷ log)

-- Every client's queue takes messages.
abbrev pub AllDeliver : (ℤ → Bool) → List Client → Type 0
AllDeliver delivers [] = Unit
AllDeliver delivers (c ∷ cs) = (delivers c.pqd ≡ true) × AllDeliver delivers cs

stop_all-stops_on :
    (getpid : ℤ) (delivers : ℤ → Bool) (cs : List Client) (s : Server)
    → AllDeliver delivers cs
    → stop_all getpid delivers cs s ≡ exits (record s { log = stops_on getpid cs s.log })
unfolding stop_all stops_on
stop_all-stops_on getpid delivers [] s h = refl
stop_all-stops_on getpid delivers (c ∷ cs) s h =
    rw (h.0, stop_all) (stop_all-stops_on getpid delivers cs _ h.1)

-- On SIGINT the server sends one STOP to each client, in the order of its list, and ends.
pub exit_handler-stops_on :
    (getpid : ℤ) (delivers : ℤ → Bool) (s : Server)
    → AllDeliver delivers s.clients
    → exit_handler getpid delivers s ≡ exits (record s { log = stops_on getpid s.clients s.log })
unfolding exit_handler
exit_handler-stops_on getpid delivers s h = stop_all-stops_on getpid delivers s.clients s h

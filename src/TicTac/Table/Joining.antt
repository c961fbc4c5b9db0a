-- ===== src/TicTac/Table/Joining.antt =====
-- lab10/tcp/src/server.c: what `accepting_routine` does to the table of clients.
use agh_sem4_sysopy.Common.{
  ℕ, zero, suc, ◌<◌, ◌≡◌, refl, inl, inr, true, false, List, [], ◌∷◌, Option, none, some, arith,
  length-set, set, get_or-set, ap, if◌then◌else◌, Bool-cases, Option-cases, ◌∙◌, first_index, Found,
  first_index-some, ◌==◌,
}
use mathlib.Core.Path.{ap₂}
use agh_sem4_sysopy.Libc.Strings.{strncpy, strn_eq-strncpy}
use agh_sem4_sysopy.TicTac.Message.{
  MessageData, Client, Message, client_name_len, MessageType, msg_waiting,
}
use agh_sem4_sysopy.TicTac.Server.{no_client, Server, write}
use agh_sem4_sysopy.TicTac.Table.{
  is_connect, check_username, is_pending, is_free, create_client, connect_pending, join_table,
  accepting_routine, Accept, fatal, duplicate, waits, plays,
}
use agh_sem4_sysopy.TicTac.Table.Search.{slot, check_username-true}
use agh_sem4_sysopy.TicTac.Table.Invariant.{IsTable, set-distinct, set-Renames, none_pending}

-- The new client's slot after `create_client`.
abbrev new_client : ℕ → List ℕ → Client
new_client fd name = record {
  taken = true;
  playing = true;
  name = strncpy client_name_len name;
  socket_fd = fd;
}

-- Where `create_client` put the client.
record IsCreated (s : Server) (fd : ℕ) (name : List ℕ) (id : ℕ) (s1 : Server) : Type 0 where
  in_range : id < 32
  was_free : (slot s.clients id).taken ≡ false
  written : s1.clients ≡ set s.clients id (new_client fd name)
  log : s1.log ≡ s.log

create_client-some :
    (s s1 : Server) (fd : ℕ) (name : List ℕ) (id : ℕ)
    → IsTable s.clients
    → create_client s fd name ≡ some (id, s1)
    → IsCreated s fd name id s1
unfolding create_client
create_client-some s s1 fd name id t e = elim (Option-cases (first_index is_free 0 s.clients)) [
  | inl n ↦ absurd (ground arith)
  | inr (i, q) ↦
      let f = first_index-some is_free no_client s.clients i q in
      record {
        in_range = ground (arith, f.in_range, t.size);
        was_free = ground (arith, f.passes);
        written = ground arith;
        log = ground arith;
      }
]

create_client-IsTable :
    (s : Server) (fd : ℕ) (name : List ℕ) (id : ℕ)
    → IsTable s.clients
    → check_username s.clients name ≡ true
    → id < 32
    → (slot s.clients id).taken ≡ false
    → IsTable (set s.clients id (new_client fd name))
create_client-IsTable s fd name id t fresh h free = record {
  size = omega (arith, length-set s.clients id (new_client fd name), t.size);
  distinct = set-distinct s.clients id (new_client fd name) t h λ j n a b.
      strn_eq-strncpy client_name_len name (slot s.clients j).name
      ∙ check_username-true s.clients name fresh j a;
  one_pending = λ i j a b. ground (
    arith,
    t.size,
    get_or-set s.clients id i (new_client fd name) no_client,
    get_or-set s.clients id j (new_client fd name) no_client,
    t.one_pending i j,
  );
}

-- The outcome of `connect_pending` for the client `id`.
abbrev Paired : Server → ℕ → Option ℕ × Server → Type 0
Paired s id (some i, s1) =
    IsTable s1.clients
    × (is_pending (slot s.clients i) ≡ true)
    × (s1.clients ≡ set s.clients i (record (slot s.clients i) { playing = true }))
    × ((j : ℕ) → is_pending (slot s1.clients j) ≡ false)
Paired s id (none, s1) =
    IsTable s1.clients
    × (s1.clients ≡ set s.clients id (record (slot s.clients id) { playing = false }))
    × ((j : ℕ) → is_pending (slot s.clients j) ≡ false)

-- Clearing the mark of the client that waits leaves nobody waiting.
none_left :
    (clients : List Client) (i : ℕ)
    → IsTable clients
    → i < 32
    → is_pending (slot clients i) ≡ true
    → (j : ℕ)
    → is_pending (slot (set clients i (record (slot clients i) { playing = true })) j) ≡ false
none_left clients i t h p j = ground (
  arith,
  t.size,
  t.one_pending i j p,
  get_or-set clients i j (record (slot clients i) { playing = true }) no_client,
)

paired :
    (s : Server) (id i : ℕ)
    → IsTable s.clients
    → Found is_pending no_client s.clients i
    → Paired s id (
      some i,
      record s { clients = set s.clients i (record (slot s.clients i) { playing = true }) },
    )
paired s id i t f =
    let h : i < 32 = omega (arith, f.in_range, t.size) in
    let left = none_left s.clients i t h f.passes in
    (
      set-Renames s.clients i _ t h (λ e. ground (arith, f.passes), refl)
          (λ a b p q. absurd (ground (arith, left a))),
      f.passes,
      refl,
      left,
    )

connect_pending-Paired :
    (s : Server) (id : ℕ)
    → IsTable s.clients
    → id < 32
    → (slot s.clients id).taken ≡ true
    → Paired s id (connect_pending s id)
unfolding connect_pending
connect_pending-Paired s id t h took = elim (Option-cases (first_index is_pending 0 s.clients)) [
  | inl n ↦
      rw (n, connect_pending, Paired)
        (
          set-Renames s.clients id _ t h (λ e. took, refl)
              (λ i j a b. ground (
                arith,
                t.size,
                get_or-set s.clients id i (record (slot s.clients id) { playing = false })
                    no_client,
                get_or-set s.clients id j (record (slot s.clients id) { playing = false })
                    no_client,
                none_pending s.clients n i,
                none_pending s.clients n j,
              )),
          refl,
          none_pending s.clients n,
        )
  | inr (i, q) ↦
      rw (q, connect_pending, Paired)
        (paired s id i t (first_index-some is_pending no_client s.clients i q))
]

-- What each outcome of a connection says of the table.
abbrev pub Accepted : Server → ℕ → List ℕ → Accept → Type 0
Accepted s fd name (fatal s') = s' ≡ s
Accepted s fd name (duplicate s') = s'.clients ≡ s.clients
Accepted s fd name (waits id s') =
    IsTable s'.clients
    × ((slot s.clients id).taken ≡ false)
    × (s'.clients ≡ set s.clients id (record (new_client fd name) { playing = false }))
    × ((j : ℕ) → is_pending (slot s.clients j) ≡ false)
Accepted s fd name (plays i id s') =
    IsTable s'.clients
    × ((slot s.clients id).taken ≡ false)
    × (is_pending (slot s.clients i) ≡ true)
    × (s'.clients
        ≡ set (set s.clients id (new_client fd name)) i
            (record (slot s.clients i) { playing = true }))
    × ((j : ℕ) → is_pending (slot s'.clients j) ≡ false)

set-set {ℓ} : {A : Type ℓ} (xs : List A) (i : ℕ) (a b : A) → set (set xs i a) i b ≡ set xs i b
set-set [] i a b = refl
set-set (x ∷ xs) zero a b = refl
set-set (x ∷ xs) (suc i) a b = ap (λ r. x ∷ r) (set-set xs i a b)

-- The new slot is taken and plays; every other slot is as it was.
slot-created :
    (s s1 : Server) (fd : ℕ) (name : List ℕ) (id j : ℕ)
    → IsTable s.clients
    → IsCreated s fd name id s1
    → slot s1.clients j ≡ (if id == j then new_client fd name else slot s.clients j)
slot-created s s1 fd name id j t c =
    rw c.written
      (get_or-set s.clients id j (new_client fd name) no_client (omega (arith, t.size, c.in_range)))

join_table-Accepted :
    (s s1 : Server) (msg : Message) (fd : ℕ) (name : List ℕ) (id : ℕ)
    → IsTable s.clients
    → check_username s.clients name ≡ true
    → IsCreated s fd name id s1
    → Accepted s fd name (join_table msg fd (id, s1))
unfolding join_table
join_table-Accepted s s1 msg fd name id t fresh c =
    joined (connect_pending s1 id)
      (connect_pending-Paired s1 id table c.in_range (ground (arith, here id)))
  where
    here : (j : ℕ) → slot s1.clients j ≡ (if id == j then new_client fd name else slot s.clients j)
    here j = slot-created s s1 fd name id j t c

    table : IsTable s1.clients
    table = rw c.written (create_client-IsTable s fd name id t fresh c.in_range c.was_free)

    joined :
        (r : Option ℕ × Server)
        → Paired s1 id r
        → Accepted s fd name (elim (r.0) [
          | some i ↦ plays i id r.1
          | none ↦ waits id (write r.1 fd (record msg { type = msg_waiting }))
        ])
    joined (some i, s2) (a, b, d, e) =
        let same : slot s1.clients i ≡ slot s.clients i = ground (arith, here i) in
        (
          a,
          c.was_free,
          rw (← same) b,
          d ∙ ap₂ {B = Client} (λ l k. set l i (record k { playing = true })) c.written same,
          e,
        )
    joined (none, s2) (a, b, d) =
        let same : slot s1.clients id ≡ new_client fd name = ground (arith, here id) in
        (
          a,
          c.was_free,
          b
              ∙ ap₂ {B = Client} (λ l k. set l id (record k { playing = false })) c.written same
              ∙ set-set s.clients id _ _,
          λ j. ground (arith, d j, here j, c.was_free),
        )

-- A connection to a table whose names are distinct and where at most one client waits. It is refused
-- with the table unchanged if it is no MSG_CONNECT, if its name is taken or if no slot is free; else
-- the client takes a free slot, and either plays the one client that waited, so that nobody waits,
-- or waits itself because nobody did. Every other slot stays, and the table is again such a table.
pub accepting_routine-Accepted :
    (s : Server) (fd : ℕ) (type : MessageType) (name : List ℕ) (symbol : ℕ)
    → IsTable s.clients
    → Accepted s fd name (accepting_routine s fd type name symbol)
unfolding accepting_routine
accepting_routine-Accepted s fd type name symbol t = elim (Bool-cases (is_connect type)) [
  | inr e ↦ rw (e, Accepted) refl
  | inl e ↦ elim (Bool-cases (check_username s.clients name)) [
    | inr f ↦ rw (e, f, Accepted) refl
    | inl f ↦ rw (e, f) (created (create_client s fd name) refl f)
  ]
]
  where
    created :
        (r : Option (ℕ × Server))
        → create_client s fd name ≡ r
        → check_username s.clients name ≡ true
        → Accepted s fd name (elim r [
          | none ↦ fatal s
          | some (id, s1) ↦
              join_table
                (record { type = type; content = MessageData.init name symbol })
                fd
                (id, s1)
        ])
    created none e f = refl
    created (some (id, s1)) e f =
        join_table-Accepted s s1 _ fd name id t f (create_client-some s s1 fd name id t e)

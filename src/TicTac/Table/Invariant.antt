-- ===== src/TicTac/Table/Invariant.antt =====
-- lab10/tcp/src/server.c: what `accepting_routine` and `disconnect_client` keep of the table of
-- clients.
use agh_sem4_sysopy.Common.{
  ℕ, zero, suc, ◌≤◌, ◌<◌, ◌≡◌, refl, ◌≢◌, true, false, List, [], ◌∷◌, none, arith, length,
  length-set, set, get_or-set, replicate, first_index, first_index-none,
}
use agh_sem4_sysopy.Libc.Strings.{strn_eq, strn_eq_comm}
use agh_sem4_sysopy.TicTac.Message.{Client, client_name_len}
use agh_sem4_sysopy.TicTac.Server.{init_clients, no_client, Server, disconnect_client}
use agh_sem4_sysopy.TicTac.Table.{is_pending}
use agh_sem4_sysopy.TicTac.Table.Search.{slot}

-- Names of connected clients are distinct as `strncmp` sees them, and at most one client waits.
pub record IsTable (clients : List Client) : Type 0 where
  pub size : length clients ≡ 32
  pub distinct :
      (i j : ℕ)
      → i ≢ j
      → (slot clients i).taken ≡ true
      → (slot clients j).taken ≡ true
      → strn_eq client_name_len (slot clients i).name (slot clients j).name ≡ false
  pub one_pending :
      (i j : ℕ) → is_pending (slot clients i) ≡ true → is_pending (slot clients j) ≡ true → i ≡ j

-- Writing one slot with a name that is new keeps the names distinct.
pub set-distinct :
    (clients : List Client) (id : ℕ) (c : Client)
    → IsTable clients
    → id < 32
    → ((j : ℕ)
        → j ≢ id
        → (slot clients j).taken ≡ true
        → c.taken ≡ true
        → strn_eq client_name_len c.name (slot clients j).name ≡ false)
    → (i j : ℕ) → i ≢ j
    → (slot (set clients id c) i).taken ≡ true
    → (slot (set clients id c) j).taken ≡ true
    → strn_eq client_name_len (slot (set clients id c) i).name (slot (set clients id c) j).name
      ≡ false
set-distinct clients id c t h fresh i j n a b = ground (
  arith,
  get_or-set clients id i c no_client,
  get_or-set clients id j c no_client,
  t.size,
  fresh i,
  fresh j,
  t.distinct i j,
  strn_eq_comm client_name_len c.name (slot clients i).name,
)

-- A slot written with a client of its own name, or one that is no longer taken.
abbrev pub Renames : List Client → ℕ → Client → Type 0
Renames clients id c =
    (c.taken ≡ true → (slot clients id).taken ≡ true) × (c.name ≡ (slot clients id).name)

pub set-Renames :
    (clients : List Client) (id : ℕ) (c : Client)
    → IsTable clients
    → id < 32
    → Renames clients id c
    → ((i j : ℕ)
        → is_pending (slot (set clients id c) i) ≡ true
        → is_pending (slot (set clients id c) j) ≡ true
        → i ≡ j)
    → IsTable (set clients id c)
set-Renames clients id c t h same one = record {
  size = omega (arith, length-set clients id c, t.size);
  distinct =
      set-distinct clients id c t h (λ j n a b. ground (arith, same.0, same.1, t.distinct id j));
  one_pending = one;
}

pub disconnect_client-IsTable :
    (s : Server) (id : ℕ) → id < 32 → IsTable s.clients → IsTable (disconnect_client s id).clients
unfolding disconnect_client
disconnect_client-IsTable s id h t =
    set-Renames s.clients id _ t h (λ e. absurd (ground arith), refl)
      λ i j a b. ground (
        arith,
        t.size,
        get_or-set s.clients id i (record (slot s.clients id) { taken = false }) no_client,
        get_or-set s.clients id j (record (slot s.clients id) { taken = false }) no_client,
        t.one_pending i j,
      )

pub no_slot : (clients : List Client) (j : ℕ) → length clients ≤ j → slot clients j ≡ no_client
no_slot [] j h = refl
no_slot (c ∷ clients) zero h = absurd (omega arith)
no_slot (c ∷ clients) (suc j) h = no_slot clients j (omega arith)

pub none_pending :
    (clients : List Client)
    → first_index is_pending 0 clients ≡ none
    → (j : ℕ) → is_pending (slot clients j) ≡ false
none_pending clients n j =
    ground (arith, no_slot clients j, first_index-none is_pending no_client 0 clients n j)

replicate-slot : (n j : ℕ) → slot (replicate n no_client) j ≡ no_client
replicate-slot zero j = refl
replicate-slot (suc n) zero = refl
replicate-slot (suc n) (suc j) = replicate-slot n j

-- The table that `init_clients` leaves is empty.
pub init_clients-IsTable : IsTable init_clients
init_clients-IsTable = record {
  size = refl;
  distinct = λ i j n a b. absurd (ground (arith, replicate-slot 32 i));
  one_pending = λ i j a b. absurd (ground (arith, replicate-slot 32 i));
}

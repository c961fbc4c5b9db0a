-- ===== src/Pizzeria/Kitchen.antt =====
-- lab07/src/SystemV: utils.h, `make_pizza` of cook.c and `deliver` of supplier.c. Any number of cooks
-- and suppliers take turns, a statement at a time; a `semop` on several semaphores is one step. An
-- `int` counter is its 32-bit pattern. A read past the end of an array has no step.
use agh_sem4_sysopy.Common.{
  ℕ, ◌+◌, ◌-◌, ◌%◌, ◌^◌, ◌<◌, ◌≡◌, ◌≢◌, List, length, get_or, set, replicate,
}

abbrev pub oven_cap : ℕ
oven_cap = 5

abbrev pub table_cap : ℕ
table_cap = 5

abbrev pub free : ℕ
free = 0

abbrev pub taken : ℕ
taken = 1

-- `struct pizzeria` and the five semaphores.
pub record Shared : Type 0 where
  pub oven : List ℕ
  pub ovens_taken : ℕ
  pub table : List ℕ
  pub tables_taken : ℕ
  pub table_queue_start : ℕ
  pub oven_place : ℕ
  pub oven_in : ℕ
  pub table_place : ℕ
  pub table_on : ℕ
  pub table_ready : ℕ

abbrev pub increment : ℕ → ℕ
increment n = (n + 1) % 2 ^ 32

abbrev pub decrement : ℕ → ℕ
decrement n = (n + (2 ^ 32 - 1)) % 2 ^ 32

-- `a[i]`
abbrev pub at : List ℕ → ℕ → ℕ
at xs i = get_or xs i free

-- Where a cook stands in `make_pizza`, with the locals that are live there.
pub data Cook : Type 0 where
  preparing : Cook
  entering : Cook
  placing : (i : ℕ) → Cook
  placed : (index : ℕ) → Cook
  baking : (index : ℕ) → Cook
  pulling : (index : ℕ) → Cook
  emptying : (index : ℕ) → Cook
  pulled : Cook
  serving : Cook
  laying : (i : ℕ) → Cook
  stocked : Cook
  laid : Cook

-- One statement of `make_pizza`.
pub data Move (m : Shared) : Cook → Shared → Cook → Type 0 where
  enter :
      0 < m.oven_place
      → 0 < m.oven_in
      → Move m preparing
          (record m { oven_place = m.oven_place - 1; oven_in = m.oven_in - 1 })
          entering
  tally : Move m entering (record m { ovens_taken = increment m.ovens_taken }) (placing 0)
  pass : {i : ℕ} → i < oven_cap → at m.oven i ≢ free → Move m (placing i) m (placing (i + 1))
  place :
      {i : ℕ}
      → i < oven_cap
      → at m.oven i ≡ free
      → Move m (placing i) (record m { oven = set m.oven i taken }) (placed i)
  leave : {i : ℕ} → Move m (placed i) (record m { oven_place = m.oven_place + 1 }) (baking i)
  return :
      {i : ℕ}
      → 0 < m.oven_place
      → Move m (baking i) (record m { oven_place = m.oven_place - 1 }) (pulling i)
  untally :
      {i : ℕ} → Move m (pulling i) (record m { ovens_taken = decrement m.ovens_taken }) (emptying i)
  empty : {i : ℕ} → Move m (emptying i) (record m { oven = set m.oven i free }) pulled
  go_out :
      Move m pulled (record m { oven_place = m.oven_place + 1; oven_in = m.oven_in + 1 }) serving
  approach :
      0 < m.table_place
      → 0 < m.table_on
      → Move m serving
          (record m { table_place = m.table_place - 1; table_on = m.table_on - 1 })
          (laying 0)
  skip : {i : ℕ} → i < table_cap → at m.table i ≢ free → Move m (laying i) m (laying (i + 1))
  lay :
      {i : ℕ} (pizza_no : ℕ)
      → i < table_cap
      → at m.table i ≡ free
      → pizza_no < 10
      → Move m (laying i) (record m { table = set m.table i (pizza_no + 1) }) stocked
  stock : Move m stocked (record m { tables_taken = increment m.tables_taken }) laid
  announce :
      Move m laid
        (record m { table_place = m.table_place + 1; table_ready = m.table_ready + 1 })
        preparing

-- A cook's statements, one after the other.
pub data Moves : Shared → Cook → Shared → Cook → Type 0 where
  done : {m : Shared} {p : Cook} → Moves m p m p
  then :
      {m m' m'' : Shared} {p p' p'' : Cook}
      → Move m p m' p'
      → Moves m' p' m'' p''
      → Moves m p m'' p''

-- Where a supplier stands in `deliver`.
pub data Supplier : Type 0 where
  waiting : Supplier
  looking : (i : ℕ) → Supplier
  found : (index : ℕ) → Supplier
  advanced : (index : ℕ) → Supplier
  wrapped : (index : ℕ) → Supplier
  counted : (index : ℕ) → Supplier

-- `(i + pizzeria->table_queue_start) % TABLE_CAP`
abbrev pub queue_index : Shared → ℕ → ℕ
queue_index m i = (i + m.table_queue_start) % table_cap

-- One statement of `deliver`.
pub data Deliver (m : Shared) : Supplier → Shared → Supplier → Type 0 where
  collect :
      0 < m.table_ready
      → Deliver m waiting
          (record m { table_on = m.table_on + 1; table_ready = m.table_ready - 1 })
          (looking 0)
  miss : {i : ℕ} → at m.table (queue_index m i) ≡ free → Deliver m (looking i) m (looking (i + 1))
  hit :
      {i : ℕ}
      → at m.table (queue_index m i) ≢ free
      → Deliver m (looking i) m (found (queue_index m i))
  advance :
      {x : ℕ}
      → Deliver m
          (found x)
          (record m { table_queue_start = increment m.table_queue_start })
          (advanced x)
  wrap :
      {x : ℕ}
      → Deliver m
          (advanced x)
          (record m { table_queue_start = m.table_queue_start % table_cap })
          (wrapped x)
  uncount :
      {x : ℕ}
      → Deliver m (wrapped x) (record m { tables_taken = decrement m.tables_taken }) (counted x)
  clear : {x : ℕ} → Deliver m (counted x) (record m { table = set m.table x free }) waiting

pub record System : Type 0 where
  pub mem : Shared
  pub cooks : List Cook
  pub suppliers : List Supplier

abbrev pub cook_at : List Cook → ℕ → Cook
cook_at cooks i = get_or cooks i preparing

abbrev pub supplier_at : List Supplier → ℕ → Supplier
supplier_at suppliers j = get_or suppliers j waiting

pub data Step (s : System) : System → Type 0 where
  cook :
      (i : ℕ) {m : Shared} {p : Cook}
      → i < length s.cooks
      → Move s.mem (cook_at s.cooks i) m p
      → Step s (record s { mem = m; cooks = set s.cooks i p })
  supplier :
      (j : ℕ) {m : Shared} {q : Supplier}
      → j < length s.suppliers
      → Deliver s.mem (supplier_at s.suppliers j) m q
      → Step s (record s { mem = m; suppliers = set s.suppliers j q })

-- `main` of pizzeria.c, with N cooks and M suppliers.
abbrev pub opening : ℕ → ℕ → System
opening n m = record {
  mem = record {
    oven = replicate oven_cap free;
    ovens_taken = 0;
    table = replicate table_cap free;
    tables_taken = 0;
    table_queue_start = 0;
    oven_place = 1;
    oven_in = oven_cap;
    table_place = 1;
    table_on = table_cap;
    table_ready = 0;
  };
  cooks = replicate n preparing;
  suppliers = replicate m waiting;
}

pub data Reach (n m : ℕ) : System → Type 0 where
  start : Reach n m (opening n m)
  later : {s t : System} → Reach n m s → Step s t → Reach n m t

-- ===== src/Pizzeria/Posix.antt =====
-- lab07/src/POSIX: `make_pizza` of cook.c and `deliver` of supplier.c, over named semaphores. Cooks and suppliers
-- take turns, an access to the shared memory or a semaphore at a time, so that `x++` is a read and a
-- write; a `sem_post` is taken to succeed, as it does below SEM_VALUE_MAX.
-- The memory is that of SystemV, whose `struct pizzeria` has the same fields.
pub mod Counts
pub mod Laws
mod Tests
use agh_sem4_sysopy.Common.{ℕ, ◌+◌, ◌-◌, ◌%◌, ◌<◌, ◌≡◌, ◌≢◌, List, length, get_or, set, replicate}
use agh_sem4_sysopy.Pizzeria.Kitchen.{Shared, at, free, taken, increment, decrement}

abbrev pub oven_cap : ℕ
oven_cap = 5

abbrev pub table_cap : ℕ
table_cap = 5

-- Where a cook stands in `make_pizza`, with the locals that are live there.
pub data Cook : Type 0 where
  preparing : Cook
  admitted : Cook
  entering : Cook
  tallying : (ovens_taken : ℕ) → Cook
  placing : (i : ℕ) → Cook
  chosen : (i : ℕ) → Cook
  placed : (index : ℕ) → Cook
  baking : (index : ℕ) → Cook
  pulling : (index : ℕ) → Cook
  untallying : (index ovens_taken : ℕ) → Cook
  emptying : (index : ℕ) → Cook
  emptied : Cook
  leaving : Cook
  serving : Cook
  approaching : Cook
  laying : (i : ℕ) → Cook
  picked : (i : ℕ) → Cook
  stocked : Cook
  stocking : (tables_taken : ℕ) → Cook
  laid : Cook
  announced : Cook

-- One access of `make_pizza`.
pub data Move (m : Shared) : Cook → Shared → Cook → Type 0 where
  wait_in : 0 < m.oven_in → Move m preparing (record m { oven_in = m.oven_in - 1 }) admitted
  wait_place :
      0 < m.oven_place → Move m admitted (record m { oven_place = m.oven_place - 1 }) entering
  read_tally : Move m entering m (tallying m.ovens_taken)
  tally : {k : ℕ} → Move m (tallying k) (record m { ovens_taken = increment k }) (placing 0)
  pass : {i : ℕ} → i < oven_cap → at m.oven i ≢ free → Move m (placing i) m (placing (i + 1))
  choose : {i : ℕ} → i < oven_cap → at m.oven i ≡ free → Move m (placing i) m (chosen i)
  place : {i : ℕ} → Move m (chosen i) (record m { oven = set m.oven i taken }) (placed i)
  post_place : {i : ℕ} → Move m (placed i) (record m { oven_place = m.oven_place + 1 }) (baking i)
  return : {i : ℕ} → Move m (baking i) (record m { oven_place = m.oven_place + 1 }) (pulling i)
  read_untally : {i : ℕ} → Move m (pulling i) m (untallying i m.ovens_taken)
  untally :
      {i k : ℕ} → Move m (untallying i k) (record m { ovens_taken = decrement k }) (emptying i)
  empty : {i : ℕ} → Move m (emptying i) (record m { oven = set m.oven i free }) emptied
  post_emptied : Move m emptied (record m { oven_place = m.oven_place + 1 }) leaving
  post_in : Move m leaving (record m { oven_in = m.oven_in + 1 }) serving
  wait_on : 0 < m.table_on → Move m serving (record m { table_on = m.table_on - 1 }) approaching
  wait_table :
      0 < m.table_place
      → Move m approaching (record m { table_place = m.table_place - 1 }) (laying 0)
  skip : {i : ℕ} → i < table_cap → at m.table i ≢ free → Move m (laying i) m (laying (i + 1))
  pick : {i : ℕ} → i < table_cap → at m.table i ≡ free → Move m (laying i) m (picked i)
  lay :
      {i : ℕ} (pizza_no : ℕ)
      → pizza_no < 10
      → Move m (picked i) (record m { table = set m.table i (pizza_no + 1) }) stocked
  read_stock : Move m stocked m (stocking m.tables_taken)
  stock : {k : ℕ} → Move m (stocking k) (record m { tables_taken = increment k }) laid
  post_ready : Move m laid (record m { table_ready = m.table_ready + 1 }) announced
  post_table : Move m announced (record m { table_place = m.table_place + 1 }) preparing

-- Where a supplier stands in `deliver`; `index` is found with the `table_queue_start` that was read.
pub data Supplier : Type 0 where
  waiting : Supplier
  collected : Supplier
  looking : (i : ℕ) → Supplier
  checking : (i index : ℕ) → Supplier
  found : (index : ℕ) → Supplier
  advancing : (index queue_start : ℕ) → Supplier
  advanced : (index : ℕ) → Supplier
  wrapping : (index queue_start : ℕ) → Supplier
  wrapped : (index : ℕ) → Supplier
  uncounting : (index tables_taken : ℕ) → Supplier
  counted : (index : ℕ) → Supplier

-- `(i + pizzeria->table_queue_start) % TABLE_CAP`
abbrev pub queue_index : Shared → ℕ → ℕ
queue_index m i = (i + m.table_queue_start) % table_cap

-- One access of `deliver`; the pizza that is read only to be printed is left out.
pub data Deliver (m : Shared) : Supplier → Shared → Supplier → Type 0 where
  wait_ready :
      0 < m.table_ready → Deliver m waiting (record m { table_ready = m.table_ready - 1 }) collected
  post_on : Deliver m collected (record m { table_on = m.table_on + 1 }) (looking 0)
  index : {i : ℕ} → Deliver m (looking i) m (checking i (queue_index m i))
  miss : {i x : ℕ} → at m.table x ≡ free → Deliver m (checking i x) m (looking (i + 1))
  hit : {i x : ℕ} → at m.table x ≢ free → Deliver m (checking i x) m (found x)
  read_advance : {x : ℕ} → Deliver m (found x) m (advancing x m.table_queue_start)
  advance :
      {x k : ℕ}
      → Deliver m (advancing x k) (record m { table_queue_start = increment k }) (advanced x)
  read_wrap : {x : ℕ} → Deliver m (advanced x) m (wrapping x m.table_queue_start)
  wrap :
      {x k : ℕ}
      → Deliver m (wrapping x k) (record m { table_queue_start = k % table_cap }) (wrapped x)
  read_uncount : {x : ℕ} → Deliver m (wrapped x) m (uncounting x m.tables_taken)
  uncount :
      {x k : ℕ} → Deliver m (uncounting x k) (record m { tables_taken = decrement k }) (counted x)
  clear : {x : ℕ} → Deliver m (counted x) (record m { table = set m.table x free }) waiting

pub record System : Type 0 where
  pub mem : Shared
  pub cooks : List Cook
  pub suppliers : List Supplier

abbrev pub cook_at : List Cook → ℕ → Cook
cook_at cooks i = get_or cooks i preparing

abbrev pub supplier_at : List Supplier → ℕ → Supplier
supplier_at suppliers j = get_or suppliers j waiting

pub data Step (s : System) : System → Type 0 where
  cook :
      (i : ℕ) {m : Shared} {p : Cook}
      → i < length s.cooks
      → Move s.mem (cook_at s.cooks i) m p
      → Step s (record s { mem = m; cooks = set s.cooks i p })
  supplier :
      (j : ℕ) {m : Shared} {q : Supplier}
      → j < length s.suppliers
      → Deliver s.mem (supplier_at s.suppliers j) m q
      → Step s (record s { mem = m; suppliers = set s.suppliers j q })

-- `main` of pizzeria.c, with N cooks and M suppliers.
abbrev pub opening : ℕ → ℕ → System
opening n m = record {
  mem = record {
    oven = replicate oven_cap free;
    ovens_taken = 0;
    table = replicate table_cap free;
    tables_taken = 0;
    table_queue_start = 0;
    oven_place = 1;
    oven_in = oven_cap;
    table_place = 1;
    table_on = table_cap;
    table_ready = 0;
  };
  cooks = replicate n preparing;
  suppliers = replicate m waiting;
}

pub data Reach (n m : ℕ) : System → Type 0 where
  start : Reach n m (opening n m)
  later : {s t : System} → Reach n m s → Step s t → Reach n m t

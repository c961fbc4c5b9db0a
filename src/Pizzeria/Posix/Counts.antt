-- ===== src/Pizzeria/Posix/Counts.antt =====
-- lab07/src/POSIX: what the semaphores count.
use agh_sem4_sysopy.Common.{
  ℕ, zero, suc, ◌+◌, ◌<◌, ◌≡◌, refl, arith, length, set, replicate, sum_by, sum_by-set,
}
use agh_sem4_sysopy.Pizzeria.Kitchen.{Shared}
use agh_sem4_sysopy.Pizzeria.Posix.{
  Cook, preparing, entering, tallying, placing, chosen, placed, pulling, untallying, emptying,
  emptied, serving, approaching, laying, picked, stocked, stocking, laid, announced, wait_in,
  wait_table, wait_on, pass, Move, Supplier, waiting, collected, wait_ready, Deliver, System, cook,
  supplier, cook_at, supplier_at, opening, Reach, start, later,
}

-- Between sem_wait(oven_in) and sem_post(oven_in).
abbrev pub in_oven : Cook → ℕ
in_oven preparing = 0
in_oven serving = 0
in_oven approaching = 0
in_oven (laying _) = 0
in_oven (picked _) = 0
in_oven stocked = 0
in_oven (stocking _) = 0
in_oven laid = 0
in_oven announced = 0
in_oven _ = 1

-- Between sem_wait(oven_place) and the first sem_post(oven_place).
abbrev pub in_place : Cook → ℕ
in_place entering = 1
in_place (tallying _) = 1
in_place (placing _) = 1
in_place (chosen _) = 1
in_place (placed _) = 1
in_place _ = 0

-- Between the second sem_post(oven_place) and the third.
abbrev pub takes_out : Cook → ℕ
takes_out (pulling _) = 1
takes_out (untallying _ _) = 1
takes_out (emptying _) = 1
takes_out emptied = 1
takes_out _ = 0

-- Between sem_wait(table_place) and sem_post(table_place).
abbrev pub at_table : Cook → ℕ
at_table (laying _) = 1
at_table (picked _) = 1
at_table stocked = 1
at_table (stocking _) = 1
at_table laid = 1
at_table announced = 1
at_table _ = 0

-- Between sem_wait(table_on) and sem_post(table_ready).
abbrev pub brings : Cook → ℕ
brings approaching = 1
brings (laying _) = 1
brings (picked _) = 1
brings stocked = 1
brings (stocking _) = 1
brings laid = 1
brings _ = 0

-- Between sem_wait(table_ready) and sem_post(table_on).
abbrev pub collects : Supplier → ℕ
collects collected = 1
collects _ = 0

pub record Counts (s : System) : Type 0 where
  pub room : s.mem.oven_in + sum_by in_oven s.cooks ≡ 5
  pub place : sum_by takes_out s.cooks < s.mem.oven_place + sum_by in_place s.cooks
  pub table : s.mem.table_place + sum_by at_table s.cooks ≡ 1
  pub pizzas :
      s.mem.table_on + sum_by brings s.cooks + s.mem.table_ready + sum_by collects s.suppliers ≡ 5

-- What an access of a cook does to the counts, a total and the one after it given.
module _ (a a' : ℕ) where
  Move-room :
      {m m' : Shared} {p p' : Cook}
      → Move m p m' p'
      → a' + in_oven p ≡ a + in_oven p'
      → m.oven_in + a ≡ 5
      → m'.oven_in + a' ≡ 5
  Move-room (wait_in w) d h = omega arith
  Move-room mv d h = ground arith

  Move-place :
      {m m' : Shared} {p p' : Cook} (b b' : ℕ)
      → Move m p m' p'
      → a' + takes_out p ≡ a + takes_out p'
      → b' + in_place p ≡ b + in_place p'
      → a < m.oven_place + b
      → a' < m'.oven_place + b'
  Move-place b b' (pass _ _) d e h = ground arith
  Move-place b b' mv d e h = ground arith

  Move-table :
      {m m' : Shared} {p p' : Cook}
      → Move m p m' p'
      → a' + at_table p ≡ a + at_table p'
      → m.table_place + a ≡ 1
      → m'.table_place + a' ≡ 1
  Move-table (wait_table w) d h = omega arith
  Move-table mv d h = ground arith

  Move-pizzas :
      {m m' : Shared} {p p' : Cook} (c : ℕ)
      → Move m p m' p'
      → a' + brings p ≡ a + brings p'
      → m.table_on + a + m.table_ready + c ≡ 5
      → m'.table_on + a' + m'.table_ready + c ≡ 5
  Move-pizzas c (wait_on w) d h = omega arith
  Move-pizzas c mv d h = ground arith

record Kept (m m' : Shared) (a c' : ℕ) : Type 0 where
  in_ : m'.oven_in ≡ m.oven_in
  place_ : m'.oven_place ≡ m.oven_place
  table_ : m'.table_place ≡ m.table_place
  pizzas_ : m'.table_on + a + m'.table_ready + c' ≡ 5

Deliver-keeps :
    {m m' : Shared} {q q' : Supplier} (a c c' : ℕ)
    → Deliver m q m' q'
    → c' + collects q ≡ c + collects q'
    → m.table_on + a + m.table_ready + c ≡ 5
    → Kept m m' a c'
Deliver-keeps a c c' (wait_ready w) d h = record {
  in_ = refl;
  place_ = refl;
  table_ = refl;
  pizzas_ = omega arith;
}
Deliver-keeps a c c' q d h = record {
  in_ = refl;
  place_ = refl;
  table_ = refl;
  pizzas_ = omega arith;
}

Move-Counts :
    (s : System)
    → Counts s
    → (i : ℕ) → i < length s.cooks
    → {p' : Cook} {m' : Shared} → Move s.mem (cook_at s.cooks i) m' p'
    → Counts (record s { mem = m'; cooks = set s.cooks i p' })
Move-Counts s inv i lt {p' = p'} mv =
    let more : (w : Cook → ℕ)
        → sum_by w (set s.cooks i p') + w (cook_at s.cooks i) ≡ sum_by w s.cooks + w p' =
      λ w. sum_by-set w s.cooks i p' preparing lt in
    record {
      room =
          Move-room (sum_by in_oven s.cooks) (sum_by in_oven (set s.cooks i p')) mv (more in_oven)
            inv.room;
      place =
          Move-place (sum_by takes_out s.cooks) (sum_by takes_out (set s.cooks i p'))
            (sum_by in_place s.cooks) (sum_by in_place (set s.cooks i p')) mv (more takes_out)
            (more in_place) inv.place;
      table =
          Move-table (sum_by at_table s.cooks) (sum_by at_table (set s.cooks i p')) mv
            (more at_table) inv.table;
      pizzas =
          Move-pizzas (sum_by brings s.cooks) (sum_by brings (set s.cooks i p'))
            (sum_by collects s.suppliers) mv (more brings) inv.pizzas;
    }

Deliver-Counts :
    (s : System)
    → Counts s
    → (j : ℕ) → j < length s.suppliers
    → {q' : Supplier} {m' : Shared} → Deliver s.mem (supplier_at s.suppliers j) m' q'
    → Counts (record s { mem = m'; suppliers = set s.suppliers j q' })
Deliver-Counts s inv j lt {q' = q'} d =
    let more = sum_by-set collects s.suppliers j q' waiting lt in
    let k =
      Deliver-keeps (sum_by brings s.cooks) (sum_by collects s.suppliers)
        (sum_by collects (set s.suppliers j q')) d more inv.pizzas in
    record {
      room = rw k.in_ inv.room;
      place = rw k.place_ inv.place;
      table = rw k.table_ inv.table;
      pizzas = k.pizzas_;
    }

sum_by-start {ℓ} :
    {A : Type ℓ} (w : A → ℕ) (a : A) → w a ≡ 0 → (n : ℕ) → sum_by w (replicate n a) ≡ 0
unfolding sum_by
sum_by-start w a e zero = refl
sum_by-start w a e (suc n) = omega (arith, e, sum_by-start w a e n)

opening-Counts : (n m : ℕ) → Counts (opening n m)
opening-Counts n m =
    let none_yet : (w : Cook → ℕ) → w preparing ≡ 0 → sum_by w (replicate n preparing) ≡ 0 =
      λ w e. sum_by-start w preparing e n in
    record {
      room = omega (arith, none_yet in_oven refl);
      place = omega (arith, none_yet takes_out refl, none_yet in_place refl);
      table = omega (arith, none_yet at_table refl);
      pizzas = omega (arith, none_yet brings refl, sum_by-start collects waiting refl m);
    }

pub Reach-Counts : {n m : ℕ} {s : System} → Reach n m s → Counts s
Reach-Counts {n} {m} start = opening-Counts n m
Reach-Counts (later {s = s} r (cook i lt mv)) = Move-Counts s (Reach-Counts r) i lt mv
Reach-Counts (later {s = s} r (supplier j lt d)) = Deliver-Counts s (Reach-Counts r) j lt d

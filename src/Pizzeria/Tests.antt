-- ===== src/Pizzeria/Tests.antt =====
-- lab07/src/SystemV: a run of two cooks and a supplier, and the theorems there.
use agh_sem4_sysopy.Common.{ℕ, zero, suc, ◌<◌, refl, ◌≢◌, [], ◌∷◌, arith, replicate}
use agh_sem4_sysopy.Pizzeria.Kitchen.{
  Shared, at, free, taken, placing, baking, waiting, System, Reach, start, later, cook, enter,
  tally, place, leave,
}
use agh_sem4_sysopy.Pizzeria.Oven.Safety.{Search, OvenView, oven_loop-ends, oven-places}
use agh_sem4_sysopy.Pizzeria.Table.{Overrun, table-overruns}

-- The first cook has put a pizza in and the second looks for a place.
abbrev second_looks : System
second_looks = record {
  mem = record {
    oven = taken ∷ free ∷ free ∷ free ∷ free ∷ [];
    ovens_taken = 2;
    table = replicate 5 free;
    tables_taken = 0;
    table_queue_start = 0;
    oven_place = 0;
    oven_in = 3;
    table_place = 1;
    table_on = 5;
    table_ready = 0;
  };
  cooks = baking 0 ∷ placing 0 ∷ [];
  suppliers = waiting ∷ [];
}

run : Reach 2 1 second_looks
run =
    later
      (later
        (later
          (later
            (later (later start (cook 0 (omega arith) (enter (omega arith) (omega arith))))
              (cook 0 (omega arith) tally))
            (cook 0 (omega arith) (place (omega arith) refl)))
          (cook 0 (omega arith) leave))
        (cook 1 (omega arith) (enter (omega arith) (omega arith))))
      (cook 1 (omega arith) tally)

oven_loop-ends_example : Search second_looks.mem 0
oven_loop-ends_example = oven_loop-ends run 1 0 refl

oven-places_example : OvenView second_looks
oven-places_example = oven-places run

-- Five pizzas on the table and one more cook to serve.
abbrev full_table : Shared
full_table = record second_looks.mem {
  table = 1 ∷ 2 ∷ 3 ∷ 4 ∷ 5 ∷ [];
  tables_taken = 5;
  table_on = 0;
  table_ready = 5;
}

all_taken : (k : ℕ) → k < 5 → at full_table.table k ≢ free
all_taken zero h = omega arith
all_taken (suc zero) h = omega arith
all_taken (suc (suc zero)) h = omega arith
all_taken (suc (suc (suc zero))) h = omega arith
all_taken (suc (suc (suc (suc zero)))) h = omega arith
all_taken (suc (suc (suc (suc (suc k))))) h = absurd (omega arith)

table-overruns_example : Overrun full_table
table-overruns_example = table-overruns full_table all_taken (omega arith) (omega arith)

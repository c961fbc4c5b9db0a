-- ===== src/Pizzeria/Posix/Tests.antt =====
-- lab07/src/POSIX: a cook takes a pizza out while another comes to the oven, and later serves it.
use agh_sem4_sysopy.Common.{◌+◌, ◌<◌, ◌≡◌, refl, ◌⊎◌, [], ◌∷◌, arith, replicate, sum_by}
use agh_sem4_sysopy.Pizzeria.Kitchen.{free, taken}
use agh_sem4_sysopy.Pizzeria.Posix.{
  preparing, pulling, laying, System, waiting, Reach, start, later, cook, wait_in, wait_place,
  read_tally, tally, choose, place, post_place, return, read_untally, untally, empty, post_emptied,
  post_in, wait_on, wait_table, oven_cap, table_cap,
}
use agh_sem4_sysopy.Pizzeria.Posix.Counts.{in_oven, in_place, brings, collects}
use agh_sem4_sysopy.Pizzeria.Posix.Laws.{posix-totals, posix_oven-shared}

abbrev takes_it_out : System
takes_it_out = record {
  mem = record {
    oven = taken ∷ free ∷ free ∷ free ∷ free ∷ [];
    ovens_taken = 1;
    table = replicate 5 free;
    tables_taken = 0;
    table_queue_start = 0;
    oven_place = 2;
    oven_in = 4;
    table_place = 1;
    table_on = 5;
    table_ready = 0;
  };
  cooks = pulling 0 ∷ preparing ∷ [];
  suppliers = waiting ∷ [];
}

run : Reach 2 1 takes_it_out
run =
    later
      (later
        (later
          (later
            (later
              (later
                (later (later start (cook 0 (omega arith) (wait_in (omega arith))))
                  (cook 0 (omega arith) (wait_place (omega arith))))
                (cook 0 (omega arith) read_tally))
              (cook 0 (omega arith) tally))
            (cook 0 (omega arith) (choose (omega arith) refl)))
          (cook 0 (omega arith) place))
        (cook 0 (omega arith) post_place))
      (cook 0 (omega arith) return)

abbrev serves_it : System
serves_it = record {
  mem = record takes_it_out.mem {
    oven = replicate 5 free;
    ovens_taken = 0;
    oven_place = 3;
    oven_in = 5;
    table_place = 0;
    table_on = 4;
  };
  cooks = laying 0 ∷ preparing ∷ [];
  suppliers = waiting ∷ [];
}

-- After one round of one cook the oven admits three at a time.
run_on : Reach 2 1 serves_it
run_on =
    later
      (later
        (later
          (later
            (later
              (later (later run (cook 0 (omega arith) read_untally)) (cook 0 (omega arith) untally))
              (cook 0 (omega arith) empty))
            (cook 0 (omega arith) post_emptied))
          (cook 0 (omega arith) post_in))
        (cook 0 (omega arith) (wait_on (omega arith))))
      (cook 0 (omega arith) (wait_table (omega arith)))

posix-totals_example :
    (4 + sum_by in_oven takes_it_out.cooks ≡ oven_cap)
    × (5 + sum_by brings takes_it_out.cooks + 0 + sum_by collects takes_it_out.suppliers
        ≡ table_cap)
posix-totals_example = posix-totals run

posix_oven-shared_example : (0 < 2) ⊎ (1 < sum_by in_place takes_it_out.cooks)
posix_oven-shared_example = posix_oven-shared run 0 refl

-- ===== src/Santa/Tests.antt =====
-- lab09/src/main.c: three deliveries, and three elves at the door.
use mathlib.Core.List.{◌++◌}
use agh_sem4_sysopy.Common.{ℕ, zero, suc, ◌≡◌, refl, List, [], ◌∷◌, true, sum_by}
use agh_sem4_sysopy.Santa.{
  Shared, working, in_workshop, Thread, the_santa, the_elf, the_reindeer, run, unlocked_turn,
  santa_turn, santa_check, santa_rest, santa_back, reindeer_turn, elf_turn, arrive, opening,
  reindeers_req,
}
use agh_sem4_sysopy.Santa.Counts.{waits, is_out, is_returned}
use agh_sem4_sysopy.Santa.Laws.{after, santa-is_out, santa_returned-stuck}

-- The reindeer below `k`, the last one first.
abbrev team : ℕ → List Thread
team zero = []
team (suc k) = the_reindeer k ∷ team k

-- All the reindeer come, Santa leaves and is back, and the reindeer go.
abbrev delivery : List Thread
delivery = team 9 ++ (the_santa ∷ the_santa ∷ team 9)

abbrev sets_out : List Thread
sets_out = the_santa ∷ (team 9 ++ (the_santa ∷ []))

abbrev three_deliveries : List Thread
three_deliveries = the_santa ∷ (delivery ++ (delivery ++ delivery))

out_now : is_out (after sets_out).santa ≡ true
unfolding run unlocked_turn santa_turn santa_check santa_rest reindeer_turn
out_now = refl

returned_now : is_returned (after three_deliveries).santa ≡ true
unfolding run unlocked_turn santa_turn santa_check santa_rest santa_back reindeer_turn
returned_now = refl

santa-is_out_example :
    ((after sets_out).waiting_reindeers ≡ reindeers_req)
    × (sum_by waits (after sets_out).reindeers ≡ reindeers_req)
santa-is_out_example = santa-is_out sets_out out_now

santa_returned-stuck_example :
    run (the_elf 0 ∷ the_reindeer 3 ∷ []) (after three_deliveries) ≡ after three_deliveries
santa_returned-stuck_example =
    santa_returned-stuck three_deliveries (the_elf 0 ∷ the_reindeer 3 ∷ []) returned_now

abbrev two_elves : Shared
two_elves = record opening {
  waiting_elves = 2;
  workshop = 1 ∷ 2 ∷ 0 ∷ [];
  elves = in_workshop ∷ in_workshop ∷ working ∷ [];
}

two_elves_come :
    (run (the_elf 0 ∷ the_elf 1 ∷ []) (record opening { elves = working ∷ working ∷ working ∷ [] }))
    ≡ two_elves
unfolding run unlocked_turn elf_turn arrive
two_elves_come = refl

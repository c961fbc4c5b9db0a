-- ===== src/Santa/Laws.antt =====
-- lab09/src/main.c: what the threads may and may not do, in every order of their turns from the start of `main`.
use agh_sem4_sysopy.Common.{
  ℕ, ◌+◌, ◌≤◌, ◌<◌, ◌≡◌, ◌≢◌, refl, ap, ◌∙◌, List, [], ◌∷◌, arith, true, length, get_or-set_ne,
  sum_by, ◌==◌, if◌then◌else◌,
}
use agh_sem4_sysopy.Santa.{
  Shared, in_workshop, dismissed, dismiss, queued, broadcast, arrive, Thread, unlocked_turn, turn,
  run, opening, elf_at, reindeers_req, elves_req,
}
use agh_sem4_sysopy.Santa.Counts.{waits, is_out, is_helping, is_returned, sum_by-waits}
use agh_sem4_sysopy.Santa.Arrivals.{same_place}
use agh_sem4_sysopy.Santa.Harness.{run-Inv, opening-Inv, get_or-broadcast}

abbrev pub after : List Thread → Shared
after schedule = run schedule opening

-- However the threads take turns, at most nine reindeer and three elves are counted, and no more reindeer than wait.
pub santa-counts :
    (schedule : List Thread)
    → let m = after schedule in
      (m.waiting_reindeers ≤ sum_by waits m.reindeers)
      × (sum_by waits m.reindeers ≤ reindeers_req)
      × (m.waiting_elves ≤ elves_req)
santa-counts schedule =
    let inv = run-Inv schedule opening opening-Inv in
    let m = after schedule in
    (inv.counts.counted, omega (arith, sum_by-waits m.reindeers, inv.counts.nine), inv.counts.three)

-- Whenever Santa is out with the presents, nine reindeer are counted and every reindeer waits for him.
pub santa-is_out :
    (schedule : List Thread)
    → is_out (after schedule).santa ≡ true
    → ((after schedule).waiting_reindeers ≡ reindeers_req)
      × (sum_by waits (after schedule).reindeers ≡ reindeers_req)
santa-is_out schedule e =
    let inv = run-Inv schedule opening opening-Inv in
    let m = after schedule in
    let n = inv.out e in
    (n, omega (arith, n, inv.counts.counted, sum_by-waits m.reindeers, inv.counts.nine))

held : (t : Thread) (m : Shared) → m.locked ≡ true → turn t m ≡ m
held t m l = ap (λ b. if b then m else unlocked_turn t m) l

-- Once Santa has returned, no thread has another turn: he keeps the mutex, and the elves and the reindeer stay as they are.
pub santa_returned-stuck :
    (schedule rest : List Thread)
    → is_returned (after schedule).santa ≡ true
    → run rest (after schedule) ≡ after schedule
unfolding run
santa_returned-stuck schedule rest e =
    stays rest (after schedule) ((run-Inv schedule opening opening-Inv).keeps e)
  where
    stays : (rest : List Thread) (m : Shared) → m.locked ≡ true → run rest m ≡ m
    stays [] m l = refl
    stays (t ∷ rest) m l = rw (held t m l) (stays rest m l)

-- When the third elf comes to the workshop, an elf who is there is dismissed by his broadcast, while Santa, who is
-- only signalled, does not help yet.
pub arrive-dismisses :
    (m : Shared) (i j : ℕ)
    → m.waiting_elves + 1 ≡ elves_req
    → i ≢ j
    → j < length m.elves
    → elf_at m.elves j ≡ in_workshop
    → (elf_at (arrive i m).elves j ≡ dismissed)
      × (is_helping (arrive i m).santa ≡ is_helping m.santa)
unfolding arrive
arrive-dismisses m i j e n h w =
    let t : m.waiting_elves + 1 == 3 ≡ true = ground (arith, e) in
    rw t (
      get_or-set_ne (broadcast dismiss m.elves) i j in_workshop queued n
          ∙ (get_or-broadcast dismiss m.elves j queued h ∙ ap dismiss w),
      (same_place m.santa).help,
    )

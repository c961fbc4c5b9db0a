-- ===== src/Santa/Harness.antt =====
-- lab09/src/main.c: the turns of the reindeer, and of all threads, keep the counts.
use native.Mathlib.Decide.{dec_lt}
use agh_sem4_sysopy.Common.{
  ℕ, zero, suc, ◌+◌, ◌≤◌, ◌<◌, ◌≡◌, refl, ap, List, [], ◌∷◌, arith, Bool, true, false, Bool-cases,
  inl, inr, ◌∙◌, sym, ◌≢◌, length, length-set, get_or, set, sum_by, sum_by-set, ltb, ◌==◌,
  if◌then◌else◌,
}
use agh_sem4_sysopy.Santa.{
  Shared, Reindeer, away, harnessed, called, broadcast, call, reindeer_turn, Thread, the_santa,
  the_elf, the_reindeer, unlocked_turn, turn, run, opening, reindeer_at, elf_at,
}
use agh_sem4_sysopy.Santa.Counts.{
  waits, is_out, is_helping, is_returned, Inv, sum_by-call, length-broadcast, sum_by-waits, quiet,
  santa_turn-Inv,
}
use agh_sem4_sysopy.Santa.Arrivals.{same_place, elf_turn-Inv}

no_reindeer :
    (reindeers : List Reindeer) (i : ℕ) → length reindeers ≤ i → reindeer_at reindeers i ≡ harnessed
no_reindeer [] i h = refl
no_reindeer (r ∷ reindeers) zero h = absurd (omega arith)
no_reindeer (r ∷ reindeers) (suc i) h = no_reindeer reindeers i (omega arith)

is_here :
    (reindeers : List Reindeer) (i : ℕ) → reindeer_at reindeers i ≢ harnessed → i < length reindeers
is_here reindeers i n = elim (dec_lt i (length reindeers)) [
  | yes h ↦ h
  | no h ↦ absurd (n (no_reindeer reindeers i (omega arith)))
]

pub get_or-broadcast {ℓ} :
    {A : Type ℓ} (wake : A → A) (xs : List A) (i : ℕ) (d : A)
    → i < length xs
    → get_or (broadcast wake xs) i d ≡ wake (get_or xs i d)
get_or-broadcast wake [] i d h = elim h [ ]
get_or-broadcast wake (x ∷ xs) zero d h = refl
get_or-broadcast wake (x ∷ xs) (suc i) d h = get_or-broadcast wake xs i d (omega arith)

-- A reindeer comes back to a list in which it was away.
harness-sum :
    (reindeers : List Reindeer) (i : ℕ)
    → i < length reindeers
    → waits (reindeer_at reindeers i) ≡ 0
    → sum_by waits (set reindeers i harnessed) ≡ sum_by waits reindeers + 1
harness-sum reindeers i h z = omega (arith, sum_by-set waits reindeers i harnessed harnessed h, z)

-- One more reindeer waits, so Santa is not out.
comes-Inv :
    {m m' : Shared}
    → Inv m
    → length m'.reindeers ≡ 9
    → sum_by waits m'.reindeers ≡ sum_by waits m.reindeers + 1
    → m'.waiting_reindeers ≡ m.waiting_reindeers + 1
    → m'.waiting_elves ≡ m.waiting_elves
    → is_out m'.santa ≡ is_out m.santa
    → is_helping m'.santa ≡ is_helping m.santa
    → is_returned m'.santa ≡ is_returned m.santa
    → m'.locked ≡ m.locked
    → Inv m'
comes-Inv {m = m} {m' = m'} inv n s w t o h b l = record {
  counts = record {
    nine = n;
    counted = omega (arith, inv.counts.counted, s, w);
    three = omega (arith, inv.counts.three, t);
  };
  out = λ q.
      absurd
        (omega (arith, inv.out (sym o ∙ q), inv.counts.counted, sum_by-waits m'.reindeers, n, s));
  helps = λ q. t ∙ inv.helps (sym h ∙ q);
  keeps = λ q. l ∙ inv.keeps (sym b ∙ q);
}

reindeer_turn-Inv :
    (i : ℕ) (p : Reindeer) (m : Shared)
    → reindeer_at m.reindeers i ≡ p
    → Inv m
    → Inv (reindeer_turn i p m)
unfolding reindeer_turn
reindeer_turn-Inv i away m e inv =
    let h = is_here m.reindeers i (λ q. absurd (ground (arith, e, q))) in
    let all = broadcast call m.reindeers in
    let h' : i < length all = omega (arith, h, length-broadcast call m.reindeers) in
    let z : waits (reindeer_at all i) ≡ 0 =
      rw (get_or-broadcast call m.reindeers i harnessed h, e) refl in
    let p = same_place m.santa in
    elim (Bool-cases (m.waiting_reindeers + 1 == 9)) [
      | inl f ↦ rw f (
          comes-Inv inv
            (omega (
              arith,
              length-set all i harnessed,
              length-broadcast call m.reindeers,
              inv.counts.nine,
            ))
            (omega (arith, harness-sum all i h' z, sum_by-call m.reindeers)) refl refl p.out p.help
            p.back refl)
      | inr f ↦ rw f (
          comes-Inv inv (omega (arith, length-set m.reindeers i harnessed, inv.counts.nine))
            (harness-sum m.reindeers i h (ap waits e)) refl refl refl refl refl refl)
    ]
reindeer_turn-Inv i harnessed m e inv = inv
reindeer_turn-Inv i called m e inv =
    let h = is_here m.reindeers i (λ q. absurd (ground (arith, e, q))) in
    elim (Bool-cases (ltb 0 m.waiting_reindeers)) [
      | inl f ↦ rw f (record {
        counts = record {
          nine = omega (arith, length-set m.reindeers i harnessed, inv.counts.nine);
          counted = omega (
            arith,
            sum_by-set waits m.reindeers i harnessed harnessed h,
            ap waits e,
            inv.counts.counted,
          );
          three = inv.counts.three;
        };
        out = inv.out;
        helps = inv.helps;
        keeps = inv.keeps;
      })
      | inr f ↦ rw f (record {
        counts = record {
          nine = omega (arith, length-set m.reindeers i away, inv.counts.nine);
          counted = ground (arith, f);
          three = inv.counts.three;
        };
        out = inv.out;
        helps = inv.helps;
        keeps = inv.keeps;
      })
    ]

if-Inv : (b : Bool) (m m' : Shared) → Inv m → Inv m' → Inv (if b then m else m')
if-Inv true m m' inv inv' = inv
if-Inv false m m' inv inv' = inv'

unlocked_turn-Inv : (t : Thread) (m : Shared) → Inv m → Inv (unlocked_turn t m)
unfolding unlocked_turn
unlocked_turn-Inv the_santa m inv = santa_turn-Inv m.santa m refl inv
unlocked_turn-Inv (the_elf i) m inv = elf_turn-Inv i (elf_at m.elves i) m inv
unlocked_turn-Inv (the_reindeer i) m inv =
    reindeer_turn-Inv i (reindeer_at m.reindeers i) m refl inv

turn-Inv : (t : Thread) (m : Shared) → Inv m → Inv (turn t m)
turn-Inv t m inv = if-Inv m.locked m (unlocked_turn t m) inv (unlocked_turn-Inv t m inv)

pub run-Inv : (schedule : List Thread) (m : Shared) → Inv m → Inv (run schedule m)
unfolding run
run-Inv [] m inv = inv
run-Inv (t ∷ schedule) m inv = run-Inv schedule (turn t m) (turn-Inv t m inv)

pub opening-Inv : Inv opening
unfolding sum_by
opening-Inv =
    quiet (record { nine = refl; counted = omega arith; three = omega arith }) refl refl refl

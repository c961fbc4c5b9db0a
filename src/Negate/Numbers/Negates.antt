-- ===== src/Negate/Numbers/Negates.antt =====
-- lab08/src/negate.c: the threads of `start_routine_numbers` negate the image, whatever the schedule, and come to an end.
use native.Mathlib.Decide.{dec_lt}
use native.Mathlib.Nat.{mod-lt}
use agh_sem4_sysopy.Common.{
  ℕ, zero, suc, ◌+◌, ◌-◌, ◌≤◌, ◌<◌, ◌≡◌, refl, List, [], ◌∷◌, arith, true, length, replicate,
  length-replicate, set-beyond, ltb, if◌then◌else◌, ap, Bool-cases, inl, inr,
}
use agh_sem4_sysopy.Negate.Image.{Image, IsGrey, cell, size, negated-le}
use agh_sem4_sysopy.Negate.Numbers.{
  Thread, at_cell, has_test, has_val, is_bright, IsSteady, AllSteady, State, thread_at, thread_step,
  turn, run, created, is_joined, all_joined,
}
use agh_sem4_sysopy.Negate.Numbers.Owner.{
  Places, Inv, owner, move-Places, test-Inv, take-Inv, put-Inv,
}

absent : (threads : List Thread) (t : ℕ) → length threads ≤ t → thread_at threads t ≡ at_cell 0
absent [] t h = refl
absent (p ∷ threads) zero h = absurd (omega arith)
absent (p ∷ threads) (suc t) h = absent threads t (omega arith)

-- A thread that does not exist changes nothing.
turn-beyond : (threads_no t : ℕ) (s : State) → length s.threads ≤ t → turn threads_no t s ≡ s
unfolding thread_step
turn-beyond threads_no t s h = rw (absent s.threads t h) (elim (Bool-cases (ltb 0 (size s.image))) [
  | inl e ↦ rw e (ap (λ r. record s { threads = r }) (set-beyond s.threads t _ h))
  | inr e ↦ rw e refl
])

step-Places :
    (orig : Image)
    → IsGrey orig
    → (threads_no t : ℕ) (s : State) → Places orig threads_no s
    → t < length s.threads
    → (p : Thread) → thread_at s.threads t ≡ p
    → Places orig threads_no (thread_step threads_no t s p)
unfolding thread_step
step-Places orig grey n t s inv h (at_cell i) e = elim (Bool-cases (ltb i (size s.image))) [
  | inl l ↦
      let room : i < size orig = ground (arith, l, inv.dim) in
      rw l (
        move-Places orig grey n inv t (has_test i (is_bright s.image i)) s.image h refl refl
          (omega (arith, room)) (λ j c q. ground (arith, q, room))
          (λ j v q. absurd (ground (arith, q))))
  | inr l ↦ rw l inv
]
step-Places orig grey n t s inv h (has_test i b) e =
    let room = inv.testing t i b e in
    move-Places orig grey n inv t _ s.image h refl refl (omega (arith, room))
      (λ j c q. absurd (ground (arith, q))) (λ j v q. ground (arith, q, room))
step-Places orig grey n t s inv h (has_val i v) e =
    move-Places orig grey n inv t (at_cell (i + 1)) _ h (ground arith) (ground arith)
      (omega (arith, inv.holding t i v e)) (λ j c q. absurd (ground (arith, q)))
      (λ j w q. absurd (ground (arith, q)))

pub turn-Places :
    (orig : Image)
    → IsGrey orig
    → (threads_no t : ℕ) (s : State) → Places orig threads_no s
    → Places orig threads_no (turn threads_no t s)
turn-Places orig grey threads_no t s inv = elim (dec_lt t (length s.threads)) [
  | no h ↦ rw (turn-beyond threads_no t s (omega arith)) inv
  | yes h ↦ step-Places orig grey threads_no t s inv h (thread_at s.threads t) refl
]

pub run-Places :
    (orig : Image)
    → IsGrey orig
    → (threads_no : ℕ) (schedule : List ℕ) (s : State) → Places orig threads_no s
    → Places orig threads_no (run threads_no schedule s)
unfolding run
run-Places orig grey threads_no [] s inv = inv
run-Places orig grey threads_no (t ∷ schedule) s inv =
    run-Places orig grey threads_no schedule _ (turn-Places orig grey threads_no t s inv)

step-Inv :
    (orig : Image)
    → IsGrey orig
    → (threads_no t : ℕ) (s : State) → Inv orig threads_no s
    → t < length s.threads
    → (p : Thread) → thread_at s.threads t ≡ p
    → IsSteady s.image p
    → Inv orig threads_no (thread_step threads_no t s p)
unfolding thread_step
step-Inv orig grey n t s inv h (at_cell i) e b = elim (Bool-cases (ltb i (size s.image))) [
  | inl l ↦
      rw l
        (test-Inv orig grey n inv t i h e (ground (arith, l, inv.places.dim)) (is_bright s.image i))
  | inr l ↦ rw l inv
]
step-Inv orig grey n t s inv h (has_test i c) e b = take-Inv orig grey n inv t i c h e b
step-Inv orig grey n t s inv h (has_val i v) e b = put-Inv orig grey n inv t i v h e

turn-Inv :
    (orig : Image)
    → IsGrey orig
    → (threads_no t : ℕ) (s : State) → Inv orig threads_no s
    → IsSteady s.image (thread_at s.threads t)
    → Inv orig threads_no (turn threads_no t s)
turn-Inv orig grey threads_no t s inv b = elim (dec_lt t (length s.threads)) [
  | no h ↦ rw (turn-beyond threads_no t s (omega arith)) inv
  | yes h ↦ step-Inv orig grey threads_no t s inv h (thread_at s.threads t) refl b
]

run-Inv :
    (orig : Image)
    → IsGrey orig
    → (threads_no : ℕ) (schedule : List ℕ) (s : State) → Inv orig threads_no s
    → AllSteady threads_no schedule s
    → Inv orig threads_no (run threads_no schedule s)
unfolding run AllSteady
run-Inv orig grey threads_no [] s inv b = inv
run-Inv orig grey threads_no (t ∷ schedule) s inv b =
    run-Inv orig grey threads_no schedule _ (turn-Inv orig grey threads_no t s inv b.0) b.1

fresh : (threads_no t : ℕ) → thread_at (replicate threads_no (at_cell 0)) t ≡ at_cell 0
fresh zero t = refl
fresh (suc n) zero = refl
fresh (suc n) (suc t) = fresh n t

pub created-Places :
    (orig : Image) (threads_no : ℕ) → Places orig threads_no (created threads_no orig)
created-Places orig n = record {
  depth = refl;
  dim = refl;
  count = length-replicate n (at_cell 0);
  within = λ t. ground (arith, fresh n t);
  testing = λ t i b e. absurd (ground (arith, fresh n t));
  holding = λ t i v e. absurd (ground (arith, fresh n t));
}

created-Inv : (orig : Image) (threads_no : ℕ) → Inv orig threads_no (created threads_no orig)
created-Inv orig n = record {
  places = created-Places orig n;
  len = refl;
  shown = λ j. ground (arith, fresh n (owner orig n j));
  pending = λ t i v e. absurd (ground (arith, fresh n t));
}

all_joined-at :
    (cells : ℕ) (threads : List Thread) (t : ℕ)
    → all_joined cells threads ≡ true
    → t < length threads
    → is_joined cells (thread_at threads t) ≡ true
all_joined-at cells [] t e h = elim h [ ]
all_joined-at cells (p ∷ threads) zero e h = ground (arith, e)
all_joined-at cells (p ∷ threads) (suc t) e h =
    all_joined-at cells threads t (ground (arith, e)) (omega arith)

-- Whatever the order in which the threads of `start_routine_numbers` take their turns, as long as every
-- cell is as bright at the second read for `val` as at the first: once they all have left the loop, each of the width * height cells of the image holds its negative and no other cell has changed, if
-- there is a thread, the depth is at most 255 and no cell is brighter than it.
pub numbers-negates :
    (orig : Image)
    → IsGrey orig
    → (threads_no : ℕ) → 0 < threads_no
    → (schedule : List ℕ)
    → let s = run threads_no schedule (created threads_no orig) in
      AllSteady threads_no schedule (created threads_no orig)
      → all_joined (size s.image) s.threads ≡ true
      → (j : ℕ)
      → cell s.image j ≡ (if ltb j (size orig) then orig.pixel_max - cell orig j else cell orig j)
unfolding owner
numbers-negates orig grey n h schedule steady all j =
    let s = run n schedule (created n orig) in
    let inv = run-Inv orig grey n schedule _ (created-Inv orig n) steady in
    let t = owner orig n j in
    let joined = all_joined-at _ s.threads t all (omega (arith, inv.places.count, mod-lt _ h)) in
    ground (
      arith,
      inv.shown j,
      inv.places.within t,
      joined,
      inv.places.dim,
      negated-le orig.pixel_max (cell orig j) (grey.range j) grey.depth,
    )

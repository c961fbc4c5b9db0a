-- ===== src/Negate/Blocks/Negates.antt =====
-- lab08/src/negate.c: the threads of `start_routine_blocks` negate the image, whatever the schedule.
use Prim.Native.Nat.{◌/◌}
use native.Mathlib.Decide.{dec_lt}
use native.Mathlib.Nat.{mod-lt, div-lt_iff_lt-mul, div-mul-le_self, lt-div-mul-add}
use agh_sem4_sysopy.Common.{
  ℕ, zero, suc, ◌+◌, ◌-◌, ◌*◌, ◌%◌, ◌≤◌, ◌<◌, ◌≡◌, refl, ◌⊎◌, ◌∙◌, ap, List, [], ◌∷◌, arith, true,
  length, set-beyond, ltb, if◌then◌else◌, Bool-cases, inl, inr,
}
use agh_sem4_sysopy.Negate.Image.{Image, IsGrey, size, cell, negated-le}
use agh_sem4_sysopy.Negate.Blocks.{
  coeff, Thread, at_column, at_row, State, thread_at, in_block, thread_step, turn, run, started,
  created, is_joined, all_joined,
}
use agh_sem4_sysopy.Negate.Blocks.Columns.{Inv, owner, enter-Inv, negate-Inv, leave-Inv}

absent : (threads : List Thread) (t : ℕ) → length threads ≤ t → thread_at threads t ≡ at_column 0
absent [] t h = refl
absent (p ∷ threads) zero h = absurd (omega arith)
absent (p ∷ threads) (suc t) h = absent threads t (omega arith)

-- A thread that does not exist changes nothing.
turn-beyond : (threads_no t : ℕ) (s : State) → length s.threads ≤ t → turn threads_no t s ≡ s
unfolding thread_step
turn-beyond n t s h = rw (absent s.threads t h) (elim (Bool-cases (in_block s.image n t 0)) [
  | inl e ↦ rw e (ap (λ r. record s { threads = r }) (set-beyond s.threads t _ h))
  | inr e ↦ rw e refl
])

module _ (orig : Image) (grey : IsGrey orig) (n : ℕ) where
  step-Inv :
      (t : ℕ) (s : State)
      → Inv orig n s
      → t < length s.threads
      → (p : Thread) → thread_at s.threads t ≡ p
      → Inv orig n (thread_step n t s p)
  unfolding thread_step
  step-Inv t s inv h (at_column i) e = elim (Bool-cases (in_block s.image n t i)) [
    | inl l ↦
        rw l (enter-Inv orig grey n inv t h i e (rw (← ap (λ im. in_block im n t i) inv.same) l))
    | inr l ↦ rw l inv
  ]
  step-Inv t s inv h (at_row i k) e =
      let z : size s.image ≡ size orig = ap size inv.same in
      elim (Bool-cases (ltb k (size s.image))) [
        | inl l ↦ rw l (negate-Inv orig grey n inv t h i k e (ground (arith, l, z)))
        | inr l ↦ rw l (leave-Inv orig grey n inv t h i k e (ground (arith, l, z)))
      ]

  pub turn-Inv : (t : ℕ) (s : State) → Inv orig n s → Inv orig n (turn n t s)
  turn-Inv t s inv = elim (dec_lt t (length s.threads)) [
    | no h ↦ rw (turn-beyond n t s (omega arith)) inv
    | yes h ↦ step-Inv t s inv h (thread_at s.threads t) refl
  ]

  pub run-Inv : (schedule : List ℕ) (s : State) → Inv orig n s → Inv orig n (run n schedule s)
  unfolding run
  run-Inv [] s inv = inv
  run-Inv (t ∷ schedule) s inv = run-Inv schedule _ (turn-Inv t s inv)

started-at :
    (image : Image) (n t k u : ℕ)
    → u < k
    → thread_at (started image n t k) u ≡ at_column ((t + u) * coeff image n)
started-at image n t zero u h = elim h [ ]
started-at image n t (suc k) zero h = ap (λ y. at_column (y * coeff image n)) (omega arith)
started-at image n t (suc k) (suc u) h =
    let shift : suc t + u ≡ t + suc u = omega arith in
    rw (← shift) (started-at image n (suc t) k u (omega arith))

length-started : (image : Image) (n t k : ℕ) → length (started image n t k) ≡ k
length-started image n t zero = refl
length-started image n t (suc k) = ap suc (length-started image n (suc t) k)

created-at :
    (image : Image) (n u : ℕ)
    → let p = thread_at (started image n 0 n) u in
      ((u < n) × (p ≡ at_column (u * coeff image n))) ⊎ ((n ≤ u) × (p ≡ at_column 0))
created-at image n u = elim (dec_lt u n) [
  | yes h ↦
      inl (h, started-at image n 0 n u h ∙ ap (λ y. at_column (y * coeff image n)) (omega arith))
  | no h ↦
      inr (omega arith, absent (started image n 0 n) u (omega (arith, length-started image n 0 n)))
]

pub created-Inv : (orig : Image) (n : ℕ) → Inv orig n (created n orig)
unfolding owner
created-Inv orig n =
    let c = coeff orig n in
    record {
      same = refl;
      count = length-started orig n 0 n;
      len = refl;
      shown = λ j.
          ground
            (arith, created-at orig n (j % orig.width / c), div-mul-le_self (j % orig.width) c);
      first = λ t i h e. ground (arith, created-at orig n t);
      row = λ t i k e. absurd (ground (arith, created-at orig n t));
    }

all_joined-at :
    (image : Image) (n t : ℕ) (threads : List Thread) (u : ℕ)
    → all_joined image n t threads ≡ true
    → u < length threads
    → is_joined image n (t + u) (thread_at threads u) ≡ true
all_joined-at image n t [] u e h = elim h [ ]
all_joined-at image n t (p ∷ threads) zero e h =
    let z : t + 0 ≡ t = omega arith in rw z (ground (arith, e))
all_joined-at image n t (p ∷ threads) (suc u) e h =
    let shift : suc t + u ≡ t + suc u = omega arith in
    rw (← shift) (all_joined-at image n (suc t) threads u (ground (arith, e)) (omega arith))

-- The blocks of `threads_no` threads cover every column.
block-covers :
    (image : Image) (n c : ℕ)
    → 0 < n
    → c < image.width
    → (c / coeff image n < n) × (c < c / coeff image n * coeff image n + coeff image n)
block-covers image n c h l =
    let w = image.width in
    let k = coeff image n in
    let wide : w ≤ n * k = omega (arith, lt-div-mul-add {a = w + n - 1} h) in
    let pos : 0 < k = elim (dec_lt 0 k) [
      | yes p ↦ p
      | no p ↦ let z : k ≡ 0 = omega arith in absurd (omega (arith, wide, ap (λ y. n * y) z))
    ] in
    ((div-lt_iff_lt-mul pos).1 (omega arith), lt-div-mul-add pos)

-- Whatever the order in which the threads of `start_routine_blocks` take their turns, once they all have left the
-- loops, each of the width * height cells of the image holds its negative and no other cell has changed, if
-- there is a thread, the depth is at most 255 and no cell is brighter than it.
pub blocks-negate :
    (orig : Image)
    → IsGrey orig
    → (threads_no : ℕ) → 0 < threads_no
    → (schedule : List ℕ)
    → let s = run threads_no schedule (created threads_no orig) in
      all_joined orig threads_no 0 s.threads ≡ true
      → (j : ℕ)
      → cell s.image j ≡ (if ltb j (size orig) then orig.pixel_max - cell orig j else cell orig j)
unfolding owner
blocks-negate orig grey n h schedule all j =
    let s = run n schedule (created n orig) in
    let inv = run-Inv orig grey n schedule _ (created-Inv orig n) in
    elim (dec_lt j (size orig)) [
      | no q ↦ ground (arith, inv.shown j, q)
      | yes q ↦
          let pos : 0 < orig.width = elim (dec_lt 0 orig.width) [
            | yes p ↦ p
            | no p ↦
                let z : orig.width ≡ 0 = omega arith in
                absurd (omega (arith, q, ap (λ y. y * orig.height) z))
          ] in
          let u = owner orig n j in
          let covers = block-covers orig n (j % orig.width) h (mod-lt j pos) in
          let joined =
            all_joined-at orig n 0 s.threads u all (omega (arith, inv.count, covers.0)) in
          ground (
            arith,
            inv.shown j,
            q,
            covers.1,
            mod-lt j pos,
            joined,
            negated-le orig.pixel_max (cell orig j) (grey.range j) grey.depth,
          )
    ]

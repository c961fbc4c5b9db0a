-- ===== src/Pizzeria/Oven/Moves.antt =====
-- lab07/src/SystemV/cook.c: each statement of a cook keeps each field of the invariant of the oven.
use native.Mathlib.Decide.{dec_lt, ℕ_discrete}
use agh_sem4_sysopy.Common.{
  ap, ℕ, zero, suc, ◌+◌, ◌≤◌, ◌<◌, ◌≡◌, refl, ◌⊎◌, some, List, [], ◌∷◌, arith, length, set, count,
  count-set, sum_by, sum_by-set, add-le-sum_by, get_or-set, length-set, ◌==◌, if◌then◌else◌,
}
use agh_sem4_sysopy.Pizzeria.Kitchen.{
  Shared, at, free, taken, Cook, cook_at, preparing, placing, placed, pulled, Move, enter, pass,
  place, return, empty,
}
use agh_sem4_sysopy.Pizzeria.Oven.Defs.{in_section, in_oven, slot_of, has_slot, is_counted, Inv}

pub sum_by-le {ℓ} :
    {A : Type ℓ} (v w : A → ℕ) → ((a : A) → v a ≤ w a) → (xs : List A) → sum_by v xs ≤ sum_by w xs
unfolding sum_by
sum_by-le v w h [] = omega arith
sum_by-le v w h (x ∷ xs) = omega (arith, h x, sum_by-le v w h xs)

pub no_cook : (cooks : List Cook) (j : ℕ) → length cooks ≤ j → cook_at cooks j ≡ preparing
no_cook [] j h = refl
no_cook (c ∷ cooks) zero h = absurd (omega arith)
no_cook (c ∷ cooks) (suc j) h = no_cook cooks j (omega arith)

pub is_counted-le : (c : Cook) → is_counted c ≤ in_oven c
is_counted-le c = ground arith

module _ {m : Shared} {cooks : List Cook} (inv : Inv m cooks) (i : ℕ) (lt : i < length cooks) where
  open inv use {size, cells, lock, room, marks, owner, unique, scanned}

  -- What is known of cook `i`, who goes from `p` to `p'`.
  record Mover (p p' : Cook) : Type 0 where
    here : cook_at cooks i ≡ p
    section :
        sum_by in_section (set cooks i p') + in_section p ≡ sum_by in_section cooks + in_section p'
    inside : sum_by in_oven (set cooks i p') + in_oven p ≡ sum_by in_oven cooks + in_oven p'
    counted :
        sum_by is_counted (set cooks i p') + is_counted p ≡ sum_by is_counted cooks + is_counted p'
    slots : sum_by has_slot (set cooks i p') + has_slot p ≡ sum_by has_slot cooks + has_slot p'
    few : sum_by is_counted cooks ≤ 5

  mover : (p' : Cook) → Mover (cook_at cooks i) p'
  mover p' = record {
    here = refl;
    section = sum_by-set in_section cooks i p' preparing lt;
    inside = sum_by-set in_oven cooks i p' preparing lt;
    counted = sum_by-set is_counted cooks i p' preparing lt;
    slots = sum_by-set has_slot cooks i p' preparing lt;
    few = omega (arith, sum_by-le is_counted in_oven is_counted-le cooks, room);
  }

  now : (p' : Cook) (j : ℕ) → cook_at (set cooks i p') j ≡ (if i == j then p' else cook_at cooks j)
  now p' j = get_or-set cooks i j p' preparing lt

  Move-counts : {p p' : Cook} {m' : Shared} → Move m p m' p' → Mover p p' → record {
    lock : m'.oven_place + sum_by in_section (set cooks i p') ≡ 1;
    room : m'.oven_in + sum_by in_oven (set cooks i p') ≡ 5;
    tally : m'.ovens_taken ≡ sum_by is_counted (set cooks i p');
  }
  Move-counts (enter a b) f = omega arith
  Move-counts (return a) f = omega arith
  Move-counts mv f = ground arith

  -- Two cooks in the section are one.
  pub alone : (j : ℕ) → in_section (cook_at cooks i) ≡ 1 → in_section (cook_at cooks j) ≡ 1 → i ≡ j
  alone j a b = elim (ℕ_discrete i j) [
    | yes e ↦ e
    | no n ↦ elim (dec_lt j (length cooks)) [
      | yes h ↦ absurd (omega (arith, add-le-sum_by in_section cooks i j preparing lt h n, lock))
      | no h ↦ absurd (omega (arith, ap in_section (no_cook cooks j (omega arith))))
    ]
  ]

  oven_set :
      (k : ℕ) (v : ℕ) (j : ℕ) → k < 5 → at (set m.oven k v) j ≡ (if k == j then v else at m.oven j)
  oven_set k v j h = get_or-set m.oven k j v free (omega (arith, size))

  Move-oven : {p p' : Cook} {m' : Shared} → Move m p m' p' → Mover p p' → record {
    size : length m'.oven ≡ 5;
    marks : count taken m'.oven ≡ sum_by has_slot (set cooks i p');
  }
  Move-oven (place {i = k} a b) f = record {
    size = omega (arith, length-set m.oven k taken, size);
    marks =
        ground (arith, count-set taken m.oven k taken free (omega (arith, size)), f.slots, marks);
  }
  Move-oven (empty {i = k}) f =
      let o = owner i k (ground (arith, f.here)) in
      record {
        size = omega (arith, length-set m.oven k free, size);
        marks =
            ground (
              arith,
              count-set taken m.oven k free free (omega (arith, o.0, size)),
              f.slots,
              marks,
            );
      }
  Move-oven mv f = record { size = size; marks = ground (arith, f.slots, marks) }

  Move-cells :
      {p p' : Cook} {m' : Shared}
      → Move m p m' p'
      → Mover p p'
      → (k : ℕ) → k < 5
      → (at m'.oven k ≡ free) ⊎ (at m'.oven k ≡ taken)
  Move-cells (place {i = x} a b) f k h = ground (arith, oven_set x taken k a, cells k h)
  Move-cells (empty {i = x}) f k h =
      let o = owner i x (ground (arith, f.here)) in ground (arith, oven_set x free k o.0, cells k h)
  Move-cells mv f k h = cells k h

  Move-owner :
      {p p' : Cook} {m' : Shared}
      → Move m p m' p'
      → Mover p p'
      → (j k : ℕ) → slot_of (cook_at (set cooks i p') j) ≡ some k
      → (k < 5) × (at m'.oven k ≡ taken)
  Move-owner (place {i = x} a b) f j k q =
      ground (arith, now (placed x) j, oven_set x taken k a, owner j k)
  Move-owner (empty {i = x}) f j k q =
      let o = owner i x (ground (arith, f.here)) in
      ground (arith, now pulled j, oven_set x free k o.0, owner j k, unique i j k, f.here)
  Move-owner {p' = p'} mv f j k q = ground (arith, now p' j, owner j k, f.here)

  Move-unique :
      {p p' : Cook} {m' : Shared}
      → Move m p m' p'
      → Mover p p'
      → (a b k : ℕ) → slot_of (cook_at (set cooks i p') a) ≡ some k
      → slot_of (cook_at (set cooks i p') b) ≡ some k
      → a ≡ b
  Move-unique (place {i = x} h e) f a b k qa qb =
      ground (arith, now (placed x) a, now (placed x) b, owner a k, owner b k, unique a b k)
  Move-unique {p' = p'} mv f a b k qa qb = ground (arith, now p' a, now p' b, unique a b k, f.here)

  scanned_at : (a k j : ℕ) → cook_at cooks a ≡ placing k → j < k → (j < 5) × (at m.oven j ≡ taken)
  scanned_at a k j e l = scanned a k e j l

  Move-scanned :
      {p p' : Cook} {m' : Shared}
      → Move m p m' p'
      → Mover p p'
      → (a k : ℕ) → cook_at (set cooks i p') a ≡ placing k
      → (j : ℕ) → j < k
      → (j < 5) × (at m'.oven j ≡ taken)
  Move-scanned (place {i = x} h e) f a k q j l =
      absurd (ground (arith, now (placed x) a, alone a, f.here))
  Move-scanned (empty {i = x}) f a k q j l = absurd (ground (arith, now pulled a, alone a, f.here))
  Move-scanned (pass {i = x} h e) f a k q j l =
      ground (arith, now (placing (x + 1)) a, scanned_at a k j, scanned_at i x j, f.here, cells x h)
  Move-scanned {p' = p'} mv f a k q j l = ground (arith, now p' a, scanned_at a k j)

pub Move-Inv :
    {m m' : Shared} {cooks : List Cook} {p' : Cook}
    → Inv m cooks
    → (i : ℕ) → i < length cooks
    → Move m (cook_at cooks i) m' p'
    → Inv m' (set cooks i p')
Move-Inv {p' = p'} inv i lt mv =
    let f = mover inv i lt p' in
    let c = Move-counts inv i lt mv f in
    let o = Move-oven inv i lt mv f in
    record {
      size = o.size;
      cells = Move-cells inv i lt mv f;
      lock = c.lock;
      room = c.room;
      tally = c.tally;
      marks = o.marks;
      owner = Move-owner inv i lt mv f;
      unique = Move-unique inv i lt mv f;
      scanned = Move-scanned inv i lt mv f;
    }

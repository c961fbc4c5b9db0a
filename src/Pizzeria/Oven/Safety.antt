-- ===== src/Pizzeria/Oven/Safety.antt =====
-- lab07/src/SystemV/cook.c: mutual exclusion at the oven, the places of the cooks and the search loop.
use native.Mathlib.Decide.{dec_lt}
use agh_sem4_sysopy.Common.{
  ℕ, zero, suc, ◌+◌, ◌-◌, ◌≤◌, ◌<◌, ◌≡◌, refl, inl, inr, some, List, [], ◌∷◌, arith, length, get_or,
  set, replicate, count, sum_by, le-sum_by,
}
use agh_sem4_sysopy.Pizzeria.Kitchen.{
  oven_cap, Shared, at, free, taken, Cook, cook_at, Moves, done, then, preparing, placing, placed,
  pass, place, Supplier, Deliver, collect, miss, hit, advance, wrap, uncount, clear, System, cook,
  supplier, opening, Reach, start, later,
}
use agh_sem4_sysopy.Pizzeria.Oven.Defs.{in_section, in_oven, slot_of, has_slot, is_counted, Inv}
use agh_sem4_sysopy.Pizzeria.Oven.Moves.{Move-Inv, alone, is_counted-le, sum_by-le, no_cook}

-- The supplier does not touch the oven.
keep_Inv :
    {m : Shared} {cooks : List Cook} (t : List ℕ) (a b c d e : ℕ)
    → Inv m cooks
    → Inv
        (record m {
          table = t;
          tables_taken = a;
          table_queue_start = b;
          table_place = c;
          table_on = d;
          table_ready = e;
        })
        cooks
keep_Inv t a b c d e inv = record {
  size = inv.size;
  cells = inv.cells;
  lock = inv.lock;
  room = inv.room;
  tally = inv.tally;
  marks = inv.marks;
  owner = inv.owner;
  unique = inv.unique;
  scanned = inv.scanned;
}

Deliver-Inv :
    {m m' : Shared} {cooks : List Cook} {q q' : Supplier}
    → Inv m cooks
    → Deliver m q m' q'
    → Inv m' cooks
Deliver-Inv inv (collect _) = keep_Inv _ _ _ _ _ _ inv
Deliver-Inv inv (miss _) = inv
Deliver-Inv inv (hit _) = inv
Deliver-Inv inv advance = keep_Inv _ _ _ _ _ _ inv
Deliver-Inv inv wrap = keep_Inv _ _ _ _ _ _ inv
Deliver-Inv inv uncount = keep_Inv _ _ _ _ _ _ inv
Deliver-Inv inv clear = keep_Inv _ _ _ _ _ _ inv

sum_by-preparing : (w : Cook → ℕ) → w preparing ≡ 0 → (n : ℕ) → sum_by w (replicate n preparing) ≡ 0
unfolding sum_by
sum_by-preparing w e zero = refl
sum_by-preparing w e (suc n) = omega (arith, e, sum_by-preparing w e n)

replicate_at {ℓ} : {A : Type ℓ} (n i : ℕ) (a : A) → get_or (replicate n a) i a ≡ a
replicate_at zero i a = refl
replicate_at (suc n) zero a = refl
replicate_at (suc n) (suc i) a = replicate_at n i a

cook_at-opening : (n i : ℕ) → cook_at (replicate n preparing) i ≡ preparing
cook_at-opening n i = replicate_at n i preparing

opening-cells : (k : ℕ) → at (replicate 5 free) k ≡ free
opening-cells k = replicate_at 5 k free

opening-Inv : (n m : ℕ) → let s = opening n m in Inv s.mem s.cooks
unfolding count
opening-Inv n m = record {
  size = refl;
  cells = λ k h. inl (opening-cells k);
  lock = omega (arith, sum_by-preparing in_section refl n);
  room = omega (arith, sum_by-preparing in_oven refl n);
  tally = omega (arith, sum_by-preparing is_counted refl n);
  marks = omega (arith, sum_by-preparing has_slot refl n);
  owner = λ i k e. absurd (ground (arith, cook_at-opening n i));
  unique = λ i j k e e'. absurd (ground (arith, cook_at-opening n i));
  scanned = λ i k e. absurd (ground (arith, cook_at-opening n i));
}

Reach-Inv : {n m : ℕ} {s : System} → Reach n m s → Inv s.mem s.cooks
Reach-Inv {n} {m} start = opening-Inv n m
Reach-Inv (later r (cook i lt mv)) = Move-Inv (Reach-Inv r) i lt mv
Reach-Inv (later r (supplier j lt d)) = Deliver-Inv (Reach-Inv r) d

count-all :
    (v : ℕ) (xs : List ℕ)
    → ((j : ℕ) → j < length xs → get_or xs j free ≡ v)
    → count v xs ≡ length xs
unfolding count
count-all v [] h = refl
count-all v (x ∷ xs) h =
    ground (arith, h 0 (omega arith), count-all v xs (λ j l. h (suc j) (omega arith)))

sum_by-lt {ℓ} :
    {A : Type ℓ} (v w : A → ℕ)
    → ((a : A) → v a ≤ w a)
    → (xs : List A) (i : ℕ) (d : A) → i < length xs
    → v (get_or xs i d) < w (get_or xs i d)
    → sum_by v xs < sum_by w xs
unfolding sum_by
sum_by-lt v w h [] i d l e = elim l [ ]
sum_by-lt v w h (x ∷ xs) zero d l e = omega (arith, sum_by-le v w h xs)
sum_by-lt v w h (x ∷ xs) (suc i) d l e = omega (arith, h x, sum_by-lt v w h xs i d (omega arith) e)

has_slot-le : (c : Cook) → has_slot c ≤ in_oven c
has_slot-le c = ground arith

-- The loop of a cook that has come to cell `k` goes on to a free cell and marks it.
pub record Search (m : Shared) (k : ℕ) : Type 0 where
  pub index : ℕ
  pub from : k ≤ index
  pub below : index < oven_cap
  pub is_free : at m.oven index ≡ free
  pub run : Moves m (placing k) (record m { oven = set m.oven index taken }) (placed index)

module _ {m : Shared} {cooks : List Cook} (inv : Inv m cooks) (i : ℕ) where
  open inv use {size, cells, lock, room, marks, owner, unique, scanned}

  at_work : (k : ℕ) → cook_at cooks i ≡ placing k → i < length cooks
  at_work k e = elim (dec_lt i (length cooks)) [
    | yes h ↦ h
    | no h ↦ absurd (ground (arith, no_cook cooks i (omega arith)))
  ]

  -- While a cook looks for a place, not every place is taken.
  not_full : (k : ℕ) → cook_at cooks i ≡ placing k → ((j : ℕ) → j < 5 → at m.oven j ≡ taken) → ⊥
  not_full k e h = ground (arith, c, t, marks, room)
    where
      c : count taken m.oven ≡ 5
      c = omega (arith, size, count-all taken m.oven (λ j l. h j (omega (arith, size))))

      t : sum_by has_slot cooks < sum_by in_oven cooks
      t = sum_by-lt has_slot in_oven has_slot-le cooks i preparing (at_work k e) (ground (arith, e))

  search :
      (k₀ : ℕ)
      → cook_at cooks i ≡ placing k₀
      → (d k : ℕ) → d + k ≡ 5
      → ((j : ℕ) → j < k → at m.oven j ≡ taken)
      → Search m k
  search k₀ e zero k q past = absurd (not_full k₀ e (λ j l. past j (omega arith)))
  search k₀ e (suc d) k q past = elim (cells k (omega arith)) [
    | inl f ↦ record {
      index = k;
      from = omega arith;
      below = omega arith;
      is_free = f;
      run = then (place (omega arith) f) done;
    }
    | inr t ↦
        let r = search k₀ e d (k + 1) (omega arith) (λ j l. elim (dec_lt j k) [
          | yes h ↦ past j h
          | no h ↦ let q : j ≡ k = omega arith in rw q t
        ]) in
        record {
          index = r.index;
          from = omega (arith, r.from);
          below = r.below;
          is_free = r.is_free;
          run = then (pass (omega arith) (ground (arith, t))) r.run;
        }
  ]

-- Of the cooks who run, at most one is at a time in a section of `make_pizza` that `oven_place` guards, and the
-- semaphore is up exactly when there is none.
pub oven_place-exclusive :
    {n m : ℕ} {s : System}
    → Reach n m s
    → (i j : ℕ) → in_section (cook_at s.cooks i) ≡ 1
    → in_section (cook_at s.cooks j) ≡ 1
    → (i ≡ j) × (s.mem.oven_place ≡ 0)
oven_place-exclusive {s = s} r i j a b =
    let inv = Reach-Inv r in
    elim (dec_lt i (length s.cooks)) [
      | yes h ↦ (
        alone inv i h j a b,
        omega (arith, le-sum_by in_section s.cooks i preparing h, inv.lock, a),
      )
      | no h ↦ absurd (ground (arith, no_cook s.cooks i (omega arith)))
    ]

-- However the cooks and the suppliers interleave, a cook whose search for a place in the oven has
-- come to cell `k` comes by its own next statements to a free cell of the array, at `k` or after
-- it, and marks it.
pub oven_loop-ends :
    {n m : ℕ} {s : System}
    → Reach n m s
    → (i k : ℕ) → cook_at s.cooks i ≡ placing k
    → Search s.mem k
oven_loop-ends {s = s} r i k e =
    let inv = Reach-Inv r in
    elim (dec_lt k 6) [
      | yes h ↦ search inv i k e (5 - k) k (omega arith) (λ j l. (inv.scanned i k e j l).1)
      | no h ↦ absurd (omega (arith, (inv.scanned i k e 5 (omega arith)).0))
    ]

pub record OvenView (s : System) : Type 0 where
  pub distinct :
      (i j k : ℕ)
      → slot_of (cook_at s.cooks i) ≡ some k
      → slot_of (cook_at s.cooks j) ≡ some k
      → i ≡ j
  pub marked :
      (i k : ℕ) → slot_of (cook_at s.cooks i) ≡ some k → (k < oven_cap) × (at s.mem.oven k ≡ taken)
  pub no_more : count taken s.mem.oven ≡ sum_by has_slot s.cooks
  pub tally : s.mem.ovens_taken ≡ sum_by is_counted s.cooks
  pub fits : s.mem.ovens_taken ≤ oven_cap

-- In every reachable state the cooks whose pizzas are in the oven hold different cells, each of them inside the array
-- and marked; no other cell is marked; and `ovens_taken` is the number of the cooks it is to count, at most the five
-- that the oven takes.
pub oven-places : {n m : ℕ} {s : System} → Reach n m s → OvenView s
oven-places {s = s} r =
    let inv = Reach-Inv r in
    record {
      distinct = inv.unique;
      marked = inv.owner;
      no_more = inv.marks;
      tally = inv.tally;
      fits = omega (arith, inv.tally, inv.room, sum_by-le is_counted in_oven is_counted-le s.cooks);
    }

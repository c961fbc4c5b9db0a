-- ===== src/Pizzeria/Posix/Laws.antt =====
-- lab07/src/POSIX: what the semaphores admit.
use native.Mathlib.Decide.{dec_lt, ℕ_discrete}
use agh_sem4_sysopy.Common.{
  ℕ, zero, suc, ◌+◌, ◌≤◌, ◌<◌, ◌≡◌, refl, ap, ◌⊎◌, inl, inr, List, [], ◌∷◌, arith, length, sum_by,
  le-sum_by, add-le-sum_by,
}
use agh_sem4_sysopy.Pizzeria.Posix.{oven_cap, table_cap, Cook, preparing, System, cook_at, Reach}
use agh_sem4_sysopy.Pizzeria.Posix.Counts.{
  in_oven, in_place, takes_out, at_table, brings, collects, Reach-Counts,
}

no_cook : (cooks : List Cook) (j : ℕ) → length cooks ≤ j → cook_at cooks j ≡ preparing
no_cook [] j h = refl
no_cook (c ∷ cooks) zero h = absurd (omega arith)
no_cook (c ∷ cooks) (suc j) h = no_cook cooks j (omega arith)

present :
    (w : Cook → ℕ)
    → w preparing ≡ 0
    → (cooks : List Cook) (i : ℕ) → w (cook_at cooks i) ≡ 1
    → i < length cooks
present w z cooks i a = elim (dec_lt i (length cooks)) [
  | yes h ↦ h
  | no h ↦ absurd (omega (arith, a, z, ap w (no_cook cooks i (omega arith))))
]

-- Where a count is at most one, two cooks who are counted are one.
alone :
    (w : Cook → ℕ)
    → w preparing ≡ 0
    → (cooks : List Cook) → sum_by w cooks ≤ 1
    → (i j : ℕ) → w (cook_at cooks i) ≡ 1
    → w (cook_at cooks j) ≡ 1
    → i ≡ j
alone w z cooks few i j a b = elim (ℕ_discrete i j) [
  | yes e ↦ e
  | no n ↦ absurd (
      omega (
        arith,
        few,
        a,
        b,
        add-le-sum_by w cooks i j preparing (present w z cooks i a) (present w z cooks j b) n,
      ))
]

-- In every reachable state oven_in and the cooks between their sem_wait and their sem_post of it are five together;
-- and every one of the five places on the table is free, promised to a cook, ready to be collected or
-- being collected.
pub posix-totals :
    {n m : ℕ} {s : System}
    → Reach n m s
    → (s.mem.oven_in + sum_by in_oven s.cooks ≡ oven_cap)
      × (s.mem.table_on + sum_by brings s.cooks + s.mem.table_ready + sum_by collects s.suppliers
          ≡ table_cap)
posix-totals {s = s} r = ((Reach-Counts r).room, (Reach-Counts r).pizzas)

-- In every reachable state two cooks between their sem_wait and their sem_post of table_place are one.
pub posix_table-exclusive :
    {n m : ℕ} {s : System}
    → Reach n m s
    → (i j : ℕ) → at_table (cook_at s.cooks i) ≡ 1
    → at_table (cook_at s.cooks j) ≡ 1
    → i ≡ j
posix_table-exclusive {s = s} r i j a b =
    alone at_table refl s.cooks (omega (arith, (Reach-Counts r).table)) i j a b

-- In every reachable state in which some cook takes a pizza out of the oven, a cook who waits for oven_place goes on at
-- once, or two cooks are already between their sem_wait and their first sem_post of it.
pub posix_oven-shared :
    {n m : ℕ} {s : System}
    → Reach n m s
    → (i : ℕ) → takes_out (cook_at s.cooks i) ≡ 1
    → (0 < s.mem.oven_place) ⊎ (1 < sum_by in_place s.cooks)
posix_oven-shared {s = s} r i a =
    let some_out = le-sum_by takes_out s.cooks i preparing (present takes_out refl s.cooks i a) in
    elim (dec_lt 0 s.mem.oven_place) [
      | yes h ↦ inl h
      | no h ↦ inr (omega (arith, some_out, a, (Reach-Counts r).place))
    ]

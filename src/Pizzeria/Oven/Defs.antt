-- ===== src/Pizzeria/Oven/Defs.antt =====
-- lab07/src/SystemV/cook.c: what holds of the oven while cooks use it.
use agh_sem4_sysopy.Common.{ℕ, ◌+◌, ◌<◌, ◌≡◌, ◌⊎◌, Option, none, some, List, length, count, sum_by}
use agh_sem4_sysopy.Pizzeria.Kitchen.{
  Shared, at, free, taken, Cook, cook_at, preparing, entering, placing, placed, baking, pulling,
  emptying, pulled, serving, laying, stocked, laid,
}

-- Between the `semop` that takes `oven_place` and the one that gives it back.
abbrev pub in_section : Cook → ℕ
in_section preparing = 0
in_section (baking _) = 0
in_section serving = 0
in_section (laying _) = 0
in_section stocked = 0
in_section laid = 0
in_section _ = 1

-- Between the `semop` that takes `oven_in` and the one that gives it back.
abbrev pub in_oven : Cook → ℕ
in_oven preparing = 0
in_oven serving = 0
in_oven (laying _) = 0
in_oven stocked = 0
in_oven laid = 0
in_oven _ = 1

-- The place of the oven that a cook has marked.
abbrev pub slot_of : Cook → Option ℕ
slot_of (placed k) = some k
slot_of (baking k) = some k
slot_of (pulling k) = some k
slot_of (emptying k) = some k
slot_of preparing = none
slot_of entering = none
slot_of (placing _) = none
slot_of pulled = none
slot_of serving = none
slot_of (laying _) = none
slot_of stocked = none
slot_of laid = none

abbrev pub has_slot : Cook → ℕ
has_slot p = elim (slot_of p) [ none ↦ 0 | some k ↦ 1 ]

-- A cook whose pizza `ovens_taken` counts.
abbrev pub is_counted : Cook → ℕ
is_counted (placing _) = 1
is_counted (placed _) = 1
is_counted (baking _) = 1
is_counted (pulling _) = 1
is_counted preparing = 0
is_counted entering = 0
is_counted (emptying _) = 0
is_counted pulled = 0
is_counted serving = 0
is_counted (laying _) = 0
is_counted stocked = 0
is_counted laid = 0

pub record Inv (m : Shared) (cooks : List Cook) : Type 0 where
  pub size : length m.oven ≡ 5
  pub cells : (k : ℕ) → k < 5 → (at m.oven k ≡ free) ⊎ (at m.oven k ≡ taken)
  pub lock : m.oven_place + sum_by in_section cooks ≡ 1
  pub room : m.oven_in + sum_by in_oven cooks ≡ 5
  pub tally : m.ovens_taken ≡ sum_by is_counted cooks
  pub marks : count taken m.oven ≡ sum_by has_slot cooks
  pub owner : (i k : ℕ) → slot_of (cook_at cooks i) ≡ some k → (k < 5) × (at m.oven k ≡ taken)
  pub unique :
      (i j k : ℕ) → slot_of (cook_at cooks i) ≡ some k → slot_of (cook_at cooks j) ≡ some k → i ≡ j
  pub scanned :
      (i k : ℕ) → cook_at cooks i ≡ placing k → (j : ℕ) → j < k → (j < 5) × (at m.oven j ≡ taken)

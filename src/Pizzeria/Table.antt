-- ===== src/Pizzeria/Table.antt =====
-- lab07/src/SystemV: what happens when `deliver` of supplier.c has raised `table_on` and not yet cleared the table.
use agh_sem4_sysopy.Common.{ℕ, zero, suc, ◌+◌, ◌<◌, ◌≡◌, refl, ◌≢◌, arith}
use agh_sem4_sysopy.Pizzeria.Kitchen.{
  Shared, at, free, table_cap, Cook, Move, Moves, done, then, serving, laying, approach, skip, lay,
  waiting, looking, Deliver, collect,
}

-- A supplier takes a pizza to deliver, and a cook's search for room on the table then reads past its end.
pub record Overrun (m : Shared) : Type 0 where
  pub collected : Shared
  pub took : Deliver m waiting collected (looking 0)
  pub after : Shared
  pub searched : Moves collected serving after (laying table_cap)
  pub past_end : (m' : Shared) (p : Cook) → Move after (laying table_cap) m' p → ⊥

skips :
    (m : Shared)
    → ((k : ℕ) → k < table_cap → at m.table k ≢ free)
    → (d i : ℕ) → d + i ≡ table_cap
    → Moves m (laying i) m (laying table_cap)
skips m full zero i e = let q : i ≡ table_cap = omega arith in rw q done
skips m full (suc d) i e =
    then (skip (omega arith) (full i (omega arith))) (skips m full d (i + 1) (omega arith))

no_move : (m m' : Shared) (p : Cook) → Move m (laying table_cap) m' p → ⊥
no_move m m' p (skip h _) = omega (arith, h)
no_move m m' p (lay _ h _ _) = omega (arith, h)

-- If every cell of the table is taken, a pizza waits for its supplier and no cook is at the table, then once a
-- supplier has taken up the pizza, a cook who comes to serve passes every cell and reads past the end of the table.
pub table-overruns :
    (m : Shared)
    → ((k : ℕ) → k < table_cap → at m.table k ≢ free)
    → 0 < m.table_ready
    → 0 < m.table_place
    → Overrun m
table-overruns m full ready place = record {
  collected = _;
  took = collect ready;
  after = _;
  searched = then (approach place (omega arith)) (skips _ full table_cap 0 refl);
  past_end = no_move _;
}

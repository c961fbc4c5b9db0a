-- ===== src/Pizzeria/Oven.antt =====
-- lab07/src/SystemV/cook.c: the invariant of the oven, and that every step keeps it.
pub mod Defs
pub mod Moves
pub mod Safety

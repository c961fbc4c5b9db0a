-- ===== src/Pipes.antt =====
-- The interpreter of pipelines (lab05/src/ex1.c).
pub mod Trim
pub mod Commands
pub mod Spawn
mod Tests

-- ===== src/Pizzeria.antt =====
-- The pizzeria over System V semaphores and shared memory (lab07/src/SystemV).
pub mod Kitchen
pub mod Oven
pub mod Table
mod Tests
pub mod Posix

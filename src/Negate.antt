-- ===== src/Negate.antt =====
-- Negating a grey image with threads (lab08/src).
pub mod Image
pub mod Numbers
pub mod Blocks
pub mod Methods
pub mod Files
pub mod Program
mod Tests

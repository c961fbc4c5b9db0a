-- ===== src/Tools.antt =====
-- The text tools (lab02/src/lib), as they are built over `read` and `write`.
pub mod Lines
pub mod Breaking
pub mod Numbers
pub mod Replacing
mod Tests

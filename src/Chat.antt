-- ===== src/Chat.antt =====
-- The chat over System V message queues (lab06/src/SystemV).
pub mod Message
pub mod Server
pub mod Posix
pub mod Client
pub mod Tests

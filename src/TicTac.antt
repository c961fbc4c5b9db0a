-- ===== src/TicTac.antt =====
-- The noughts-and-crosses server and client over TCP (lab10/tcp/src).
pub mod Message
pub mod Board
pub mod Server
pub mod Table
pub mod Game
pub mod Pinger
pub mod Player
pub mod Tests

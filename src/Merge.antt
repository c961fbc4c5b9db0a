-- ===== src/Merge.antt =====
-- Merging text files line by line, and the array of blocks that holds the results (lab01/src/lib).
pub mod Files
pub mod Blocks
pub mod Interleaved
pub mod Laws
pub mod Adding
mod Tests

-- ===== src/Libc.antt =====
-- The C standard library's functions that the sources rely on, over lists of character codes.
pub mod Strings
pub mod Numbers
pub mod Text
pub mod Input

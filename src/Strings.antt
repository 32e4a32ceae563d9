-- ===== src/Strings.antt =====
-- The functions on strings of library/type/string.c.
pub mod Scan
pub mod Laws
pub mod Words
pub mod Lines
mod Tests

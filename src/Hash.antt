-- ===== src/Hash.antt =====
-- The hash table of library/type/hash.c, include/hemp/type/hash.h and include/hemp/slot.h: its
-- operations (Table, Match, Jenkins), what a table means (Column, Valid) and their laws.
mod Match
pub mod Jenkins
pub mod Table
pub mod Column
pub mod Valid
pub mod Grow
pub mod Laws
pub mod Entries
pub mod Walk
mod Tests
pub use Match.*

-- ===== src/Ptrees.antt =====
-- The prefix trees of library/ptree.c.
pub mod Tree
pub mod Laws
pub mod Stores
pub mod Duplicates
pub mod Fetch
pub mod RoundTrip
pub mod Match
mod Tests

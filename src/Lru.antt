-- ===== src/Lru.antt =====
-- The least-recently-used cache of library/cache.c.
pub mod Slots
pub mod Links
pub mod Order
pub mod Cache
pub mod Laws
mod Tests

-- ===== src/Texts.antt =====
-- The growing texts of library/type/text.c.
pub mod Buffer
pub mod Laws
mod Moves
pub mod Edits
mod Tests

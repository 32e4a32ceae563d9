-- ===== src/ListType.antt =====
-- The lists of library/type/list.c: the operations on the allocated cells, and what they do to the
-- list of items that the cells stand for.
pub mod Items
pub mod Cells
pub mod Laws
pub mod Ends
pub mod Stores
pub mod Pushes
mod Tests

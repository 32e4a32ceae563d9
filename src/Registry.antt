-- ===== src/Registry.antt =====
-- What is looked up by name: the factories of library/factory.c and the elements of a grammar,
-- library/grammar.c.
pub mod Splits
pub mod Factory
pub mod Lookups
pub mod Single
pub mod Forest
pub mod Grammar
pub mod Elements
pub mod Additions
mod Tests

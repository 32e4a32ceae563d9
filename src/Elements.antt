-- ===== src/Elements.antt =====
-- The parsing of expressions by precedence: library/element.c, library/parser.c, and the elements of
-- library/element.
pub mod Outcome
pub mod Roles
pub mod Parser
pub mod Trees
pub mod Sound
pub mod Calls
pub mod Laws
mod Tests

-- ===== src/Params.antt =====
-- The parameters of a sub: their declaration, library/proto.c, and their values in a call,
-- library/type/code.c.
pub mod Proto
pub mod Resolve
pub mod Outcomes
pub mod Built
pub mod Reads
mod Tests

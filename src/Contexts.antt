-- ===== src/Contexts.antt =====
-- The variables of an evaluation: library/context.c, library/frame.c, and the calls that the elements make.
pub mod Vars
pub mod Runs
pub mod Kept
pub mod Frames
pub mod Tables
pub mod Calls
pub mod Laws
mod Tests

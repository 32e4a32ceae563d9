-- ===== src/Values.antt =====
-- The values of include/hemp/value.h, which are words of 64 bits, and the operators on them:
-- library/element/boolean.c, compare.c and number.c.
pub mod Word
pub mod Logic
pub mod Signed
pub mod Number
pub mod Laws
pub mod Arithmetic
pub mod Operators
mod Tests

-- ===== src/Uri.antt =====
-- The URIs of library/uri.c and include/hemp/uri.h: splitting, joining, the paths and the parameters
-- in them, and the resolution of relative references.
pub mod Split
pub mod Join
pub mod Text
pub mod Parts
pub mod PartLaws
pub mod Paths
pub mod JoinLaws
pub mod Collapse
pub mod Relative
pub mod Queries
pub mod Joined
pub mod Whole
mod Tests

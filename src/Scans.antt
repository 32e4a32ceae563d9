-- ===== src/Scans.antt =====
-- The scanner: library/scanner.c, the tags under library/tag/, library/tagset.c, library/grammar.c and the
-- scanners of elements under library/element/.
pub mod Document
pub mod Quoted
pub mod Tokens
pub mod Tags
pub mod Tagset
pub mod Told
pub mod Walks
pub mod TokenLaws
pub mod TagLaws
pub mod LoopLaws
pub mod ScannerLaws
pub mod Lossless
pub mod Places
pub mod TagsetLaws
pub mod Quotes
mod Tests

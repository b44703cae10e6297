-- ===== src/Util.antt =====
-- The package util.
pub mod Limiter
pub mod Slices
pub mod Shuffle
pub mod Merge
pub mod Maps

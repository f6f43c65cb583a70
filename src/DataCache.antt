-- ===== src/DataCache.antt =====
-- The package datacache: a cache of one value (Single) and of a value for each key (Keyed).
pub mod Copied
pub mod Keyed
pub mod Single

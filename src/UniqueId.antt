-- ===== src/UniqueId.antt =====
-- The package uniqueid: the id generator (Generator) and the textual form of an id (Text).
pub mod Generator
pub mod Host
pub mod Text

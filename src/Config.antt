-- ===== src/Config.antt =====
-- The package config: configuration maps and their typed getters.
pub mod StringMap
mod Examples

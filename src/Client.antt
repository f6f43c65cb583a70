-- ===== src/Client.antt =====
-- The packages client/database, client/cache and client/pulsar: clients by name, and the Redis client.
pub mod Codec
pub mod Databases
pub mod Redis
mod Examples

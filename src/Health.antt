-- ===== src/Health.antt =====
-- The package health: the status of a check (Status), the checks run side by side (Composite), the
-- runner's cycle (Runner) and the gRPC service (Server).
pub mod Status
pub mod Composite
pub mod Runner
pub mod Server
mod Examples

-- ===== src/Http.antt =====
-- The package client/http: what a request is made of, and what its answer becomes.
pub mod Value
pub mod Form
pub mod Header
pub mod Client
pub mod Request
mod Examples

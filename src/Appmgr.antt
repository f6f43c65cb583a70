-- ===== src/Appmgr.antt =====
-- The package appmgr: middlewares by name, the handlers that they make, and the run of an application.
pub mod Chain
pub mod Clients
pub mod Context
pub mod Dial
pub mod Init
pub mod Middleware
pub mod Run
pub mod Serve
pub mod Services
pub mod Tls
mod ChainExamples
mod Examples
mod InitExamples
mod RunExamples

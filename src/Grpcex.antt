-- ===== src/Grpcex.antt =====
-- The package grpcex: access control and message validation of the gRPC server.
pub mod Access
pub mod Calls
pub mod Metadata
pub mod Validator
pub mod Zerolog
mod Examples
mod MessageExamples

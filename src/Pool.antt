-- ===== src/Pool.antt =====
-- The package pool: the linked list of idle connections (IdleList), the methods of a pool (Methods),
-- the whole of a Get (Get), Get and Put by the connection (Conns), and many goroutines that use one pool (System).
pub mod IdleList
pub mod Methods
pub mod Get
pub mod Conns
pub mod System
mod Examples

-- ===== src/Route.antt =====
-- Routing between the peers of easytier: src/easytier/src/peers.
pub mod Dijkstra
pub mod Messages
pub mod Newest
pub mod Synced
pub mod Conns
pub mod Trust
pub mod Session
pub mod Table
pub mod Graph

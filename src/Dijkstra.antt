-- ===== src/Dijkstra.antt =====
-- Shortest paths, dijkstra/dijkstra.c.
pub mod Run
pub mod Paths
mod Examples

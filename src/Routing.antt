-- ===== src/Routing.antt =====
-- src/routing: paths and the search for the best one.
pub mod Paths
pub mod Dijkstra

-- ===== src/Network.antt =====
-- src/network: the graph that is routed on.
pub mod Graph
pub mod Geo
pub mod Street

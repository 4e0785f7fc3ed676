-- ===== src/Configs.antt =====
-- configs: what a configuration says of a graph's metrics, and the checks on it.
pub mod Kissunits
pub mod Nodes
pub mod Generating
pub mod Metrics
pub mod Edges
pub mod GeneratedEdges

-- ===== src/Building.antt =====
-- network/graph/building.rs: what the edges and nodes of a file pass through on their way to a
-- graph. The children follow the stages of `EdgeBuilder`, `NodeBuilder` and `finalize`.
pub mod Protos
pub mod Nodes
pub mod Offsets
pub mod Shortcuts
pub mod Dedup
pub mod Remap
pub mod Checks
pub mod Chunks
pub mod Stages
pub mod Normalize
pub mod Finalize

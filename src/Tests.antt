-- ===== src/Tests.antt =====
-- The concrete inputs at which the library's theorems are applied.
pub mod Numbers
pub mod Offsets
pub mod Shortcuts
pub mod Builders
pub mod Paths
pub mod Streets
pub mod Stages
pub mod Leaving
pub mod Search
pub mod Configs
pub mod Finalize
pub mod Built
pub mod SmallGraph
pub mod Fmi

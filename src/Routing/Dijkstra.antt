-- ===== src/Routing/Dijkstra.antt =====
-- routing/dijkstra.rs: the bidirectional search, for plain and for contracted graphs.
-- `BinaryHeap` is a list from which `pop` takes a smallest node of the reversed order. The outer
-- loop and the two walks along the predecessors take fuel; `none` means that it ran out.
pub mod State
pub mod Search
pub mod Init
pub mod Chain
pub mod Walk
pub mod Order
pub mod Sides
pub mod Improve
pub mod Relax
pub mod Meeting
pub mod Settle
pub mod Loop
pub mod Start
pub mod Correct

-- ===== src/Lib.antt =====
-- osmgraphing: a library that builds road-graphs with several metrics per edge from OSM-data and
-- finds best paths on them, also over the shortcuts of contracted graphs. This development models
-- the core of it: building a graph, reading it, routing on it, and the meaning of OSM-tags.
--
-- Parts and files:
--   Prelude, Rust    shared notation and lemmas; what the source takes from Rust: panics and errors
--                    (Rust/Outcome), indexing of vectors (Rust/Vec), binary search (Rust/Search),
--                    sorting and dedup (Rust/Sort), f64 as a record of operations (Rust/Float), the
--                    words of a text (Rust/Words), and integers as texts (Rust/Numerals).
--   Network/Graph    src/network/graph/mod.rs: Graph and its accessors. An index out of range is a
--                    `panic`; `offset_indices` and `starting_from` return the iterator's items.
--   Network/Street   src/network/mod.rs and src/defaults.rs: street-types, their defaults, and the
--                    values of the tags highway, oneway and maxspeed.
--   Building         src/network/graph/building.rs. Protos has the structs, Nodes the methods of
--                    EdgeBuilder and NodeBuilder and the coordinate check of finalize, Chunks the loops
--                    that work off a vector in chunks, Stages the replacement of ids, the sorting by
--                    keys and the storing of metrics, Remap the new indices of shortcuts after the
--                    sorting, Dedup the removal of duplicates and the correction of shortcuts, Checks
--                    the checks of the metrics and the mapping from edge-ids, Shortcuts the shortcut-
--                    offsets, Offsets the forward and the backward offset-arrays, Normalize the division
--                    by means, and Finalize the composition: Leaving has what its graph's edges are,
--                    Total why it does not panic, and Built the same from the insertions on. Each
--                    has its proofs in child modules named for what they prove.
--   Configs          src/configs/parsing/edges/mod.rs (Edges), src/configs/parsing/edges/metrics.rs
--                    (Metrics), src/configs/parsing/generating/edges/metrics.rs (Generating) and
--                    src/configs/parsing/generating/edges/mod.rs (GeneratedEdges): units, their
--                    conversion, and the checks of ids. The conversions of the crate kissunits are
--                    a record of operations (Kissunits), about which nothing is assumed.
--                    Nodes has src/configs/parsing/nodes.
--   Parsing          src/io/parsing/network/graph: the configuration's check (Config), the lines with
--                    counts, nodes and edges (Lines), a line as an edge (EdgeLine) and as a node
--                    (NodeLine), and the parser of fmi-files (Fmi). EdgeLine/Params, EdgeLine/RoundTrip
--                    and EdgeLine/Values lead to EdgeLine/Held and EdgeLine/Written, which read what
--                    is written; EdgeLine/Dimension counts the metrics, Fmi/Loops, Fmi/NodeLines and
--                    Fmi/EdgeLines have the loops over lines, Fmi/Sections and Fmi/Printed the parts
--                    of a written file, and Fmi/Finalized goes on to finalize.
--   Writing          src/io/writing/network and src/configs/writing/network: the configuration
--                    (Config), a row of columns (Row), a node's and an edge's line (NodeLine,
--                    EdgeLine) and the file (Fmi). Row/Lookup has how a column is found by its id.
--   Approximating    src/approximating.rs: comparison up to the accuracy.
--   Helpers          src/helpers/mod.rs: vector operations.
--   Routing/Paths    src/routing/paths.rs: paths, their costs, and the flattening of shortcuts.
--   Routing/Dijkstra src/routing/dijkstra.rs: the bidirectional search, its state (State), its start and
--                    its loops (Search). Order has the ranks of costs, Chain and Walk the predecessors
--                    as walks, Sides, Improve, Relax, Meeting, Settle and Loop what a round does to
--                    the state and why the loop ends, Start and Correct the whole query, Init its
--                    start.
--   Tests            concrete inputs at which the theorems are applied.
--
-- The parser of fmi-files inserts what it reads into the builders, and the writer prints a graph
-- through its accessors. A builder hands its vectors to the next one; finalize sorts the edges, removes duplicates, and
-- writes the arrays from which the accessors read. Dijkstra reads leaving edges by `starting_from`,
-- and a path with shortcuts is flattened by `sc_edges`.
--
-- Conventions: usize is the native ℕ, and i64-ids are integers; the sums formed of them are
-- indices into vectors, which do not reach the bound of the machine. `f64` is any type with the
-- record's operations, about which nothing is assumed but by the search: there every cost has a
-- rank, and the operations compare costs as their ranks. In-place loops pass their state on; a
-- `for`-loop with an early end is a recursion on the number of rounds left. The `while`-loops of
-- the offset-arrays have fuel, which is one more than the node's index, the inner loop of the
-- flattening has two more than the number of edges, and the outer one has any fuel above the
-- length of the result. The search and the walk over predecessors take fuel as an argument.
--
-- A loop in chunks has one round per element and one more, and Finalize counts a loop without
-- rounds left as a panic. The sizes of chunks depend on the sizes of types and are arguments.
--
-- A file is the list of its lines, and a text the list of its code points. Reading and displaying
-- `i64` and `usize` of 64 bits are written out; `f64` as text is a record of two operations (Rust/
-- Float), about which the round trips assume that a displayed value is a word and is read back. The
-- coordinates of the crate kissunits are a record of two getters and a constructor (Network/Geo). The
-- sums of the parser's ranges of lines panic on overflow, as in a debug build. Of the debug-
-- assertions, those on the alphas and on visited nodes in Dijkstra are modelled as panics; the ones
-- on the fixed numbers of the directions, and the one behind the backward-offset-array, which
-- compares a counter of the rounds with their number, are left out.
--
-- Not modelled: logging and progress-bars, opening files, pbf-files, the deserialisation of
-- configurations (a graph's own configuration is its dimension and whether it is normalised), the
-- generating of metrics in finalize, which is that for a configuration without it (but the check
-- of generated ids is modelled), the shrinking of vectors, the explorator, the balancer and the
-- contraction-tool. The heap of Dijkstra is a list from which a least element is taken, which is
-- what a binary heap does where the order of its elements is transitive; of elements with the same
-- order the heap may take another one than the list.
pub mod Prelude
pub mod Rust
pub mod Network
pub mod Building
pub mod Approximating
pub mod Helpers
pub mod Routing
pub mod Parsing
pub mod Writing
pub mod Tests
pub mod Configs

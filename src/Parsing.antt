-- ===== src/Parsing.antt =====
-- src/io/parsing/network/graph: the parser of fmi-files, from the lines to the builders. A file is
-- the list of its lines; opening and reading it is not modelled.
pub mod Config
pub mod EdgeLine
pub mod NodeLine
pub mod Lines
pub mod Fmi

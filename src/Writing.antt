-- ===== src/Writing.antt =====
-- src/io/writing/network: the writer of fmi-files. A file is the list of its lines; opening it and
-- errors of the file-system are not modelled.
pub mod Config
pub mod Row
pub mod NodeLine
pub mod EdgeLine
pub mod Fmi

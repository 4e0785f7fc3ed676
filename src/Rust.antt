-- ===== src/Rust.antt =====
-- The parts of Rust's language and standard library that the program uses, as models.
pub mod Outcome
pub mod Float
pub mod Vec
pub mod Search
pub mod Sort
pub mod Words
pub mod Numerals

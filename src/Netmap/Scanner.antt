-- ===== src/Netmap/Scanner.antt =====
-- crates/ts-netmap/src/scanner.rs: a JSON scanner that takes a byte at a time. The consumer of the
-- tokens is a parameter, with a state of its own. An error ends the scan, and no state comes back.
pub mod Text
pub mod Step
pub mod Progress
pub mod Loop
pub mod Brackets
pub mod Nesting

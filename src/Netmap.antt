-- ===== src/Netmap.antt =====
-- crates/ts-netmap: the map of the network, read from a stream; here its framing and its tokens.
pub mod Error
pub mod Frame
pub mod Scanner
mod Tests

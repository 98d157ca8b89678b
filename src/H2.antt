-- ===== src/H2.antt =====
-- crates/micro-h2: the HTTP/2 client of the control plane; here its header compression (HPACK).
pub mod Error
pub mod Hpack
pub mod Frame
mod Tests

-- ===== src/Nat.antt =====
-- firmware/src/nat.rs: source address translation of the flows that leave the tunnel.
pub mod Table
pub mod Checksum
pub mod Udp
mod Tests

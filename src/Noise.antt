-- ===== src/Noise.antt =====
-- crates/ts-noise: the control channel; here its record layer and the payload before HTTP/2.
pub mod Record
pub mod Early
mod Tests

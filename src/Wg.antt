-- ===== src/Wg.antt =====
-- crates/wg-core: the WireGuard core.
pub mod Budget
pub mod Timers
pub mod Replay
pub mod Ip
pub mod Error
pub mod Crypto
pub mod Messages
pub mod Session
pub mod Noise
pub mod Device
mod SessionTests
mod NoiseTests
mod DeviceTests
mod Tests

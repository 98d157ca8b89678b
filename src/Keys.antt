-- ===== src/Keys.antt =====
-- crates/ts-keys: the keys of a node, as text (src/encoding.rs) and as a stored blob (src/store.rs).
pub mod Encoding
pub mod Blob
mod Tests

-- ===== src/H2/Hpack.antt =====
-- crates/micro-h2/src/hpack: header compression.
pub mod Integer
pub mod StaticTable
pub mod Dynamic
pub mod Huffman
pub mod Decoder
pub mod Encoder

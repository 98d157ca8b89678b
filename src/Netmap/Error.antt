-- ===== src/Netmap/Error.antt =====
-- The `Error` of crates/ts-netmap/src/lib.rs.
pub data Error : Type 0 where
  json full malformed frame_too_large : Error

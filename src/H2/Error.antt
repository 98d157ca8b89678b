-- ===== src/H2/Error.antt =====
-- The `Error` of crates/micro-h2/src/lib.rs.
pub data Error : Type 0 where
  incomplete : Error
  protocol : Error
  hpack : Error
  buffer_too_small : Error
  frame_too_large : Error
  go_away : Error
  stream_reset : Error
  too_many_streams : Error

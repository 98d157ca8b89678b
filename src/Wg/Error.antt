-- ===== src/Wg/Error.antt =====
-- The `Error` of crates/wg-core/src/lib.rs.
pub data Error : Type 0 where
  malformed : Error
  invalid_mac : Error
  invalid_public_key : Error
  decryption : Error
  unknown_peer : Error
  unknown_session : Error
  stale_timestamp : Error
  replay : Error
  session_expired : Error
  no_session : Error
  unconfirmed : Error
  rate_limited : Error
  buffer_too_small : Error
  too_many_peers : Error
  unsupported : Error

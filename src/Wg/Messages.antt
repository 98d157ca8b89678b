-- ===== src/Wg/Messages.antt =====
-- crates/wg-core/src/messages.rs: the wire formats as byte offsets. A range is a start and a length.
use tailfeather.Common.{ℕ, List, [], ◌∷◌, take, drop, Result, ok, err}
use tailfeather.Common.Bytes.{from_le_bytes}
use tailfeather.Wg.Error.{Error, malformed}

abbrev pub type_initiation : ℕ
type_initiation = 1

abbrev pub type_response : ℕ
type_response = 2

abbrev pub type_cookie_reply : ℕ
type_cookie_reply = 3

abbrev pub type_data : ℕ
type_data = 4

-- `data::HEADER_LEN`, and the ranges `RECEIVER` and `COUNTER` of a datagram.
abbrev pub header_len : ℕ
header_len = 16

abbrev pub receiver_bytes : List ℕ → List ℕ
receiver_bytes datagram = take 4 (drop 4 datagram)

abbrev pub counter_bytes : List ℕ → List ℕ
counter_bytes datagram = take 8 (drop 8 datagram)

unfoldable pub message_type : List ℕ → Result Error ℕ
message_type [] = err malformed
message_type (ty ∷ rest) = ok ty

-- The four bytes that `put_header` writes.
abbrev pub header : ℕ → List ℕ
header ty = ty ∷ 0 ∷ 0 ∷ 0 ∷ []

abbrev pub get_u32 : List ℕ → ℕ
get_u32 = from_le_bytes

abbrev pub get_u64 : List ℕ → ℕ
get_u64 = from_le_bytes

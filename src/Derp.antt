-- ===== src/Derp.antt =====
-- crates/ts-derp: the client of the relay; here src/frame.rs, its frames.
pub mod RoundTrip
mod Tests
use tailfeather.Common.{
  ℕ, ◌+◌, ltb, ◌==◌, if◌then◌else◌, List, [], ◌∷◌, ◌++◌, length, get_or, Result, ok, err,
}
use tailfeather.Common.Bytes.{be32, from_be32, put_front}

pub data Error : Type 0 where
  incomplete malformed decryption too_large buffer_too_small unsupported : Error

abbrev pub header_len : ℕ
header_len = 5

abbrev pub max_frame : ℕ
max_frame = 4096

pub data FrameType : Type 0 where
  server_key client_info server_info send_packet recv_packet : FrameType
  keep_alive note_preferred peer_gone : FrameType
  other : ℕ → FrameType

unfoldable pub from_byte : ℕ → FrameType
from_byte byte =
    if byte == 0x01
    then server_key
    else if byte == 0x02
    then client_info
    else if byte == 0x03
    then server_info
    else if byte == 0x04
    then send_packet
    else if byte == 0x05
    then recv_packet
    else if byte == 0x06
    then keep_alive
    else if byte == 0x07
    then note_preferred
    else if byte == 0x08
    then peer_gone
    else other byte

unfoldable pub to_byte : FrameType → ℕ
to_byte server_key = 0x01
to_byte client_info = 0x02
to_byte server_info = 0x03
to_byte send_packet = 0x04
to_byte recv_packet = 0x05
to_byte keep_alive = 0x06
to_byte note_preferred = 0x07
to_byte peer_gone = 0x08
to_byte (other byte) = byte

pub record Frame : Type 0 where
  pub kind : FrameType
  pub length_of : ℕ

unfoldable pub parse : List ℕ → Result Error Frame
unfolding from_byte
parse bytes =
    let announced =
      from_be32 (get_or bytes 1 0) (get_or bytes 2 0) (get_or bytes 3 0) (get_or bytes 4 0) in
    if ltb (length bytes) header_len
    then err incomplete
    else if ltb max_frame announced
    then err too_large
    else ok (record { kind = from_byte (get_or bytes 0 0); length_of = announced })

-- The bytes of a frame. Its length is cast to a `u32`.
unfoldable pub frame_bytes : FrameType → List ℕ → List ℕ
unfolding be32 to_byte
frame_bytes kind payload = (to_byte kind ∷ be32 (length payload)) ++ payload

unfoldable pub write : FrameType → List ℕ → List ℕ → List ℕ × Result Error ℕ
unfolding frame_bytes
write kind payload out = put_front buffer_too_small (frame_bytes kind payload) out

-- ===== src/Derp/RoundTrip.antt =====
-- A written frame is read back.
use tailfeather.Common.{ℕ, ◌+◌, ◌^◌, ◌≤◌, ◌<◌, ◌≡◌, refl, arith, ◌⊎◌}
use tailfeather.Common.{ltb, if◌then◌else◌, false, List, ◌++◌, length, drop, ok, err}
use tailfeather.Common.Bytes.{be32, from_be32-be32, put_front_fits}
use tailfeather.Derp.{
  Error, too_large, header_len, max_frame, FrameType, server_key, client_info, server_info,
  send_packet, recv_packet, keep_alive, note_preferred, peer_gone, other, from_byte, to_byte, parse,
  frame_bytes, write,
}

-- A type that a byte can name: another one is none of the eight.
abbrev pub Named : FrameType → Type 0
Named (other byte) = (byte ≡ 0) ⊎ (8 < byte)
Named _ = Unit {0}

from_byte-to_byte : (kind : FrameType) → Named kind → from_byte (to_byte kind) ≡ kind
unfolding from_byte to_byte
from_byte-to_byte (other byte) h = ground arith
from_byte-to_byte server_key h = refl
from_byte-to_byte client_info h = refl
from_byte-to_byte server_info h = refl
from_byte-to_byte send_packet h = refl
from_byte-to_byte recv_packet h = refl
from_byte-to_byte keep_alive h = refl
from_byte-to_byte note_preferred h = refl
from_byte-to_byte peer_gone h = refl

length-frame_bytes :
    (kind : FrameType) (payload : List ℕ)
    → length (frame_bytes kind payload) ≡ header_len + length payload
unfolding frame_bytes be32
length-frame_bytes kind payload = omega arith

-- Behind the header stands the payload, and the header is read back, or refused for its length.
parse-frame_bytes :
    (kind : FrameType) (payload rest : List ℕ)
    → Named kind
    → length payload < 2 ^ 32
    → parse (frame_bytes kind payload ++ rest) ≡ (
        if ltb max_frame (length payload)
        then err too_large
        else ok (record { kind = kind; length_of = length payload }))
unfolding parse frame_bytes be32
parse-frame_bytes kind payload rest named small =
    rw (long, from_be32-be32 (length payload) small, from_byte-to_byte kind named) refl
  where
    long : ltb (length (frame_bytes kind payload ++ rest)) header_len ≡ false
    long = ground arith

drop-frame_bytes :
    (kind : FrameType) (payload rest : List ℕ)
    → drop header_len (frame_bytes kind payload ++ rest) ≡ payload ++ rest
unfolding frame_bytes be32
drop-frame_bytes kind payload rest = refl

-- A frame is written with its payload behind its header, where there is room, and the buffer behind
-- it stays; the header is read back, unless it announces more than a client holds, which is refused.
pub parse-write :
    (kind : FrameType) (payload out : List ℕ)
    → Named kind
    → length payload < 2 ^ 32
    → header_len + length payload ≤ length out
    → let (out', written) = write kind payload out in
      (written ≡ ok (header_len + length payload))
      × (parse out' ≡ (
          if ltb max_frame (length payload)
          then err too_large
          else ok (record { kind = kind; length_of = length payload })))
      × (drop header_len out' ≡ payload ++ drop (header_len + length payload) out)
unfolding write
parse-write kind payload out named small room =
    rw
      (put_front_fits Error.buffer_too_small (frame_bytes kind payload) out
        (header_len + length payload) (length-frame_bytes kind payload) room)
      (
        refl,
        parse-frame_bytes kind payload (drop (header_len + length payload) out) named small,
        drop-frame_bytes kind payload (drop (header_len + length payload) out),
      )

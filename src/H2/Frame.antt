-- ===== src/H2/Frame.antt =====
-- crates/micro-h2/src/frame.rs: the header of a frame, a whole frame, and its padding.
pub mod RoundTrip
use Prim.Native.Nat.{bit_and}
use tailfeather.Common.{ℕ, zero, suc, ◌+◌, ◌-◌, ◌%◌, ◌^◌, Bool, not, ltb, leb, ◌==◌, if◌then◌else◌}
use tailfeather.Common.{List, [], ◌∷◌, ◌++◌, length, take, drop, get_or, Result, ok, err}
use tailfeather.Common.Bytes.{be32, from_be32, write_at}
use tailfeather.H2.Error.{Error, incomplete, protocol, buffer_too_small}

abbrev pub header_len : ℕ
header_len = 9

pub data FrameType : Type 0 where
  payload_data headers priority rst_stream settings push_promise : FrameType
  ping go_away window_update continuation : FrameType
  unknown : ℕ → FrameType

unfoldable pub from_byte : ℕ → FrameType
from_byte byte =
    if byte == 0x0
    then payload_data
    else if byte == 0x1
    then headers
    else if byte == 0x2
    then priority
    else if byte == 0x3
    then rst_stream
    else if byte == 0x4
    then settings
    else if byte == 0x5
    then push_promise
    else if byte == 0x6
    then ping
    else if byte == 0x7
    then go_away
    else if byte == 0x8
    then window_update
    else if byte == 0x9
    then continuation
    else unknown byte

unfoldable pub to_byte : FrameType → ℕ
to_byte payload_data = 0x0
to_byte headers = 0x1
to_byte priority = 0x2
to_byte rst_stream = 0x3
to_byte settings = 0x4
to_byte push_promise = 0x5
to_byte ping = 0x6
to_byte go_away = 0x7
to_byte window_update = 0x8
to_byte continuation = 0x9
to_byte (unknown other) = other

abbrev pub padded : ℕ
padded = 0x8

pub record FrameHeader : Type 0 where
  pub length_of : ℕ
  pub kind : FrameType
  pub flags : ℕ
  pub stream : ℕ

unfoldable pub parse : List ℕ → Result Error FrameHeader
unfolding from_byte
parse bytes =
    if ltb (length bytes) header_len
    then err incomplete
    else ok (record {
      length_of = from_be32 0 (get_or bytes 0 0) (get_or bytes 1 0) (get_or bytes 2 0);
      kind = from_byte (get_or bytes 3 0);
      flags = get_or bytes 4 0;
      stream =
          bit_and
            (from_be32 (get_or bytes 5 0) (get_or bytes 6 0) (get_or bytes 7 0) (get_or bytes 8 0))
            0x7fff_ffff;
    })

-- The nine bytes of a header: the length as a `u32`, without its highest byte.
unfoldable pub header_bytes : FrameHeader → List ℕ
unfolding be32 to_byte
header_bytes h =
    drop 1 (be32 (h.length_of % 2 ^ 32))
    ++ (to_byte h.kind ∷ h.flags ∷ be32 (bit_and h.stream 0x7fff_ffff))

-- `FrameHeader::write`: the buffer afterwards, and the outcome.
unfoldable pub write_header : FrameHeader → List ℕ → List ℕ × Result Error ℕ
unfolding header_bytes
write_header h out =
    if ltb (length out) header_len
    then (out, err buffer_too_small)
    else (header_bytes h ++ drop header_len out, ok header_len)

unfoldable pub has : FrameHeader → ℕ → Bool
has h flag = not (bit_and h.flags flag == 0)

-- `write_frame` after its header: the header stays in the buffer if the payload does not fit.
unfoldable pub write_payload : List ℕ → List ℕ × Result Error ℕ → List ℕ × Result Error ℕ
write_payload payload (out, err e) = (out, err e)
write_payload payload (out, ok n) =
    let end = header_len + length payload in
    if ltb (length out) end
    then (out, err buffer_too_small)
    else (write_at out header_len payload, ok end)

unfoldable pub write_frame : FrameType → ℕ → ℕ → List ℕ → List ℕ → List ℕ × Result Error ℕ
unfolding write_payload write_header
write_frame kind flags stream payload out = write_payload payload (
    write_header
      (record { length_of = length payload; kind = kind; flags = flags; stream = stream }) out)

unfoldable pub strip_padding : List ℕ → ℕ → Result Error (List ℕ)
strip_padding [] flags = if bit_and flags padded == 0 then ok [] else err protocol
strip_padding (pad_length ∷ body) flags =
    if bit_and flags padded == 0
    then ok (pad_length ∷ body)
    else if ltb (length body) pad_length
    then err protocol
    else ok (take (length body - pad_length) body)

-- ===== src/H2/Frame/RoundTrip.antt =====
-- A written frame is read back, and padding is taken off.
use Prim.Native.Nat.{bit_and}
use tailfeather.Common.{ℕ, ◌+◌, ◌-◌, ◌/◌, ◌%◌, ◌^◌, ◌≤◌, ◌<◌, ◌≡◌, ◌≢◌, refl, ap, ◌∙◌, arith}
use tailfeather.Common.{ltb, ◌==◌, true, false}
use tailfeather.Common.{
  List, ◌∷◌, ◌++◌, length, drop, length-append, length-drop, drop-drop, take-append, ok, err,
}
use tailfeather.Common.Bits.{bit_and_mask}
use tailfeather.Common.Bytes.{be32, from_be32, write_at, write_at-zero}
use tailfeather.H2.Error.{protocol}
use tailfeather.H2.Frame.{
  header_len, FrameType, unknown, payload_data, headers, priority, rst_stream, settings,
  push_promise, ping, go_away, window_update, continuation, from_byte, to_byte, padded, FrameHeader,
  parse, header_bytes, write_header, write_payload, write_frame, strip_padding,
}

-- A type that a byte can name: an unknown one is none of the ten.
abbrev pub Named : FrameType → Type 0
Named (unknown other) = 9 < other × (other < 256)
Named _ = Unit {0}

from_byte-to_byte : (kind : FrameType) → Named kind → from_byte (to_byte kind) ≡ kind
unfolding from_byte to_byte
from_byte-to_byte (unknown other) h = ground arith
from_byte-to_byte payload_data h = refl
from_byte-to_byte headers h = refl
from_byte-to_byte priority h = refl
from_byte-to_byte rst_stream h = refl
from_byte-to_byte settings h = refl
from_byte-to_byte push_promise h = refl
from_byte-to_byte ping h = refl
from_byte-to_byte go_away h = refl
from_byte-to_byte window_update h = refl
from_byte-to_byte continuation h = refl

-- Every byte is given back, so that no type is lost or confused with another.
pub to_byte-from_byte : (byte : ℕ) → to_byte (from_byte byte) ≡ byte
unfolding to_byte from_byte
to_byte-from_byte byte = ground arith

low_31 : (x : ℕ) → bit_and x 0x7fff_ffff ≡ x % 2 ^ 31
low_31 x = bit_and_mask 31 x

parse-header_bytes :
    (h : FrameHeader) (rest : List ℕ)
    → Named h.kind
    → h.length_of < 2 ^ 24
    → parse (header_bytes h ++ rest) ≡ ok (record h { stream = h.stream % 2 ^ 31 })
unfolding parse header_bytes be32
parse-header_bytes h rest named small = rw long (λ i. ok (record {
  length_of = length_is i;
  kind = from_byte-to_byte h.kind named i;
  flags = h.flags;
  stream = stream_is i;
}))
  where
    long : ltb (length (header_bytes h ++ rest)) header_len ≡ false
    long = ground arith

    length_is :
        from_be32 0
          (h.length_of % 2 ^ 32 / 256 ^ 2 % 256)
          (h.length_of % 2 ^ 32 / 256 % 256)
          (h.length_of % 2 ^ 32 % 256)
        ≡ h.length_of
    length_is = omega arith

    s : ℕ
    s = bit_and h.stream 0x7fff_ffff

    stream_is :
        bit_and
          (from_be32 (s / 256 ^ 3 % 256) (s / 256 ^ 2 % 256) (s / 256 % 256) (s % 256))
          0x7fff_ffff
        ≡ h.stream % 2 ^ 31
    stream_is =
        low_31 (from_be32 (s / 256 ^ 3 % 256) (s / 256 ^ 2 % 256) (s / 256 % 256) (s % 256))
        ∙ omega (arith, low_31 h.stream)

length-header_bytes : (h : FrameHeader) → length (header_bytes h) ≡ header_len
unfolding header_bytes be32
length-header_bytes h = refl

write_at-header :
    (h : FrameHeader) (rest payload : List ℕ)
    → write_at (header_bytes h ++ rest) header_len payload
      ≡ header_bytes h ++ write_at rest 0 payload
unfolding header_bytes be32 write_at
write_at-header h rest payload = refl

drop-header : (h : FrameHeader) (rest : List ℕ) → drop header_len (header_bytes h ++ rest) ≡ rest
unfolding header_bytes be32
drop-header h rest = refl

-- A written frame begins with the header that its arguments say, its stream taken without the
-- reserved bit, and the payload stands behind it; what is behind the frame in the buffer stays. This
-- holds of a payload under 2 ^ 24 bytes and a buffer that has room.
pub parse-write_frame :
    (kind : FrameType) (flags stream : ℕ) (payload out : List ℕ)
    → Named kind
    → length payload < 2 ^ 24
    → header_len + length payload ≤ length out
    → let (out', written) = write_frame kind flags stream payload out in
      (written ≡ ok (header_len + length payload))
      × (parse out'
          ≡ ok (record {
            length_of = length payload;
            kind = kind;
            flags = flags;
            stream = stream % 2 ^ 31;
          }))
      × (drop header_len out' ≡ payload ++ drop (header_len + length payload) out)
unfolding write_frame write_payload write_header
parse-write_frame kind flags stream payload out named small room =
    rw (roomy, roomy_all, placed)
      (refl, parse-header_bytes h (write_at (drop header_len out) 0 payload) named small, behind)
  where
    h : FrameHeader
    h = record { length_of = length payload; kind = kind; flags = flags; stream = stream }

    roomy : ltb (length out) header_len ≡ false
    roomy = ground arith

    roomy_all :
        ltb (length (header_bytes h ++ drop header_len out)) (header_len + length payload) ≡ false
    roomy_all = ground (
      arith,
      length-append (header_bytes h) (drop header_len out),
      length-header_bytes h,
      length-drop header_len out,
    )

    placed :
        write_at (header_bytes h ++ drop header_len out) header_len payload
        ≡ header_bytes h ++ write_at (drop header_len out) 0 payload
    placed = write_at-header h (drop header_len out) payload

    behind :
        drop header_len (header_bytes h ++ write_at (drop header_len out) 0 payload)
        ≡ payload ++ drop (header_len + length payload) out
    behind =
        drop-header h (write_at (drop header_len out) 0 payload)
        ∙ write_at-zero (drop header_len out) payload (omega (arith, length-drop header_len out))
        ∙ ap (λ l. payload ++ l) (drop-drop header_len (length payload) out)

-- The padding is taken off by the length in front, whatever the padding bytes, and a pad length that
-- is longer than what follows it is refused, both under the flag.
pub strip_padding_lem :
    (flags pad_length : ℕ) (body padding short : List ℕ)
    → bit_and flags padded ≢ 0
    → length short < pad_length
    → (strip_padding (length padding ∷ (body ++ padding)) flags ≡ ok body)
      × (strip_padding (pad_length ∷ short) flags ≡ err protocol)
unfolding strip_padding
strip_padding_lem flags pad_length body padding short flagged over =
    (rw (set_, fits, body_len, take-append body padding) refl, rw (set_, cut) refl)
  where
    set_ : (bit_and flags padded == 0) ≡ false
    set_ = ground (arith, flagged)

    fits : ltb (length (body ++ padding)) (length padding) ≡ false
    fits = ground (arith, length-append body padding)

    body_len : length (body ++ padding) - length padding ≡ length body
    body_len = omega (arith, length-append body padding)

    cut : ltb (length short) pad_length ≡ true
    cut = ground arith

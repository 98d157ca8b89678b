-- ===== src/H2/Hpack/Integer.antt =====
-- RFC 7541 section 5.1: `decode_integer` of hpack/decode.rs and `encode_integer` of hpack/encode.rs.
pub mod RoundTrip
pub mod Encode
pub mod Wide
use Prim.Native.Nat.{bit_and, bit_or}
use tailfeather.Common.{ℕ, zero, suc, ◌+◌, ◌-◌, ◌*◌, ◌/◌, ◌%◌, ◌^◌, ltb, leb, ◌==◌, if◌then◌else◌}
use tailfeather.Common.{List, [], ◌∷◌, length, set, Result, ok, err, ◌>>=◌}
use tailfeather.H2.Error.{Error, incomplete, hpack, buffer_too_small}

-- The continuation loop of `decode_integer`: the value so far and the shift of the next group. A
-- `u64` shifted left drops the bits past the 64th.
unfoldable pub decode_more : List ℕ → ℕ → ℕ → Result Error (ℕ × List ℕ)
decode_more [] value shift = err incomplete
decode_more (byte ∷ rest) value shift =
    let sum = value + bit_and byte 0x7f * 2 ^ shift % 2 ^ 64 in
    let more = decode_more rest sum (shift + 7) in
    if ltb 63 shift
    then err hpack
    else if leb (2 ^ 64) sum
    then err hpack
    else if bit_and byte 0x80 == 0
    then ok (sum, rest)
    else more

unfoldable pub decode_integer : List ℕ → ℕ → Result Error (ℕ × List ℕ)
unfolding decode_more
decode_integer [] prefix_bits = err incomplete
decode_integer (first ∷ rest) prefix_bits =
    let mask = 2 ^ prefix_bits - 1 in
    let value = bit_and first mask in
    if ltb value mask then ok (value, rest) else decode_more rest mask 0

-- `*out.get_mut(len).ok_or(Error::BufferTooSmall)? = byte`, and the length after it.
unfoldable pub put_byte : List ℕ → ℕ → ℕ → Result Error (List ℕ × ℕ)
put_byte out len byte =
    if ltb len (length out) then ok (set out len byte, len + 1) else err buffer_too_small

-- The loop of `encode_integer` and its last byte. Nine rounds are enough for a `u64`.
unfoldable pub encode_more : ℕ → ℕ → List ℕ → ℕ → Result Error (List ℕ × ℕ)
unfolding put_byte
encode_more zero remaining out len = put_byte out len (remaining % 256)
encode_more (suc rounds) remaining out len =
    let more = put_byte out len (bit_or (bit_and (remaining % 256) 0x7f) 0x80) >>= λ (out', len').
    encode_more rounds (remaining / 128) out' len' in
    if leb 0x80 remaining then more else put_byte out len (remaining % 256)

unfoldable pub encode_integer : ℕ → ℕ → ℕ → List ℕ → ℕ → Result Error (List ℕ × ℕ)
unfolding encode_more
encode_integer value prefix_bits flags out len =
    let mask = 2 ^ prefix_bits - 1 in
    if ltb value mask
    then put_byte out len (bit_or flags (value % 256))
    else put_byte out len (bit_or flags (mask % 256)) >>= λ (out', len').
        encode_more 9 (value - mask) out' len'

-- ===== src/Keys/Encoding.antt =====
-- src/encoding.rs: keys as a prefix, a colon and 64 hexadecimal digits. Texts are their bytes.
pub mod RoundTrip
use Prim.Native.Nat.{bit_and, bit_or}
use tailfeather.Common.{
  ℕ, zero, suc, ◌+◌, ◌-◌, ◌*◌, ◌/◌, ◌%◌, Bool, true, false, ◌&&◌, not, ltb, leb, ◌==◌,
  if◌then◌else◌,
}
use tailfeather.Common.{
  List, [], ◌∷◌, ◌++◌, length, get_or, Option, none, some, Result, ok, err, ◌>>=◌, ok_or,
}
use tailfeather.Common.Bytes.{put_front}

pub data DecodeError : Type 0 where
  wrong_prefix wrong_length not_hex buffer_too_small : DecodeError

abbrev pub key_len : ℕ
key_len = 32

unfoldable pub nibble : ℕ → Result DecodeError ℕ
nibble c =
    if leb b'0' c && leb c b'9'
    then ok (c - b'0')
    else if leb b'a' c && leb c b'f'
    then ok (c - b'a' + 10)
    else if leb b'A' c && leb c b'F'
    then ok (c - b'A' + 10)
    else err not_hex

-- Two digits. A `u8` is shifted left by four.
unfoldable pub decode_pair : ℕ → ℕ → Result DecodeError ℕ
unfolding nibble
decode_pair a b = nibble a >>= λ high. nibble b >>= λ low. ok (bit_or (high * 16 % 256) low)

-- The loop of `decode_hex`, over the digits by twos.
unfoldable pub decode_pairs : List ℕ → Result DecodeError (List ℕ)
unfolding decode_pair
decode_pairs [] = ok []
decode_pairs (a ∷ []) = err wrong_length
decode_pairs (a ∷ b ∷ rest) =
    decode_pair a b >>= λ byte. decode_pairs rest >>= λ more. ok (byte ∷ more)

unfoldable pub decode_hex : List ℕ → Result DecodeError (List ℕ)
unfolding decode_pairs
decode_hex text = if not (length text == key_len * 2) then err wrong_length else decode_pairs text

-- `str::strip_prefix`.
unfoldable pub strip_prefix : List ℕ → List ℕ → Option (List ℕ)
strip_prefix [] text = some text
strip_prefix (p ∷ ps) [] = none
strip_prefix (p ∷ ps) (c ∷ cs) = let rest = strip_prefix ps cs in if p == c then rest else none

unfoldable pub decode_prefixed : List ℕ → List ℕ → Result DecodeError (List ℕ)
unfolding strip_prefix decode_hex
decode_prefixed prefix text = elim (strip_prefix prefix text) [
  | none ↦ err wrong_prefix
  | some r ↦ ok_or (strip_prefix (b':' ∷ []) r) wrong_prefix >>= λ rest. decode_hex rest
]

-- `b"0123456789abcdef"`.
abbrev pub digits : List ℕ
digits =
    b'0' ∷ b'1' ∷ b'2' ∷ b'3' ∷ b'4' ∷ b'5' ∷ b'6' ∷ b'7' ∷ b'8' ∷ b'9' ∷ b'a' ∷ b'b' ∷ b'c' ∷ b'd'
    ∷ b'e' ∷ b'f' ∷ []

-- What `write_hex` writes.
unfoldable pub hex_bytes : List ℕ → List ℕ
hex_bytes [] = []
hex_bytes (byte ∷ bytes) =
    get_or digits (byte / 16) 0 ∷ get_or digits (bit_and byte 0xf) 0 ∷ hex_bytes bytes

-- The text of a key.
unfoldable pub key_text : List ℕ → List ℕ → List ℕ
unfolding hex_bytes
key_text prefix key = prefix ++ (b':' ∷ hex_bytes key)

unfoldable pub encode_prefixed : List ℕ → List ℕ → List ℕ → List ℕ × Result DecodeError ℕ
unfolding key_text
encode_prefixed prefix key out = put_front buffer_too_small (key_text prefix key) out

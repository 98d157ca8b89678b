-- ===== src/Keys/Encoding/RoundTrip.antt =====
-- A written key is read back, and what is read is what was written, up to the case of the digits.
use Prim.Native.Nat.{bit_and}
use tailfeather.Common.{ℕ, ◌+◌, ◌*◌, ◌/◌, ◌≤◌, ◌<◌, ◌≡◌, refl, sym, ap, ◌∙◌, arith}
use tailfeather.Common.{
  Bool, true, false, ◌==◌, ==→eq, List, [], ◌∷◌, ◌++◌, length, take, drop, get_or, All,
}
use tailfeather.Common.{length-append, take-append, some, Result, ok, err}
use tailfeather.Common.Bits.{all_below, all_below_sound}
use tailfeather.Common.Bytes.{IsByte, put_front_fits}
use tailfeather.Keys.Encoding.{
  DecodeError, key_len, decode_pair, decode_pairs, decode_hex, strip_prefix, decode_prefixed,
  digits, hex_bytes, key_text, encode_prefixed,
}

byte_of : Result DecodeError ℕ → ℕ → Bool
byte_of (ok n) b = n == b
byte_of (err e) b = false

reads_digits : ℕ → Bool
reads_digits b =
    byte_of (decode_pair (get_or digits (b / 16) 0) (get_or digits (bit_and b 0xf) 0)) b

every_byte : all_below 256 reads_digits ≡ true
unfolding all_below reads_digits byte_of decode_pair
every_byte = refl

byte_of-ok : (r : Result DecodeError ℕ) (b : ℕ) → byte_of r b ≡ true → r ≡ ok b
unfolding byte_of
byte_of-ok (ok n) b h = ap (λ n. ok n) (==→eq n b h)
byte_of-ok (err e) b h = cc

decode_pair-digits :
    (b : ℕ)
    → b < 256
    → decode_pair (get_or digits (b / 16) 0) (get_or digits (bit_and b 0xf) 0) ≡ ok b
unfolding reads_digits
decode_pair-digits b h = byte_of-ok _ b (all_below_sound 256 reads_digits b every_byte h)

decode_pairs-hex_bytes :
    (bytes : List ℕ) → All IsByte bytes → decode_pairs (hex_bytes bytes) ≡ ok bytes
unfolding decode_pairs hex_bytes
decode_pairs-hex_bytes [] all = refl
decode_pairs-hex_bytes (b ∷ bytes) (small, all) =
    rw (decode_pair-digits b small, decode_pairs-hex_bytes bytes all) refl

length-hex_bytes : (bytes : List ℕ) → length (hex_bytes bytes) ≡ length bytes * 2
unfolding hex_bytes
length-hex_bytes [] = refl
length-hex_bytes (b ∷ bytes) = omega (arith, length-hex_bytes bytes)

strip_prefix-append : (prefix rest : List ℕ) → strip_prefix prefix (prefix ++ rest) ≡ some rest
unfolding strip_prefix
strip_prefix-append [] rest = refl
strip_prefix-append (p ∷ ps) rest = ground (arith, strip_prefix-append ps rest)

decode_prefixed-key_text :
    (prefix key : List ℕ)
    → length key ≡ key_len
    → All IsByte key
    → decode_prefixed prefix (key_text prefix key) ≡ ok key
unfolding decode_prefixed decode_hex key_text
decode_prefixed-key_text prefix key len small =
    rw
      (
        decode_prefixed,
        strip_prefix-append prefix (b':' ∷ hex_bytes key),
        digits_len,
        decode_pairs-hex_bytes key small,
      )
      refl
  where
    digits_len : (length (hex_bytes key) == key_len * 2) ≡ true
    digits_len = ground (arith, length-hex_bytes key, len)

-- The prefix, the colon and the digits go to the front of the buffer, which must have room for them,
-- and a key that is written under a prefix is read back under it.
pub decode_prefixed-encode_prefixed :
    (prefix key out : List ℕ)
    → length key ≡ key_len
    → All IsByte key
    → length prefix + 65 ≤ length out
    → let (out', written) = encode_prefixed prefix key out in
      (written ≡ ok (length prefix + 65))
      × (decode_prefixed prefix (take (length prefix + 65) out') ≡ ok key)
unfolding encode_prefixed
decode_prefixed-encode_prefixed prefix key out len small room =
    rw
      (put_front_fits DecodeError.buffer_too_small (key_text prefix key) out (length prefix + 65)
        total room)
      (refl, ap (decode_prefixed prefix) taken ∙ decode_prefixed-key_text prefix key len small)
  where
    total : length (key_text prefix key) ≡ length prefix + 65
    total =
        unfold key_text in
        omega (arith, length-append prefix (b':' ∷ hex_bytes key), length-hex_bytes key)

    taken :
        take (length prefix + 65) (key_text prefix key ++ drop (length prefix + 65) out)
        ≡ key_text prefix key
    taken =
        ap (λ n. take n (key_text prefix key ++ drop (length prefix + 65) out)) (sym total)
        ∙ take-append (key_text prefix key) (drop (length prefix + 65) out)

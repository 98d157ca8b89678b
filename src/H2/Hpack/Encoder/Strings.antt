-- ===== src/H2/Hpack/Encoder/Strings.antt =====
-- A text that the encoder writes, read again by the decoder.
use Prim.Native.Nat.{bit_and}
use native.Mathlib.Nat.{mod-eq_of_lt, one-le-pow}
use tailfeather.Common.{ℕ, ◌+◌, ◌-◌, ◌*◌, ◌^◌, ◌≤◌, ◌<◌, ◌≡◌, refl, sym, ap, ◌∙◌, arith}
use tailfeather.Common.{Bool, true, false, ltb, ◌==◌, Bool-cases, inl, inr}
use tailfeather.Common.{
  List, [], ◌∷◌, ◌++◌, length, length-append, append_assoc, take-append, drop-append,
}
use tailfeather.Common.{ok}
use tailfeather.Common.Bits.{all_below, all_below_sound}
use tailfeather.H2.Hpack.Integer.{decode_integer}
use tailfeather.H2.Hpack.Integer.Encode.{integer_bytes, decode_integer-bytes}
use tailfeather.H2.Hpack.Integer.RoundTrip.{groups}
use tailfeather.Common.Text.{is_utf8}
use tailfeather.H2.Hpack.Encoder.Bytes.{text_bytes}
use tailfeather.H2.Hpack.Decoder.{to_usize, max_string, string_bytes, push_text, decode_string}

-- The first byte of an integer, and the others.
pub integer_bytes-first :
    (v p f : ℕ)
    → (x : ℕ) × (bytes : List ℕ) × (x < 2 ^ p) × (integer_bytes v p f ≡ (f * 2 ^ p + x) ∷ bytes)
unfolding integer_bytes
integer_bytes-first v p f = elim (Bool-cases (ltb v (2 ^ p - 1))) [
  | inl inline ↦ (v, [], ground arith, rw inline refl)
  | inr long ↦ (2 ^ p - 1, groups 9 (v - (2 ^ p - 1)), omega (arith, one-le-pow p 2), rw long refl)
]

pub usize_small : (n : ℕ) → n < 2 ^ 32 → to_usize n ≡ n
usize_small n h = mod-eq_of_lt {n = n} {m = 2 ^ 32} h

abbrev pub SendableText : List ℕ → Type 0
SendableText text = (length text ≤ max_string) × (is_utf8 text ≡ true)

plain_string :
    (first : ℕ) (bytes text rest : List ℕ)
    → (bit_and first 0x80 == 0) ≡ true
    → decode_integer (first ∷ bytes) 7 ≡ ok (length text, text ++ rest)
    → SendableText text
    → decode_string (first ∷ bytes) ≡ ok (text, rest)
unfolding decode_string string_bytes push_text
plain_string first bytes text rest plain e (short, utf8) =
    rw
      (
        e,
        usize_small (length text) (omega arith),
        fits,
        plain,
        take-append text rest,
        drop-append text rest,
        utf8,
        holds,
      )
      refl
  where
    fits : ltb (length (text ++ rest)) (length text) ≡ false
    fits = ground (arith, length-append text rest)

    holds : ltb max_string (length text) ≡ false
    holds = ground arith

low_byte : ℕ → Bool
low_byte x = bit_and x 0x80 == 0

low_bytes : all_below 128 low_byte ≡ true
unfolding all_below low_byte
low_bytes = refl

pub decode_string-text_bytes :
    (text rest : List ℕ)
    → SendableText text
    → decode_string (text_bytes text ++ rest) ≡ ok (text, rest)
unfolding text_bytes low_byte
decode_string-text_bytes text rest good =
    let (x, bytes, small, e) = integer_bytes-first (length text) 7 0 in
    let first = 0 * 2 ^ 7 + x in
    let whole : (integer_bytes (length text) 7 0 ++ text) ++ rest
        ≡ first ∷ (bytes ++ (text ++ rest)) =
      append_assoc (integer_bytes (length text) 7 0) text rest ∙ ap (λ l. l ++ (text ++ rest)) e in
    ap decode_string whole
    ∙ plain_string first (bytes ++ (text ++ rest)) text rest
        (all_below_sound 128 low_byte first low_bytes (omega (arith, small)))
        (ap (λ l. decode_integer (l ++ (text ++ rest)) 7) (sym e)
          ∙ decode_integer-bytes (length text) 7 0 (text ++ rest) (omega (arith, good.0))
              (omega arith))
        good

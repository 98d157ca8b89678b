-- ===== src/H2/Hpack/Encoder/Fields.antt =====
-- A round of the decoder at the bytes of a header.
use Prim.Native.Nat.{bit_and}
use tailfeather.Common.{ℕ, ◌+◌, ◌*◌, ◌^◌, ◌≤◌, ◌<◌, ◌≡◌, refl, sym, ap, ◌∙◌, arith}
use tailfeather.Common.{Bool, true, false, not, ltb, ◌==◌, ◌&&◌, inl, inr}
use tailfeather.Common.{List, [], ◌∷◌, ◌++◌, length, append_assoc, append-nil}
use tailfeather.Common.{some, Option-cases, ok}
use tailfeather.Common.Bits.{all_below, all_below_sound}
use tailfeather.H2.Hpack.Integer.Encode.{integer_bytes, decode_integer-bytes}
use tailfeather.H2.Hpack.StaticTable.{find, find_name, static_get}
use tailfeather.H2.Hpack.Dynamic.{DynamicTable, lookup}
use tailfeather.H2.Hpack.Encoder.Bytes.{
  text_bytes, name_bytes, header_bytes, find-static_get, find_name-static_get,
}
use tailfeather.H2.Hpack.Decoder.{
  Header, to_usize, max_string, push_text, indexed_field, literal_name, literal_field, decode_field,
}
use tailfeather.H2.Hpack.Encoder.Strings.{
  integer_bytes-first, usize_small, SendableText, decode_string-text_bytes,
}

-- A header that the decoder does not refuse for its length or its bytes.
abbrev pub Sendable : Header → Type 0
Sendable (name, value) = SendableText name × SendableText value

high_byte : ℕ → Bool
high_byte x = not (bit_and (1 * 2 ^ 7 + x) 0x80 == 0)

high_bytes : all_below 128 high_byte ≡ true
unfolding all_below high_byte
high_bytes = refl

literal_byte : ℕ → Bool
literal_byte x =
    (bit_and x 0x80 == 0) && (not (bit_and x 0xe0 == 0x20) && not (bit_and x 0xc0 == 0x40))

literal_bytes : all_below 16 literal_byte ≡ true
unfolding all_below literal_byte
literal_bytes = refl

decode_field-literal :
    (t : DynamicTable) (x : ℕ) (input : List ℕ)
    → x < 16
    → decode_field t x input ≡ literal_field t 4 false input
unfolding decode_field literal_byte
decode_field-literal t x input h = ground (arith, all_below_sound 16 literal_byte x literal_bytes h)

decode_field-indexed :
    (t : DynamicTable) (x : ℕ) (input : List ℕ)
    → x < 128
    → decode_field t (1 * 2 ^ 7 + x) input ≡ indexed_field t input
unfolding decode_field high_byte
decode_field-indexed t x input h = rw (all_below_sound 128 high_byte x high_bytes h) refl

lookup-static :
    (t : DynamicTable) (k : ℕ) (n v : List ℕ)
    → k < 62
    → static_get k ≡ some (n, v)
    → lookup t (to_usize k) ≡ ok (record { name = n; value = v })
unfolding lookup
lookup-static t k n v h at = rw (usize_small k (omega arith), below, at) refl
  where
    below : ltb k 62 ≡ true
    below = ground arith

-- What a round reads of these bytes: the header, and nothing else.
abbrev pub Reads : DynamicTable → List ℕ → List ℕ → Header → Type 0
Reads t bytes rest h =
    (first : ℕ) × (tail : List ℕ) × (bytes ++ rest ≡ first ∷ tail)
    × (decode_field t first (first ∷ tail) ≡ ok (h ∷ [], t, rest))

indexed-Reads :
    (t : DynamicTable) (k : ℕ) (name value rest : List ℕ)
    → k < 62
    → static_get k ≡ some (name, value)
    → Reads t (integer_bytes k 7 1) rest (name, value)
unfolding indexed_field
indexed-Reads t k name value rest h at =
    let (x, bytes, small, e) = integer_bytes-first k 7 1 in
    let whole = ap (λ l. l ++ rest) e in
    (
      1 * 2 ^ 7 + x,
      bytes ++ rest,
      whole,
      decode_field-indexed t x ((1 * 2 ^ 7 + x) ∷ (bytes ++ rest)) small
          ∙ ap (indexed_field t) (sym whole)
          ∙ rw
              (
                decode_integer-bytes k 7 1 rest (omega arith) (omega arith),
                lookup-static t k name value h at,
              )
              refl,
    )

literal-Reads :
    (t : DynamicTable) (k : ℕ) (more name value rest : List ℕ)
    → k < 2 ^ 64
    → literal_name t k (more ++ (text_bytes value ++ rest)) ≡ ok (name, text_bytes value ++ rest)
    → SendableText value
    → Reads t ((integer_bytes k 4 0 ++ more) ++ text_bytes value) rest (name, value)
unfolding literal_field
literal-Reads t k more name value rest h read good =
    let (x, bytes, small, e) = integer_bytes-first k 4 0 in
    let after = more ++ (text_bytes value ++ rest) in
    let opened : ((integer_bytes k 4 0 ++ more) ++ text_bytes value) ++ rest
        ≡ integer_bytes k 4 0 ++ after =
      append_assoc (integer_bytes k 4 0 ++ more) (text_bytes value) rest
      ∙ append_assoc (integer_bytes k 4 0) more (text_bytes value ++ rest) in
    let whole = ap (λ l. l ++ after) e in
    (
      0 * 2 ^ 4 + x,
      bytes ++ after,
      opened ∙ whole,
      decode_field-literal t (0 * 2 ^ 4 + x) ((0 * 2 ^ 4 + x) ∷ (bytes ++ after))
            (omega (arith, small))
          ∙ ap (literal_field t 4 false) (sym whole)
          ∙ rw
              (
                decode_integer-bytes k 4 0 after h (omega arith),
                read,
                decode_string-text_bytes value rest good,
              )
              refl,
    )

-- The name of a literal, as the encoder puts it and the decoder takes it.
name_parts :
    (t : DynamicTable) (name after : List ℕ)
    → SendableText name
    → (k : ℕ) × (more : List ℕ) × (k < 2 ^ 64)
      × (name_bytes name ≡ integer_bytes k 4 0 ++ more)
      × (literal_name t k (more ++ after) ≡ ok (name, after))
unfolding literal_name name_bytes find_name push_text
name_parts t name after good = elim (Option-cases (find_name name)) [
  | inl new ↦
      (0, text_bytes name, omega arith, rw new refl, decode_string-text_bytes name after good)
  | inr (k, old) ↦
      let (low, high, (v, at)) = find_name-static_get name k old in
      (
        k,
        [],
        omega (arith, high),
        rw old (sym (append-nil (integer_bytes k 4 0))),
        rw (nonzero k low, lookup-static t k name v high at, short) refl,
      )
]
  where
    nonzero : (k : ℕ) → 1 ≤ k → (k == 0) ≡ false
    nonzero k low = ground arith

    short : ltb max_string (length name) ≡ false
    short = ground (arith, good.0)

pub header-Reads :
    (t : DynamicTable) (h : Header) (rest : List ℕ)
    → Sendable h
    → Reads t (header_bytes h.0 h.1) rest h
unfolding header_bytes find
header-Reads t (name, value) rest (hn, hv) = elim (Option-cases (find name value)) [
  | inr (k, old) ↦
      let (low, high, at) = find-static_get name value k old in
      rw old (indexed-Reads t k name value rest high at)
  | inl new ↦
      let (k, more, small, e, read) = name_parts t name (text_bytes value ++ rest) hn in
      rw (new, e) (literal-Reads t k more name value rest small read hv)
]

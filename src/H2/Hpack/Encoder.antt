-- ===== src/H2/Hpack/Encoder.antt =====
-- crates/micro-h2/src/hpack/encode.rs: a header is an index into the static table, or a literal that
-- no table remembers. The buffer comes back with the new length.
pub mod Bytes
pub mod Strings
pub mod Fields
pub mod RoundTrip
use tailfeather.Common.{
  ℕ, ◌+◌, ltb, if◌then◌else◌, List, length, Option, none, some, Result, ok, err, ◌>>=◌,
}
use tailfeather.Common.Bytes.{write_at}
use tailfeather.H2.Error.{Error, buffer_too_small}
use tailfeather.H2.Hpack.Integer.{encode_integer}
use tailfeather.H2.Hpack.StaticTable.{find, find_name}

unfoldable pub encode_string : List ℕ → List ℕ → ℕ → Result Error (List ℕ × ℕ)
encode_string text out len = encode_integer (length text) 7 0x00 out len >>= λ (out', len').
    if ltb (length out') (len' + length text)
    then err buffer_too_small
    else ok (write_at out' len' text, len' + length text)

-- The name of a literal: an index of the static table, or 0 and the text.
unfoldable pub encode_name : List ℕ → List ℕ → ℕ → Result Error (List ℕ × ℕ)
unfolding encode_string
encode_name name out len = elim (find_name name) [
  | some index ↦ encode_integer index 4 0x00 out len
  | none ↦ encode_integer 0 4 0x00 out len >>= λ (out', len'). encode_string name out' len'
]

unfoldable pub encode_header : List ℕ → List ℕ → List ℕ → ℕ → Result Error (List ℕ × ℕ)
unfolding encode_name
encode_header name value out len = elim (find name value) [
  | some index ↦ encode_integer index 7 0x80 out len
  | none ↦ encode_name name out len >>= λ (out', len'). encode_string value out' len'
]

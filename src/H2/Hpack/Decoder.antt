-- ===== src/H2/Hpack/Decoder.antt =====
-- crates/micro-h2/src/hpack/decode.rs, the decoder of a header block. `on_header` is called for the
-- headers of the list that comes back, in their order; `usize` has the 32 bits of the firmware.
pub mod Total
use Prim.Native.Nat.{bit_and}
use tailfeather.Common.{ℕ, zero, suc, ◌%◌, ◌^◌, Bool, true, false, not, ltb, ◌==◌, if◌then◌else◌}
use tailfeather.Common.{List, [], ◌∷◌, ◌++◌, length, take, drop, replicate, Option, none, some}
use tailfeather.Common.{Result, ok, err, ◌>>=◌}
use tailfeather.H2.Error.{Error, incomplete, hpack, buffer_too_small}
use tailfeather.H2.Hpack.Integer.{decode_integer}
use tailfeather.H2.Hpack.Huffman.{huffman_decode}
use tailfeather.Common.Text.{is_utf8}
use tailfeather.H2.Hpack.Dynamic.{Entry, DynamicTable, set_capacity, insert, lookup}

abbrev pub max_string : ℕ
max_string = 512

-- A name and its value, as `on_header` gets them.
abbrev pub Header : Type 0
Header = List ℕ × List ℕ

abbrev pub to_usize : ℕ → ℕ
to_usize n = n % 2 ^ 32

-- The bytes of a string, decoded if they are Huffman-coded.
unfoldable pub string_bytes : Bool → List ℕ → Result Error (List ℕ)
string_bytes coded bytes =
    if coded
    then (huffman_decode bytes (replicate max_string 0) >>= λ (buffer, n). ok (take n buffer))
    else ok bytes

-- `push_str` onto an empty string.
unfoldable pub push_text : List ℕ → Result Error (List ℕ)
push_text text = if ltb max_string (length text) then err buffer_too_small else ok text

unfoldable pub decode_string : List ℕ → Result Error (List ℕ × List ℕ)
unfolding string_bytes push_text
decode_string [] = err incomplete
decode_string (first ∷ bytes) = decode_integer (first ∷ bytes) 7 >>= λ (len, rest).
    if ltb (length rest) (to_usize len)
    then err incomplete
    else string_bytes (not (bit_and first 0x80 == 0)) (take (to_usize len) rest) >>= λ decoded.
        if is_utf8 decoded
        then (push_text decoded >>= λ text. ok (text, drop (to_usize len) rest))
        else err hpack

-- What one round of the loop leaves: the headers it has called back, the table and the input.
abbrev pub Round : Type 0
Round = List Header × DynamicTable × List ℕ

unfoldable pub indexed_field : DynamicTable → List ℕ → Result Error Round
indexed_field t input = decode_integer input 7 >>= λ (index, rest).
    lookup t (to_usize index) >>= λ e. ok ((e.name, e.value) ∷ [], t, rest)

unfoldable pub size_update : DynamicTable → List ℕ → Result Error Round
size_update t input =
    decode_integer input 5 >>= λ (size, rest). ok ([], set_capacity t (to_usize size), rest)

-- The name of a literal: spelled out, or that of an entry.
unfoldable pub literal_name : DynamicTable → ℕ → List ℕ → Result Error (List ℕ × List ℕ)
literal_name t index input =
    if index == 0
    then decode_string input
    else lookup t (to_usize index) >>= λ e. push_text e.name >>= λ name. ok (name, input)

unfoldable pub literal_field : DynamicTable → ℕ → Bool → List ℕ → Result Error Round
unfolding literal_name
literal_field t prefix indexing input = decode_integer input prefix >>= λ (index, rest).
    literal_name t index rest >>= λ (name, rest'). decode_string rest' >>= λ (value, rest''). ok (
      (name, value) ∷ [],
      if indexing then insert t (record { name = name; value = value }) else t,
      rest'',
    )

-- The body of the loop, at an input that begins with `first`.
unfoldable pub decode_field : DynamicTable → ℕ → List ℕ → Result Error Round
unfolding indexed_field size_update literal_field
decode_field t first input =
    if not (bit_and first 0x80 == 0)
    then indexed_field t input
    else if bit_and first 0xe0 == 0x20
    then size_update t input
    else if bit_and first 0xc0 == 0x40
    then literal_field t 6 true input
    else literal_field t 4 false input

-- A round's headers before those of the rounds after it.
abbrev pub prepend :
    List Header
    → Option (DynamicTable × List Header × Result Error (Unit {0}))
    → Option (DynamicTable × List Header × Result Error (Unit {0}))
prepend hs none = none
prepend hs (some (t, more, r)) = some (t, hs ++ more, r)

-- The loop, `none` when the rounds are used up. On an error the table stays as the round found it.
unfoldable pub decode_rounds :
    ℕ → DynamicTable → List ℕ → Option (DynamicTable × List Header × Result Error (Unit {0}))
decode_rounds rounds t [] = some (t, [], ok tt)
decode_rounds zero t (first ∷ bytes) = none
decode_rounds (suc rounds) t (first ∷ bytes) = elim (decode_field t first (first ∷ bytes)) [
  | err e ↦ some (t, [], err e)
  | ok (hs, t', rest) ↦ prepend hs (decode_rounds rounds t' rest)
]

-- `Decoder::decode`: every round takes a byte at least.
unfoldable pub decode_block :
    DynamicTable → List ℕ → Option (DynamicTable × List Header × Result Error (Unit {0}))
unfolding decode_rounds
decode_block t input = decode_rounds (length input) t input

-- ===== src/H2/Tests.antt =====
-- Runs of the header compression at concrete inputs, and the theorems there.
use tailfeather.Common.{ℕ, ◌+◌, ◌-◌, ◌*◌, ◌%◌, ◌^◌, ◌≤◌, ◌<◌, ◌≡◌, refl, sym, arith}
use tailfeather.H2.Error.{Error}
use tailfeather.Common.{
  [], ◌∷◌, ◌++◌, replicate, Result, List, some, length, take, drop, get_elem?, ok,
}
use tailfeather.H2.Frame.{payload_data, write_frame, parse}
use tailfeather.H2.Frame.RoundTrip.{parse-write_frame}
use tailfeather.H2.Hpack.Integer.{decode_integer}
use tailfeather.H2.Hpack.Integer.Encode.{integer_bytes}
use tailfeather.H2.Hpack.Integer.RoundTrip.{groups}
use tailfeather.H2.Hpack.Integer.Wide.{decode_integer_bounds, tenth_group_truncated}
use tailfeather.H2.Hpack.StaticTable.{dynamic_base}
use tailfeather.H2.Hpack.Dynamic.{Entry, DynamicTable, new_table, insert, table_get, max_entries}
use tailfeather.H2.Hpack.Dynamic.Evict.{table_of}
use tailfeather.H2.Hpack.Dynamic.Rfc.{IsValid, rfc_insert, insert_refines, long_entry_shifts}
use tailfeather.H2.Hpack.Huffman.{lengths, huffman_decode}
use tailfeather.H2.Hpack.Huffman.Canonical.{code_bits, codes_before, bits_msb}
use tailfeather.H2.Hpack.Huffman.Decodes.{
  all_bits, encoded, no_symbols, one_symbol, huffman_decode-encoded,
}
use tailfeather.H2.Hpack.Decoder.{Header, decode_block}
use tailfeather.H2.Hpack.Decoder.Total.{decode_block_ends}
use tailfeather.H2.Hpack.Encoder.Bytes.{header_bytes, name_bytes, text_bytes}
use tailfeather.H2.Hpack.StaticTable.{find, find_name}
use tailfeather.H2.Hpack.Encoder.RoundTrip.{
  encode_headers, block_bytes, AllSendable, no_headers, one_header, decode-encode_headers,
}
use tailfeather.Common.Text.{is_utf8}

abbrev agent : Entry
agent = record { name = 97 ∷ 98 ∷ []; value = 99 ∷ [] }

abbrev host : Entry
host = record { name = 104 ∷ []; value = 49 ∷ 50 ∷ [] }

abbrev cookie : Entry
cookie = record { name = 99 ∷ []; value = replicate 129 0 }

-- Room for two entries of thirty-five bytes.
abbrev two_entries : DynamicTable
two_entries = record { entries = agent ∷ host ∷ []; size = 70; capacity = 300 }

two_entries-IsValid : IsValid two_entries
two_entries-IsValid = record { counted = refl; bounded = omega arith; within = omega arith }

insert_run : insert (insert (new_table 70) host) agent ≡ table_of (agent ∷ host ∷ []) 70
unfolding insert new_table
insert_run = refl

insert_refines_example :
    insert two_entries agent
    ≡ table_of (take max_entries (rfc_insert 300 (agent ∷ host ∷ []) agent)) 300
insert_refines_example =
    insert_refines two_entries agent two_entries-IsValid (omega arith, omega arith)

long_entry_shifts_example :
    (get_elem? (rfc_insert 300 (agent ∷ host ∷ []) cookie) 0 ≡ some cookie)
    × (table_get (insert two_entries cookie) (dynamic_base + 0)
        ≡ get_elem? (rfc_insert 300 (agent ∷ host ∷ []) cookie) 1)
long_entry_shifts_example =
    long_entry_shifts two_entries cookie 0 two_entries-IsValid (omega arith) refl

-- RFC 7541 C.1.2: 1337 with a five-bit prefix, in the middle of a buffer.
three_bytes : integer_bytes 1337 5 0 ≡ 31 ∷ 154 ∷ 10 ∷ []
unfolding integer_bytes groups
three_bytes = refl

decode_integer_bounds_example :
    (1337 < 2 ^ 64)
    × (length {A = ℕ} (9 ∷ []) < length {A = ℕ} (31 ∷ 154 ∷ 10 ∷ 9 ∷ []))
    × (length {A = ℕ} (31 ∷ 154 ∷ 10 ∷ 9 ∷ []) ≤ length {A = ℕ} (9 ∷ []) + 11)
decode_integer_bounds_example =
    decode_integer_bounds (31 ∷ 154 ∷ 10 ∷ 9 ∷ []) 5 1337 (9 ∷ []) (omega arith)
      (unfold decode_integer in refl)

tenth_group_truncated_example :
    decode_integer ((2 ^ 5 - 1) ∷ (replicate 9 0x80 ++ (2 ∷ []))) 5
    ≡ ok (2 ^ 5 - 1 + 2 % 2 * 2 ^ 63, [])
tenth_group_truncated_example =
    tenth_group_truncated 5 2 [] (omega arith) (omega arith) (omega arith)

-- The letter a, in five bits and three of padding.
a_bits : all_bits (0x1f ∷ []) ≡ encoded (97 ∷ []) ++ replicate 3 1
unfolding code_bits codes_before bits_msb lengths
a_bits = refl

huffman_decode-encoded_example :
    huffman_decode (0x1f ∷ []) (7 ∷ 8 ∷ [])
    ≡ ok ((97 ∷ []) ++ drop (length {A = ℕ} (97 ∷ [])) (7 ∷ 8 ∷ []), length {A = ℕ} (97 ∷ []))
huffman_decode-encoded_example =
    huffman_decode-encoded (0x1f ∷ []) (97 ∷ []) (7 ∷ 8 ∷ []) 3
      (one_symbol (omega arith) no_symbols) (omega arith) (omega arith) a_bits

decode_block_ends_example :
    (result : DynamicTable × List Header × Result Error (Unit {0})) × (decode_block two_entries
        (0x82 ∷ 0xbe ∷ [])
      ≡ some result)
    × IsValid result.0
decode_block_ends_example = decode_block_ends two_entries (0x82 ∷ 0xbe ∷ []) two_entries-IsValid

-- A request for `GET`, and a header of one's own.
abbrev request : List Header
request =
    (58 ∷ 109 ∷ 101 ∷ 116 ∷ 104 ∷ 111 ∷ 100 ∷ [], 71 ∷ 69 ∷ 84 ∷ []) ∷ (120 ∷ [], 49 ∷ []) ∷ []

request_good : AllSendable request
unfolding is_utf8
request_good =
    one_header ((omega arith, refl), (omega arith, refl))
      (one_header ((omega arith, refl), (omega arith, refl)) no_headers)

request_bytes : length (block_bytes request) ≡ 6
unfolding block_bytes header_bytes name_bytes text_bytes find find_name integer_bytes
request_bytes = refl

decode-encode_headers_example :
    (encode_headers request ((7 ∷ []) ++ (replicate 6 0 ++ [])) (length {A = ℕ} (7 ∷ []))
      ≡ ok (
        (7 ∷ []) ++ (block_bytes request ++ []),
        length {A = ℕ} (7 ∷ []) + length (block_bytes request),
      ))
    × (decode_block two_entries (block_bytes request) ≡ some (two_entries, request, ok tt))
decode-encode_headers_example =
    decode-encode_headers request (7 ∷ []) (replicate 6 0) [] two_entries request_good
      (sym request_bytes)

-- A frame of two bytes of data, with the reserved bit of its stream set.
parse-write_frame_example :
    let (out', written) = write_frame payload_data 1 (2 ^ 31 + 5) (7 ∷ 8 ∷ []) (replicate 12 0) in
    (written ≡ ok 11)
    × (parse out' ≡ ok (record { length_of = 2; kind = payload_data; flags = 1; stream = 5 }))
    × (drop 9 out' ≡ (7 ∷ 8 ∷ []) ++ drop 11 (replicate 12 0))
parse-write_frame_example =
    parse-write_frame payload_data 1 (2 ^ 31 + 5) (7 ∷ 8 ∷ []) (replicate 12 0) tt (omega arith)
      (omega arith)

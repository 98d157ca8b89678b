-- ===== src/H2/Hpack/Encoder/RoundTrip.antt =====
-- What the encoder writes, the decoder reads.
use tailfeather.Common.{ℕ, zero, suc, ◌+◌, ◌≤◌, ◌≡◌, refl, ap, ap₂, ◌∙◌, arith}
use tailfeather.Common.{List, [], ◌∷◌, ◌++◌, length, length-append}
use tailfeather.Common.{some, Result, ok, ◌>>=◌}
use tailfeather.H2.Error.{Error}
use tailfeather.H2.Hpack.Dynamic.{DynamicTable}
use tailfeather.H2.Hpack.Encoder.{encode_header}
use tailfeather.H2.Hpack.Encoder.Bytes.{header_bytes, Writes, Writes-then, encode_header-Writes}
use tailfeather.H2.Hpack.Decoder.{Header, decode_field, decode_rounds, decode_block}
use tailfeather.H2.Hpack.Encoder.Fields.{Sendable, header-Reads}

-- The encoder called for each header of a list in turn.
unfoldable pub encode_headers : List Header → List ℕ → ℕ → Result Error (List ℕ × ℕ)
encode_headers [] out len = ok (out, len)
encode_headers ((name, value) ∷ hs) out len =
    encode_header name value out len >>= λ (out', len'). encode_headers hs out' len'

unfoldable pub block_bytes : List Header → List ℕ
block_bytes [] = []
block_bytes ((name, value) ∷ hs) = header_bytes name value ++ block_bytes hs

pub data AllSendable : List Header → Type 0 where
  no_headers : AllSendable []
  one_header : {h : Header} {hs : List Header} → Sendable h → AllSendable hs → AllSendable (h ∷ hs)

encode_headers-Writes :
    (hs : List Header) → AllSendable hs → Writes (encode_headers hs) (block_bytes hs)
unfolding encode_headers block_bytes
encode_headers-Writes [] all pre [] post out len e el room =
    ap₂ (λ l n. ok (l, n)) e (el ∙ omega arith)
encode_headers-Writes [] all pre (m ∷ mid) post out len e el room = absurd (omega (arith, room))
encode_headers-Writes ((name, value) ∷ hs) (one_header ((hn, un), (hv, uv)) all) pre mid post out
      len e el room =
    Writes-then (encode_header name value) (encode_headers hs) (header_bytes name value)
      (block_bytes hs) (encode_header-Writes name value (omega arith) (omega arith))
      (encode_headers-Writes hs all) pre mid post out len e el room

header_bytes_some : (t : DynamicTable) (h : Header) → Sendable h → 1 ≤ length (header_bytes h.0 h.1)
header_bytes_some t h good =
    let (first, tail, e, read) = header-Reads t h [] good in
    omega (arith, ap length e, length-append (header_bytes h.0 h.1) [])

one_round :
    (rounds : ℕ) (t : DynamicTable) (first : ℕ) (tail rest : List ℕ) (h : Header) (hs : List Header)
    → decode_field t first (first ∷ tail) ≡ ok (h ∷ [], t, rest)
    → decode_rounds rounds t rest ≡ some (t, hs, ok tt)
    → decode_rounds (suc rounds) t (first ∷ tail) ≡ some (t, h ∷ hs, ok tt)
unfolding decode_rounds
one_round rounds t first tail rest h hs read more = rw (decode_rounds, read, more) refl

decode_rounds-block :
    (hs : List Header) (rounds : ℕ) (t : DynamicTable)
    → AllSendable hs
    → length (block_bytes hs) ≤ rounds
    → decode_rounds rounds t (block_bytes hs) ≡ some (t, hs, ok tt)
unfolding block_bytes decode_rounds
decode_rounds-block [] rounds t all enough = refl
decode_rounds-block (h ∷ hs) zero t (one_header good all) enough = absurd (
    omega (
      arith,
      enough,
      header_bytes_some t h good,
      length-append (header_bytes h.0 h.1) (block_bytes hs),
    ))
decode_rounds-block (h ∷ hs) (suc rounds) t (one_header good all) enough =
    let (first, tail, e, read) = header-Reads t h (block_bytes hs) good in
    ap (decode_rounds (suc rounds) t) e
    ∙ one_round rounds t first tail (block_bytes hs) h hs read (
        decode_rounds-block hs rounds t all (
          omega (
            arith,
            enough,
            header_bytes_some t h good,
            length-append (header_bytes h.0 h.1) (block_bytes hs),
          )))

-- Headers that the encoder puts into a buffer one after another, where there is room for them, take
-- up some bytes of it and nothing else; a decoder with any table reads just these headers from the
-- bytes, without an error, and its table does not change.
pub decode-encode_headers :
    (hs : List Header) (pre mid post : List ℕ) (t : DynamicTable)
    → AllSendable hs
    → length mid ≡ length (block_bytes hs)
    → (encode_headers hs (pre ++ (mid ++ post)) (length pre)
        ≡ ok (pre ++ (block_bytes hs ++ post), length pre + length (block_bytes hs)))
      × (decode_block t (block_bytes hs) ≡ some (t, hs, ok tt))
unfolding decode_block
decode-encode_headers hs pre mid post t all room = (
  encode_headers-Writes hs all pre mid post (pre ++ (mid ++ post)) (length pre) refl refl room,
  decode_rounds-block hs (length (block_bytes hs)) t all (omega arith),
)

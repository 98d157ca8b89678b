-- ===== src/Netmap/Frame.antt =====
-- crates/ts-netmap/src/frame.rs: the lengths that divide a stream of map responses, and the loop of
-- harness/src/control.rs that gives a chunk of the stream to the reader until it needs more. A
-- response is given out as its bytes, `some b` each, and `none` behind them.
use tailfeather.Common.{
  ℕ, zero, suc, ◌+◌, ◌-◌, min, Bool, true, false, not, ltb, ◌==◌, if◌then◌else◌,
}
use tailfeather.Common.{List, [], ◌∷◌, ◌++◌, length, take, drop, map, replicate, Option, none, some}
use tailfeather.Common.Bytes.{write_at, from_le_bytes}
pub mod Stream
pub mod Header
pub mod Round
pub mod Refines
pub mod Responses

abbrev pub header_len : ℕ
header_len = 4

pub data Chunk : Type 0 where
  body : List ℕ → Chunk
  end need : Chunk

pub record FrameReader : Type 0 where
  pub header : List ℕ
  pub header_filled : ℕ
  pub remaining : Option ℕ

unfoldable pub new_reader : FrameReader
new_reader = record { header = replicate header_len 0; header_filled = 0; remaining = none }

-- The reader once this much of the input has been copied to the header.
unfoldable pub filled : FrameReader → List ℕ → FrameReader
unfolding write_at from_le_bytes
filled r bytes =
    let header = write_at r.header r.header_filled bytes in
    let count = r.header_filled + length bytes in
    if ltb count header_len
    then record r { header = header; header_filled = count }
    else record { header = header; header_filled = 0; remaining = some (from_le_bytes header) }

-- The part of a response whose remaining bytes are these many.
unfoldable pub next_body : FrameReader → ℕ → List ℕ → FrameReader × Chunk × ℕ
next_body r zero input = (record r { remaining = none }, end, 0)
next_body r (suc more) [] = (r, need, 0)
next_body r (suc more) (b ∷ input) =
    let count = min (length (b ∷ input)) (suc more) in
    (record r { remaining = some (suc more - count) }, body (take count (b ∷ input)), count)

-- `next`, which never answers an error.
unfoldable pub next : FrameReader → List ℕ → FrameReader × Chunk × ℕ
unfolding filled next_body
next r input = elim r.remaining [
  | none ↦
      let count = min (length input) (header_len - r.header_filled) in
      (filled r (take count input), need, count)
  | some remaining ↦ next_body r remaining input
]

unfoldable pub is_complete : FrameReader → Bool
is_complete r = elim r.remaining [ none ↦ false | some n ↦ n == 0 ]

unfoldable pub finish_response : FrameReader → FrameReader
finish_response r = record r { header_filled = 0; remaining = none }

-- What the loop does with the answer of `next`: what it gives out, the reader, and whether it goes on.
unfoldable pub handle : FrameReader × Chunk × ℕ → List (Option ℕ) × FrameReader × Bool
unfolding is_complete finish_response
handle (r, body bytes, count) =
    if is_complete r
    then (map some bytes ++ (none ∷ []), finish_response r, true)
    else (map some bytes, r, true)
handle (r, end, count) = (none ∷ [], r, true)
handle (r, need, count) = ([], r, not (count == 0))

-- Rounds of the loop over one chunk of the stream.
unfoldable pub drive : ℕ → FrameReader → List ℕ → FrameReader × List (Option ℕ)
unfolding next handle
drive zero r input = (r, [])
drive (suc rounds) r input =
    let answer = next r input in
    let (out, r', goes_on) = handle answer in
    let (r2, later) = drive rounds r' (drop answer.2 input) in
    if goes_on then (r2, out ++ later) else (r', out)

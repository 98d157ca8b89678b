-- ===== src/H2/Hpack/Huffman.antt =====
-- crates/micro-h2/src/hpack/huffman.rs: the tables that `build` derives from the code lengths, and
-- the decoder that takes one bit at a time.
pub mod Canonical
pub mod Decodes
use tailfeather.Common.{
  ℕ, zero, suc, ◌+◌, ◌-◌, ◌*◌, ◌/◌, ◌%◌, ◌^◌, ltb, leb, ◌==◌, ◌||◌, not, if◌then◌else◌,
}
use tailfeather.Common.{List, [], ◌∷◌, map, set, get_or, replicate, Result, ok, err, ◌>>=◌}
use tailfeather.H2.Error.{Error, hpack}
use tailfeather.H2.Hpack.Integer.{put_byte}

unfoldable pub lengths : List ℕ
lengths =
    13 ∷ 23 ∷ 28 ∷ 28 ∷ 28 ∷ 28 ∷ 28 ∷ 28 ∷ 28 ∷ 24 ∷ 30 ∷ 28 ∷ 28 ∷ 30 ∷ 28 ∷ 28 ∷ 28 ∷ 28 ∷ 28
    ∷ 28 ∷ 28 ∷ 28 ∷ 30 ∷ 28 ∷ 28 ∷ 28 ∷ 28 ∷ 28 ∷ 28 ∷ 28 ∷ 28 ∷ 28 ∷ 6 ∷ 10 ∷ 10 ∷ 12 ∷ 13 ∷ 6 ∷ 8
    ∷ 11 ∷ 10 ∷ 10 ∷ 8 ∷ 11 ∷ 8 ∷ 6 ∷ 6 ∷ 6 ∷ 5 ∷ 5 ∷ 5 ∷ 6 ∷ 6 ∷ 6 ∷ 6 ∷ 6 ∷ 6 ∷ 6 ∷ 7 ∷ 8 ∷ 15 ∷ 6
    ∷ 12 ∷ 10 ∷ 13 ∷ 6 ∷ 7 ∷ 7 ∷ 7 ∷ 7 ∷ 7 ∷ 7 ∷ 7 ∷ 7 ∷ 7 ∷ 7 ∷ 7 ∷ 7 ∷ 7 ∷ 7 ∷ 7 ∷ 7 ∷ 7 ∷ 7 ∷ 7
    ∷ 7 ∷ 7 ∷ 7 ∷ 8 ∷ 7 ∷ 8 ∷ 13 ∷ 19 ∷ 13 ∷ 14 ∷ 6 ∷ 15 ∷ 5 ∷ 6 ∷ 5 ∷ 6 ∷ 5 ∷ 6 ∷ 6 ∷ 6 ∷ 5 ∷ 7 ∷ 7
    ∷ 6 ∷ 6 ∷ 6 ∷ 5 ∷ 6 ∷ 7 ∷ 6 ∷ 5 ∷ 5 ∷ 6 ∷ 7 ∷ 7 ∷ 7 ∷ 7 ∷ 7 ∷ 15 ∷ 11 ∷ 14 ∷ 13 ∷ 28 ∷ 20 ∷ 22
    ∷ 20 ∷ 20 ∷ 22 ∷ 22 ∷ 22 ∷ 23 ∷ 22 ∷ 23 ∷ 23 ∷ 23 ∷ 23 ∷ 23 ∷ 24 ∷ 23 ∷ 24 ∷ 24 ∷ 22 ∷ 23 ∷ 24
    ∷ 23 ∷ 23 ∷ 23 ∷ 23 ∷ 21 ∷ 22 ∷ 23 ∷ 22 ∷ 23 ∷ 23 ∷ 24 ∷ 22 ∷ 21 ∷ 20 ∷ 22 ∷ 22 ∷ 23 ∷ 23 ∷ 21
    ∷ 23 ∷ 22 ∷ 22 ∷ 24 ∷ 21 ∷ 22 ∷ 23 ∷ 23 ∷ 21 ∷ 21 ∷ 22 ∷ 21 ∷ 23 ∷ 22 ∷ 23 ∷ 23 ∷ 20 ∷ 22 ∷ 22
    ∷ 22 ∷ 23 ∷ 22 ∷ 22 ∷ 23 ∷ 26 ∷ 26 ∷ 20 ∷ 19 ∷ 22 ∷ 23 ∷ 22 ∷ 25 ∷ 26 ∷ 26 ∷ 26 ∷ 27 ∷ 27 ∷ 26
    ∷ 24 ∷ 25 ∷ 19 ∷ 21 ∷ 26 ∷ 27 ∷ 27 ∷ 26 ∷ 27 ∷ 24 ∷ 21 ∷ 21 ∷ 26 ∷ 26 ∷ 28 ∷ 27 ∷ 27 ∷ 27 ∷ 20
    ∷ 24 ∷ 20 ∷ 21 ∷ 22 ∷ 21 ∷ 21 ∷ 23 ∷ 22 ∷ 22 ∷ 25 ∷ 25 ∷ 24 ∷ 24 ∷ 26 ∷ 23 ∷ 26 ∷ 27 ∷ 26 ∷ 26
    ∷ 27 ∷ 27 ∷ 27 ∷ 27 ∷ 27 ∷ 28 ∷ 27 ∷ 27 ∷ 27 ∷ 27 ∷ 27 ∷ 26 ∷ 30 ∷ []

abbrev pub eos : ℕ
eos = 256

abbrev pub min_length : ℕ
min_length = 5

abbrev pub max_length : ℕ
max_length = 30

pub record Tables : Type 0 where
  pub sorted : List ℕ
  pub first_code : List ℕ
  pub first_index : List ℕ
  pub counts : List ℕ

-- The first loop of `build`, over the lengths that are left.
unfoldable pub count_lengths : List ℕ → List ℕ → List ℕ
count_lengths [] counts = counts
count_lengths (l ∷ ls) counts = count_lengths ls (set counts l (get_or counts l 0 + 1))

-- The inner loop of `build`: the symbols of one length, in order, from `symbol` on.
unfoldable pub sort_length : ℕ → List ℕ → ℕ → List ℕ → ℕ → List ℕ × ℕ
sort_length length [] symbol sorted index = (sorted, index)
sort_length length (l ∷ ls) symbol sorted index =
    sort_length length ls (symbol + 1) (if l == length then set sorted index symbol else sorted)
      (if l == length then index + 1 else index)

-- The variables of the outer loop: the arrays, the next code and the next place in `sorted`.
pub record Build : Type 0 where
  pub arrays : Tables
  pub next_code : ℕ
  pub next_index : ℕ

-- The end of the round for one length, whose symbols the inner loop has sorted.
unfoldable pub end_length : ℕ → Build → List ℕ × ℕ → Build
end_length length b (sorted', index') = record {
  arrays = record {
    sorted = sorted';
    first_code = set b.arrays.first_code length (b.next_code * 2 % 2 ^ 32);
    first_index = set b.arrays.first_index length b.next_index;
    counts = b.arrays.counts;
  };
  next_code = b.next_code * 2 % 2 ^ 32 + get_or b.arrays.counts length 0;
  next_index = index';
}

-- The outer loop of `build`, with `rounds` lengths left from `length` on. `code` is a `u32`.
unfoldable pub build_lengths : ℕ → ℕ → Build → Build
unfolding sort_length lengths end_length
build_lengths zero length b = b
build_lengths (suc rounds) length b =
    build_lengths rounds (length + 1)
      (end_length length b (sort_length length lengths 0 b.arrays.sorted b.next_index))

unfoldable pub tables : Tables
unfolding build_lengths count_lengths lengths
tables =
    let build = build_lengths max_length 1 (record {
      arrays = record {
        sorted = replicate 257 0;
        first_code = replicate (max_length + 1) 0;
        first_index = replicate (max_length + 1) 0;
        counts = count_lengths lengths (replicate (max_length + 1) 0);
      };
      next_code = 0;
      next_index = 0;
    }) in
    build.arrays

pub record State : Type 0 where
  pub out : List ℕ
  pub written : ℕ
  pub code : ℕ
  pub length : ℕ

abbrev pub start : List ℕ → State
start out = record { out = out; written = 0; code = 0; length = 0 }

-- `for bit in (0..8).rev()`.
abbrev pub bits_of : ℕ → List ℕ
bits_of byte = map (λ i. byte / 2 ^ i % 2) (7 ∷ 6 ∷ 5 ∷ 4 ∷ 3 ∷ 2 ∷ 1 ∷ 0 ∷ [])

module _ (t : Tables) where
  -- A symbol has been read: refuse EOS, else write it and start the next.
  unfoldable pub write_symbol : ℕ → State → Result Error State
  unfolding put_byte
  write_symbol symbol s =
      if symbol == eos
      then err hpack
      else put_byte s.out s.written (symbol % 256) >>= λ (out', written').
          ok (record { out = out'; written = written'; code = 0; length = 0 })

  -- The body of the inner loop, for one bit.
  unfoldable pub take_bit : ℕ → State → Result Error State
  unfolding write_symbol
  take_bit bit s =
      let code' = s.code * 2 % 2 ^ 32 + bit in
      let length' = s.length + 1 in
      let shifted = record s { code = code'; length = length' } in
      let count = get_or t.counts length' 0 in
      let first = get_or t.first_code length' 0 in
      if ltb max_length length'
      then err hpack
      else if ltb length' min_length
      then ok shifted
      else if count == 0 || (ltb code' first || leb (first + count) code')
      then ok shifted
      else write_symbol (get_or t.sorted (get_or t.first_index length' 0 + (code' - first)) 0)
          shifted

  unfoldable pub take_bits : List ℕ → State → Result Error State
  unfolding take_bit
  take_bits [] s = ok s
  take_bits (b ∷ bs) s = take_bit b s >>= λ s'. take_bits bs s'

  unfoldable pub take_bytes : List ℕ → State → Result Error State
  unfolding take_bits
  take_bytes [] s = ok s
  take_bytes (byte ∷ rest) s = take_bits (bits_of byte) s >>= λ s'. take_bytes rest s'

  -- The check of the padding, at the end of the input.
  unfoldable pub finish : State → Result Error (List ℕ × ℕ)
  finish s =
      if leb 8 s.length || not (s.code == 2 ^ s.length - 1)
      then err hpack
      else ok (s.out, s.written)

  -- `decode` over given tables.
  unfoldable pub decode_with : List ℕ → List ℕ → Result Error (List ℕ × ℕ)
  unfolding take_bytes finish
  decode_with input out = take_bytes input (start out) >>= λ s. finish s

unfoldable pub huffman_decode : List ℕ → List ℕ → Result Error (List ℕ × ℕ)
unfolding decode_with tables
huffman_decode input out = decode_with tables input out

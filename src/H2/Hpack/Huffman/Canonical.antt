-- ===== src/H2/Hpack/Huffman/Canonical.antt =====
-- The canonical code of RFC 7541 Appendix B, described by its lengths alone, and the walk that the
-- decoder makes through one code.
use tailfeather.Common.{ℕ, zero, suc, ◌+◌, ◌-◌, ◌*◌, ◌/◌, ◌%◌, ◌^◌, ◌≡◌, refl}
use tailfeather.Common.{Bool, ltb, leb, ◌==◌, ◌&&◌, ◌||◌, if◌then◌else◌, true, false}
use tailfeather.Common.{List, [], ◌∷◌, length, get_or, Option, none, some}
use tailfeather.Common.Bits.{all_below}
use tailfeather.H2.Hpack.Huffman.{
  lengths, min_length, max_length, Tables, tables, build_lengths, sort_length, end_length,
  count_lengths,
}

-- The symbols before `s` in the order of (length, symbol), each as the codes of length `l` under it.
unfoldable pub codes_before : ℕ → ℕ → ℕ → List ℕ → ℕ
codes_before s l t [] = 0
codes_before s l t (m ∷ ms) =
    (if ltb m l || m == l && ltb t s then 2 ^ (l - m) else 0) + codes_before s l (t + 1) ms

-- The `l` low bits of a number, the highest first.
unfoldable pub bits_msb : ℕ → ℕ → List ℕ
bits_msb zero n = []
bits_msb (suc l) n = n / 2 ^ l % 2 ∷ bits_msb l n

-- The code of a symbol: its length, and the number of codes of that length before it.
unfoldable pub code_bits : ℕ → List ℕ
unfolding codes_before bits_msb lengths
code_bits s = bits_msb (get_or lengths s 0) (codes_before s (get_or lengths s 0) 0 lengths)

-- Which symbol these bits complete, with their last bit and not before.
unfoldable pub walk : Tables → List ℕ → ℕ → ℕ → Option ℕ
walk t [] code len = none
walk t (b ∷ bs) code len =
    let code' = code * 2 % 2 ^ 32 + b in
    let count = get_or t.counts (len + 1) 0 in
    let first = get_or t.first_code (len + 1) 0 in
    let next = walk t bs code' (len + 1) in
    if ltb max_length (len + 1)
    then none
    else if ltb (len + 1) min_length
    then next
    else if count == 0 || (ltb code' first || leb (first + count) code')
    then next
    else if length bs == 0
    then some (get_or t.sorted (get_or t.first_index (len + 1) 0 + (code' - first)) 0)
    else none

unfoldable pub reads : Tables → ℕ → Bool
unfolding walk code_bits
reads t s = elim (walk t (code_bits s) 0 0) [ none ↦ false | some x ↦ x == s ]

pub every_symbol_reads : all_below 256 (reads tables) ≡ true
unfolding all_below reads tables build_lengths sort_length end_length count_lengths walk code_bits
    codes_before bits_msb lengths
every_symbol_reads = refl

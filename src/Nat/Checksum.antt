-- ===== src/Nat/Checksum.antt =====
-- The internet checksum: `checksum` of firmware/src/inner.rs, `checksum_with_carry`,
-- `pseudo_header_sum` and `adjust_checksum` of firmware/src/nat.rs. Sums are in a `u32`, folded to
-- sixteen bits by a loop that three rounds end.
use tailfeather.Common.{ℕ, zero, suc, ◌+◌, ◌-◌, ◌*◌, ◌/◌, ◌%◌, ◌^◌, ◌==◌, if◌then◌else◌}
use tailfeather.Common.{List, [], ◌∷◌, ◌++◌}
use tailfeather.Common.Bytes.{from_be16}
pub mod Sums

-- `!x` on a `u16`.
abbrev pub complement : ℕ → ℕ
complement x = 0xffff - x

-- `sum += word` for each pair of bytes.
unfoldable pub add_words : ℕ → List ℕ → ℕ
add_words sum [] = sum
add_words sum (a ∷ []) = sum
add_words sum (a ∷ b ∷ rest) = add_words ((sum + from_be16 a b) % 2 ^ 32) rest

-- `chunks.remainder()`: the last byte of an odd number.
unfoldable pub remainder : List ℕ → List ℕ
remainder [] = []
remainder (a ∷ []) = a ∷ []
remainder (a ∷ b ∷ rest) = remainder rest

unfoldable pub add_last : ℕ → List ℕ → ℕ
add_last sum [] = sum
add_last sum (last ∷ rest) = (sum + last * 256) % 2 ^ 32

-- Rounds of `sum = (sum & 0xffff) + (sum >> 16)`.
unfoldable pub fold : ℕ → ℕ → ℕ
fold zero sum = sum
fold (suc rounds) sum =
    let folded = fold rounds (sum % 2 ^ 16 + sum / 2 ^ 16) in
    if sum / 2 ^ 16 == 0 then sum else folded

unfoldable pub checksum_with_carry : List ℕ → ℕ → ℕ
unfolding add_words remainder add_last fold
checksum_with_carry bytes sum =
    complement (fold 3 (add_last (add_words sum bytes) (remainder bytes)) % 2 ^ 16)

unfoldable pub checksum : List ℕ → ℕ
unfolding add_words remainder add_last fold
checksum bytes = complement (fold 3 (add_last (add_words 0 bytes) (remainder bytes)) % 2 ^ 16)

-- `acc += !word` for each pair of bytes.
unfoldable pub add_complements : ℕ → List ℕ → ℕ
add_complements sum [] = sum
add_complements sum (a ∷ []) = sum
add_complements sum (a ∷ b ∷ rest) =
    add_complements ((sum + complement (from_be16 a b)) % 2 ^ 32) rest

unfoldable pub adjust_checksum : ℕ → List ℕ → List ℕ → ℕ
unfolding add_complements add_words fold
adjust_checksum old_sum old new =
    complement (fold 3 (add_words (add_complements (complement old_sum) old) new) % 2 ^ 16)

unfoldable pub pseudo_header_sum : List ℕ → List ℕ → ℕ → ℕ
unfolding add_words
pseudo_header_sum src_ip dst_ip udp_len = (add_words 0 (src_ip ++ dst_ip) + 17 + udp_len) % 2 ^ 32

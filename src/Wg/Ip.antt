-- ===== src/Wg/Ip.antt =====
-- crates/wg-core/src/ip.rs: the length of the inner packet at the front of padded plaintext.
pub mod Header
use tailfeather.Common.{ℕ, ◌+◌, ◌/◌, leb, ◌==◌, if◌then◌else◌, Option, none, some, List, [], ◌∷◌}
use tailfeather.Common.{length}
use tailfeather.Common.Bytes.{from_be16}

abbrev pub ipv4 : ℕ
ipv4 = 4

abbrev pub ipv6 : ℕ
ipv6 = 6

abbrev pub ipv6_header_len : ℕ
ipv6_header_len = 40

-- `(len <= padded.len()).then_some(len)`.
abbrev fits : ℕ → List ℕ → Option ℕ
fits len padded = if leb len (length padded) then some len else none

-- `padded.get(2..4)` and what is made of it.
unfoldable pub ipv4_len : List ℕ → Option ℕ
ipv4_len (_ ∷ _ ∷ a ∷ b ∷ rest) = some (from_be16 a b)
ipv4_len _ = none

-- `padded.get(4..6)` and what is made of it.
unfoldable pub ipv6_len : List ℕ → Option ℕ
ipv6_len (_ ∷ _ ∷ _ ∷ _ ∷ a ∷ b ∷ rest) = some (from_be16 a b + ipv6_header_len)
ipv6_len _ = none

unfoldable pub packet_len : List ℕ → Option ℕ
unfolding ipv4_len ipv6_len
packet_len [] = none
packet_len (first ∷ rest) =
    let padded = first ∷ rest in
    let version = first / 16 in
    if version == ipv4
    then elim (ipv4_len padded) [ none ↦ none | some len ↦ fits len padded ]
    else if version == ipv6
    then elim (ipv6_len padded) [ none ↦ none | some len ↦ fits len padded ]
    else none

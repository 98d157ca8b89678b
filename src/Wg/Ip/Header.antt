-- ===== src/Wg/Ip/Header.antt =====
-- What `packet_len` promises of the length it reports, and that padding does not change it.
use tailfeather.Common.{ℕ, ◌≤◌, ◌≡◌, arith, some, List, [], ◌∷◌}
use tailfeather.Common.{◌++◌, length, length-append}
use tailfeather.Wg.Ip.{packet_len}

-- A reported length lies within the buffer.
pub packet_len-le : (padded : List ℕ) (len : ℕ) → packet_len padded ≡ some len → len ≤ length padded
unfolding packet_len
packet_len-le [] len e = cc
packet_len-le (a ∷ []) len e = ground arith
packet_len-le (a ∷ b ∷ []) len e = ground arith
packet_len-le (a ∷ b ∷ c ∷ []) len e = ground arith
packet_len-le (a ∷ b ∷ c ∷ d ∷ []) len e = ground arith
packet_len-le (a ∷ b ∷ c ∷ d ∷ f ∷ []) len e = ground arith
packet_len-le (a ∷ b ∷ c ∷ d ∷ f ∷ g ∷ rest) len e = ground arith

-- Padding behind a packet does not change the length read from its header.
pub packet_len-append :
    (packet padding : List ℕ) (len : ℕ)
    → packet_len packet ≡ some len
    → packet_len (packet ++ padding) ≡ some len
unfolding packet_len
packet_len-append [] padding len e = cc
packet_len-append (a ∷ []) padding len e = ground arith
packet_len-append (a ∷ b ∷ []) padding len e = ground arith
packet_len-append (a ∷ b ∷ c ∷ []) padding len e = ground arith
packet_len-append (a ∷ b ∷ c ∷ d ∷ []) padding len e = ground (arith, length-append {0} padding [])
packet_len-append (a ∷ b ∷ c ∷ d ∷ f ∷ []) padding len e = ground arith
packet_len-append (a ∷ b ∷ c ∷ d ∷ f ∷ g ∷ rest) padding len e =
    ground (arith, length-append rest padding)

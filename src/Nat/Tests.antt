-- ===== src/Nat/Tests.antt =====
-- The theorems of the address translation at concrete flows.
use tailfeather.Common.{false}
use tailfeather.Common.{ℕ, ◌-◌, ◌+◌, ◌%◌, ◌<◌, ◌≤◌, ◌≡◌, ◌⊎◌, refl, [], ◌∷◌, length, some, arith}
use tailfeather.Nat.Checksum.{adjust_checksum, complement}
use tailfeather.Nat.Checksum.Sums.{adjust_checksum_lem, words}
use tailfeather.Common.{replicate, take}
use tailfeather.Nat.Udp.{Udp4, build_udp4, parse_udp4}
use tailfeather.Nat.Udp.RoundTrip.{parse_udp4-build_udp4}
use tailfeather.Nat.Table.{Flow, Flows, slot_for, idle_timeout_ms, get, new_table, matches}
use tailfeather.Nat.Table.Slots.{slot_for_holds, slot_for_spares}
use tailfeather.Nat.Table.Slots.Distinct.{IsDistinct, slot_for-IsDistinct, new_table-IsDistinct}

abbrev flow : ℕ → ℕ → Flow
flow port now = record {
  client_ip = 10 ∷ 0 ∷ 0 ∷ 2 ∷ [];
  client_port = port;
  server_ip = 1 ∷ 1 ∷ 1 ∷ 1 ∷ [];
  server_port = 53;
  last_used_ms = now;
}

-- A table of two slots, both in use.
abbrev busy : Flows
busy = some (flow 5000 20000) ∷ some (flow 5001 10000) ∷ []

slot_for_holds_example :
    (1 < 2)
    × (get (some (flow 5000 20000) ∷ some (flow 5002 45000) ∷ []) 1 ≡ some (flow 5002 45000))
    × (◌≡◌ {A = ℕ} 2 (length busy))
    × ((◌≡◌ {A = ℕ} 0 1)
        ⊎ (get (some (flow 5000 20000) ∷ some (flow 5002 45000) ∷ []) 0 ≡ get busy 0))
unfolding slot_for get
slot_for_holds_example =
    slot_for_holds idle_timeout_ms busy (some (flow 5000 20000) ∷ some (flow 5002 45000) ∷ [])
      (flow 5002 45000) 1 0 refl

slot_for_spares_example :
    (30000 ≤ 60000 - 10000)
    × ((g : Flow) × (get busy 0 ≡ some g)
        × (matches (flow 5002 60000) g ≡ false)
        × ((60000 - g.last_used_ms < 30000) ⊎ (10000 ≤ g.last_used_ms)))
unfolding slot_for get matches
slot_for_spares_example =
    slot_for_spares idle_timeout_ms busy (some (flow 5000 20000) ∷ some (flow 5002 60000) ∷ [])
      (flow 5002 60000) 1 0 (flow 5001 10000) refl refl refl (omega arith)

slot_for-IsDistinct_example : IsDistinct (slot_for idle_timeout_ms new_table (flow 5000 7)).0
slot_for-IsDistinct_example =
    slot_for-IsDistinct idle_timeout_ms new_table (flow 5000 7) new_table-IsDistinct

-- A word of 192.168 becomes one of 10.0, beside a sum of 100.
adjust_checksum_lem_example :
    complement (adjust_checksum 16115 (192 ∷ 168 ∷ []) (10 ∷ 0 ∷ [])) % 0xffff
    ≡ (100 + words (10 ∷ 0 ∷ [])) % 0xffff
unfolding words
adjust_checksum_lem_example =
    adjust_checksum_lem 16115 100 (192 ∷ 168 ∷ []) (10 ∷ 0 ∷ []) (omega arith) (omega arith)
      (omega arith) (omega arith) (omega arith) refl

abbrev datagram : Udp4
datagram = record {
  src_ip = 10 ∷ 0 ∷ 0 ∷ 2 ∷ [];
  dst_ip = 1 ∷ 1 ∷ 1 ∷ 1 ∷ [];
  src_port = 40000;
  dst_port = 53;
  payload = 7 ∷ 8 ∷ 9 ∷ [];
}

parse_udp4-build_udp4_example :
    let (out', written) = build_udp4 datagram (replicate 40 0) in
    (written ≡ some 31) × (parse_udp4 (take 31 out') ≡ some datagram)
parse_udp4-build_udp4_example =
    parse_udp4-build_udp4 datagram (replicate 40 0) refl refl (omega arith) (omega arith)
      (omega arith) (omega arith)

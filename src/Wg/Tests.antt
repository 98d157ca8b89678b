-- ===== src/Wg/Tests.antt =====
-- Runs of the WireGuard core at concrete inputs, and the theorems there.
use tailfeather.Common.{ℕ, ◌+◌, ◌-◌, ◌/◌, ◌≤◌, ◌≡◌, refl, arith, true, false}
use tailfeather.Common.{List, [], ◌∷◌, ◌++◌, replicate, some}
use tailfeather.Wg.Timers.{
  HandshakeBudget, new_budget, take as take_token, handshake_burst, handshake_rate_limit_ms,
}
use tailfeather.Wg.Timers.Bucket.{granted, granted_bound, granted_after_refusals}
use tailfeather.Wg.Replay.{new_window, accept, is_set, set_seen, advance}
use tailfeather.Wg.Replay.Step.{
  accept_all, spec_accept_all, accept_all_refines, accept_at_most_once,
}
use tailfeather.Wg.Ip.{packet_len}
use tailfeather.Wg.Ip.Header.{packet_len-append}

-- A burst is granted, then the bucket is empty until one interval has passed.
burst_run : (granted new_budget (0 ∷ 0 ∷ 0 ∷ 0 ∷ 0 ∷ 0 ∷ 0 ∷ 0 ∷ 0 ∷ 49 ∷ 50 ∷ 50 ∷ [])).0 ≡ 9
unfolding granted take_token new_budget
burst_run = refl

granted_bound_example :
    (granted new_budget (1_000 ∷ 1_000 ∷ 1_100 ∷ [])).0
    ≤ handshake_burst + (1_100 - 1_000) / handshake_rate_limit_ms
granted_bound_example = granted_bound 1_000 1_100 (1_000 ∷ 1_100 ∷ []) (omega arith) (omega arith)

-- A bucket that was emptied at instant 0.
abbrev spent_bucket : HandshakeBudget
spent_bucket = record { tokens = 0; last_refill = some 0 }

granted_after_refusals_example :
    (take_token (granted (take_token spent_bucket 10).0 (20 ∷ 30 ∷ [])).1 60).1 ≡ true
granted_after_refusals_example =
    granted_after_refusals spent_bucket 10 60 (20 ∷ 30 ∷ []) (omega arith) refused idle
      (omega arith)
  where
    refused : (take_token spent_bucket 10).1 ≡ false
    refused = unfold take_token in refl

    idle : (granted (take_token spent_bucket 10).0 (20 ∷ 30 ∷ [])).0 ≡ 0
    idle = unfold take_token granted in refl

-- The window accepts out of order, once each, and nothing a window or more behind.
window_run :
    (accept_all new_window (100 ∷ 50 ∷ 50 ∷ 2_048 ∷ 1_024 ∷ 1_025 ∷ 1_025 ∷ [])).0
    ≡ true ∷ true ∷ false ∷ true ∷ false ∷ true ∷ false ∷ []
unfolding accept_all accept new_window is_set set_seen advance
window_run = refl

accept_all_refines_example :
    (accept_all new_window (1 ∷ 1_025 ∷ 1 ∷ [])).0 ≡ (spec_accept_all [] (1 ∷ 1_025 ∷ 1 ∷ [])).0
accept_all_refines_example = accept_all_refines (1 ∷ 1_025 ∷ 1 ∷ [])

accept_at_most_once_example :
    let w = (accept (accept_all new_window (7 ∷ [])).1 5).0 in
    (accept (accept_all w (1_000_000 ∷ 6 ∷ [])).1 5).1 ≡ false
accept_at_most_once_example = accept_at_most_once (7 ∷ []) (1_000_000 ∷ 6 ∷ []) 5

-- The smallest IPv4 packet: 20 bytes, the length in the header.
abbrev small_packet : List ℕ
small_packet = 0x45 ∷ 0 ∷ 0 ∷ 20 ∷ replicate 16 0

packet_len-append_example : packet_len (small_packet ++ (0 ∷ 0 ∷ [])) ≡ some 20
packet_len-append_example =
    packet_len-append small_packet (0 ∷ 0 ∷ []) 20 (unfold packet_len in refl)

-- ===== src/Wg/Timers.antt =====
-- crates/wg-core/src/timers.rs: the protocol's constants, the timer rules over an injected clock,
-- and the token bucket over handshake work. An instant is a number of milliseconds.
pub mod Bucket
use tailfeather.Common.{ℕ, ◌+◌, ◌-◌, ◌*◌, ◌/◌, ◌^◌, min, Bool, true, false, ltb, leb, ◌==◌}
use tailfeather.Common.{if◌then◌else◌, Option, none, some}

abbrev pub Instant : Type 0
Instant = ℕ

-- `u64::saturating_sub`: the subtraction of ℕ.
abbrev pub saturating_since : Instant → Instant → ℕ
saturating_since now earlier = now - earlier

abbrev pub reject_after_time_ms : ℕ
reject_after_time_ms = 180_000

abbrev pub rekey_after_time_ms : ℕ
rekey_after_time_ms = 120_000

abbrev pub rekey_timeout_ms : ℕ
rekey_timeout_ms = 5_000

abbrev pub rekey_attempt_time_ms : ℕ
rekey_attempt_time_ms = 90_000

abbrev pub keepalive_timeout_ms : ℕ
keepalive_timeout_ms = 10_000

-- `u64::MAX - (1 << 13)`.
abbrev pub reject_after_messages : ℕ
reject_after_messages = 2 ^ 64 - 1 - 2 ^ 13

abbrev pub handshake_rate_limit_ms : ℕ
handshake_rate_limit_ms = 50

abbrev pub handshake_burst : ℕ
handshake_burst = 8

abbrev pub u32_max : ℕ
u32_max = 2 ^ 32 - 1

pub record HandshakeBudget : Type 0 where
  pub tokens : ℕ
  pub last_refill : Option Instant

unfoldable pub new_budget : HandshakeBudget
new_budget = record { tokens = handshake_burst; last_refill = none }

-- The `match self.last_refill` of `take`.
unfoldable pub refill : HandshakeBudget → Instant → HandshakeBudget
refill b now = elim b.last_refill [
  | none ↦ record b { last_refill = some now }
  | some last ↦
      let earned = saturating_since now last / handshake_rate_limit_ms in
      if ltb 0 earned
      then record {
        tokens = min (min (b.tokens + min earned u32_max) u32_max) handshake_burst;
        last_refill = some (last + earned * handshake_rate_limit_ms);
      }
      else b
]

unfoldable pub take : HandshakeBudget → Instant → HandshakeBudget × Bool
unfolding refill
take b now =
    let b' = refill b now in
    if b'.tokens == 0 then (b', false) else (record b' { tokens = b'.tokens - 1 }, true)

unfoldable pub handshake_retry_is_due : Option Instant → Instant → Bool
handshake_retry_is_due none now = true
handshake_retry_is_due (some last) now = leb rekey_timeout_ms (saturating_since now last)

unfoldable pub handshake_has_expired : Instant → Instant → Bool
handshake_has_expired started now = leb rekey_attempt_time_ms (saturating_since now started)

unfoldable pub rekey_is_due : Instant → Instant → Bool
rekey_is_due established now = leb rekey_after_time_ms (saturating_since now established)

unfoldable pub session_is_alive : Instant → Instant → Bool
session_is_alive established now = ltb (saturating_since now established) reject_after_time_ms

unfoldable pub keepalive_is_due : Option Instant → Instant → Bool
keepalive_is_due none now = false
keepalive_is_due (some armed) now = leb keepalive_timeout_ms (saturating_since now armed)

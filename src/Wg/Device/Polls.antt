-- ===== src/Wg/Device/Polls.antt =====
-- crates/wg-core/src/lib.rs: what a device does as time passes, `poll_timers` and `poll_handshakes`.
-- A loop counts down the peers that are left.
use tailfeather.Common.{
  ℕ, zero, suc, ◌+◌, Bool, true, false, not, if◌then◌else◌, Option, none, some,
}
use tailfeather.Common.{List, [], length, get_elem?, ok, err}
use tailfeather.Wg.Error.{Error, rate_limited}
use tailfeather.Wg.Crypto.{Aead}
use tailfeather.Wg.Crypto.Handshake.{Primitives}
use tailfeather.Wg.Session.{Session}
use tailfeather.Wg.Timers.{Instant, keepalive_is_due}
use tailfeather.Wg.Device.{
  Peer, Device, PeerId, Action, nothing, send, expire_sessions, wants_handshake, set_peer,
}
use tailfeather.Wg.Device.Handshakes.{start_handshake}
use tailfeather.Wg.Device.Data.{seal_for}

-- The session of a peer that owes a keepalive and may send it.
unfoldable pub keepalive_session : Peer → Instant → Option Session
unfolding keepalive_is_due
keepalive_session p now =
    if not (keepalive_is_due p.keepalive_armed_since now)
    then none
    else elim p.current [ none ↦ none | some s ↦ if not s.confirmed then none else some s ]

module _ (c : Aead) where
  unfoldable pub poll_timers_from :
      ℕ → PeerId → Device → Instant → List ℕ → Device × List ℕ × Action
  unfolding expire_sessions keepalive_session seal_for
  poll_timers_from zero index d now out = (d, out, nothing)
  poll_timers_from (suc left) index d now out = elim (get_elem? d.peers index) [
    | none ↦ (d, out, nothing)
    | some p ↦
        let p' = expire_sessions p now in
        let d' = set_peer d index p' in
        elim (keepalive_session p' now) [
          | none ↦ poll_timers_from left (index + 1) d' now out
          | some s ↦
              let (d'', out', sealed) = seal_for c d' index p' s [] out in
              elim sealed [
                | ok action ↦ (d'', out', action)
                | err e ↦ poll_timers_from left (index + 1) d'' now out'
              ]
        ]
  ]

  unfoldable pub poll_timers : Device → Instant → List ℕ → Device × List ℕ × Action
  unfolding poll_timers_from
  poll_timers d now out = poll_timers_from (length d.peers) 0 d now out

-- Whether an error ends the loop of `poll_handshakes`.
abbrev pub is_rate_limited : Error → Bool
is_rate_limited e = elim e [ rate_limited ↦ true | _ ↦ false ]

module _ (c : Primitives) {R : Type 0} (fill_bytes : R → ℕ → List ℕ × R) (fuel : ℕ) where
  unfoldable pub poll_handshakes_from :
      ℕ → PeerId → Device → Instant → List ℕ → R → ℕ → Option (Device × R × Action)
  unfolding expire_sessions wants_handshake start_handshake
  poll_handshakes_from zero index d now timestamp rng room = some (d, rng, nothing)
  poll_handshakes_from (suc left) index d now timestamp rng room = elim (get_elem? d.peers index) [
    | none ↦ some (d, rng, nothing)
    | some p ↦
        let p' = expire_sessions p now in
        let d' = set_peer d index p' in
        elim (wants_handshake p' now) [
          | false ↦ poll_handshakes_from left (index + 1) d' now timestamp rng room
          | true ↦ elim (start_handshake c fill_bytes fuel d' index now timestamp rng room) [
            | none ↦ none
            | some w ↦ elim w.2 [
              | ok bytes ↦ some (w.0, w.1, send index bytes)
              | err e ↦ elim (is_rate_limited e) [
                | true ↦ some (w.0, w.1, nothing)
                | false ↦ poll_handshakes_from left (index + 1) w.0 now timestamp w.1 room
              ]
            ]
          ]
        ]
  ]

  unfoldable pub poll_handshakes : Device → Instant → List ℕ → R → ℕ → Option (Device × R × Action)
  unfolding poll_handshakes_from
  poll_handshakes d now timestamp rng room =
      poll_handshakes_from (length d.peers) 0 d now timestamp rng room

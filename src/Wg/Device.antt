-- ===== src/Wg/Device.antt =====
-- crates/wg-core/src/lib.rs: a device and its table of peers. An operation takes the device and
-- returns it as it leaves it; a peer's identity is its index in the table.
pub mod Handshakes
pub mod Data
pub mod Polls
pub mod Udp
mod Table
mod Steps
mod Opens
mod Gives
mod Named
mod Directory
pub mod Advances
pub mod Sending
pub mod Indices
pub mod Replayed
pub mod Connects
pub mod Delivers
use tailfeather.Common.{
  ℕ, ◌+◌, ltb, Bool, true, false, not, ◌&&◌, ◌||◌, if◌then◌else◌, Option, none, some,
}
use tailfeather.Common.{
  List, [], ◌∷◌, ◌++◌, length, get_elem?, set, replicate, bytes_eq, Result, ok, err,
}
use tailfeather.Wg.Error.{Error, unknown_peer, too_many_peers}
use tailfeather.Wg.Crypto.{Key}
use tailfeather.Wg.Crypto.Handshake.{Primitives}
use tailfeather.Wg.Noise.{Handshake, mac1_key}
use tailfeather.Wg.Session.{Session, is_usable}
use tailfeather.Wg.Timers.{
  Instant, HandshakeBudget, new_budget, handshake_retry_is_due, handshake_has_expired, rekey_is_due,
}

pub record Peer : Type 0 where
  pub public : Key
  pub preshared_key : Key
  pub last_timestamp : Option (List ℕ)
  pub current : Option Session
  pub previous : Option Session
  pub keepalive_armed_since : Option Instant
  pub initiating : Bool
  pub pending : Option Handshake
  pub pending_since : Option Instant
  pub pending_last_sent : Option Instant

-- What is left of a session at this time.
unfoldable pub expire : Option Session → Instant → Option Session
expire none now = none
expire (some s) now = if is_usable s now then some s else none

unfoldable pub expire_sessions : Peer → Instant → Peer
unfolding expire
expire_sessions p now = record p {
  current = expire p.current now;
  previous = expire p.previous now;
}

-- The `match &self.current` of `wants_handshake`.
unfoldable pub needs_session : Option Session → Instant → Bool
needs_session none now = true
needs_session (some s) now = not (is_usable s now) || rekey_is_due s.established now

unfoldable pub wants_handshake : Peer → Instant → Bool
unfolding needs_session
wants_handshake p now =
    if not p.initiating
    then false
    else needs_session p.current now && handshake_retry_is_due p.pending_last_sent now

unfoldable pub clear_pending : Peer → Peer
clear_pending p = record p { pending = none; pending_since = none; pending_last_sent = none }

pub record Device : Type 0 where
  pub static_private : Key
  pub static_public : Key
  pub mac1_key : Key
  pub peers : List Peer
  pub budget : HandshakeBudget

abbrev pub PeerId : Type 0
PeerId = ℕ

pub data Action : Type 0 where
  nothing : Action
  send : PeerId → List ℕ → Action
  receive : PeerId → List ℕ → Action

-- `Device::new`.
unfoldable pub new_device : Primitives → List ℕ → Device
unfolding new_budget mac1_key
new_device c bytes =
    let private = c.secret_from bytes in
    let public = c.public_of private in
    record {
      static_private = private;
      static_public = public;
      mac1_key = mac1_key c public;
      peers = [];
      budget = new_budget;
    }

-- The peer that `add_peer` registers.
unfoldable pub new_peer : List ℕ → Option (List ℕ) → Peer
new_peer public preshared_key = record {
  public = public;
  preshared_key = elim preshared_key [ none ↦ replicate 32 0 | some key ↦ key ];
  last_timestamp = none;
  current = none;
  previous = none;
  keepalive_armed_since = none;
  initiating = false;
  pending = none;
  pending_since = none;
  pending_last_sent = none;
}

-- The table holds `capacity` peers, the `PEERS` of the type.
unfoldable pub add_peer : ℕ → Device → List ℕ → Option (List ℕ) → Device × Result Error PeerId
unfolding new_peer
add_peer capacity d public preshared_key =
    if ltb (length d.peers) capacity
    then (record d { peers = d.peers ++ new_peer public preshared_key ∷ [] }, ok (length d.peers))
    else (d, err too_many_peers)

abbrev pub peer_count : Device → ℕ
peer_count d = length d.peers

-- `iter().position(..)`, counted from `i`.
unfoldable pub position : (Peer → Bool) → List Peer → ℕ → Option PeerId
position test [] i = none
position test (p ∷ ps) i = let rest = position test ps (i + 1) in if test p then some i else rest

unfoldable pub peer_by_public_key : Device → Key → Option PeerId
unfolding position
peer_by_public_key d public = position (λ p. bytes_eq p.public public) d.peers 0

-- A write to one entry of the table.
abbrev pub set_peer : Device → PeerId → Peer → Device
set_peer d id p = record d { peers = set d.peers id p }

unfoldable pub set_initiating : Device → PeerId → Bool → Device × Result Error (Unit {0})
unfolding clear_pending
set_initiating d id initiating = elim (get_elem? d.peers id) [
  | none ↦ (d, err unknown_peer)
  | some p ↦
      let p' = record p { initiating = initiating } in
      (set_peer d id (if initiating then p' else clear_pending p'), ok tt)
]

unfoldable pub handshake_is_stalled : Device → PeerId → Instant → Bool
handshake_is_stalled d id now = elim (get_elem? d.peers id) [
  | none ↦ false
  | some p ↦ elim p.pending_since [ none ↦ false | some since ↦ handshake_has_expired since now ]
]

unfoldable pub is_connected : Device → PeerId → Instant → Bool
is_connected d id now = elim (get_elem? d.peers id) [
  | none ↦ false
  | some p ↦ elim p.current [ none ↦ false | some s ↦ is_usable s now && s.confirmed ]
]

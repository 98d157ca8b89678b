-- ===== src/Wg/Device/Steps.antt =====
-- The handshake in the devices of crates/wg-core/src/lib.rs, an operation at a time: what each
-- leaves where all of its steps succeed.
use tailfeather.Common.{ℕ, ◌≡◌, refl, true, false}
use tailfeather.Common.{Option, none, some, List, get_elem?, ok}
use tailfeather.Wg.Crypto.{Key}
use tailfeather.Wg.Crypto.Handshake.{Primitives}
use tailfeather.Wg.Messages.{get_u32}
use tailfeather.Wg.Noise.{
  Initiation, Handshake, range, timestamp_is_newer, create_initiation, consume_initiation,
  create_response, consume_response, verify_initiation_mac1, verify_response_mac1,
}
use tailfeather.Wg.Session.{TransportKeys}
use tailfeather.Wg.Timers.{Instant, HandshakeBudget}
use tailfeather.Wg.Timers
use tailfeather.Wg.Device.{Peer, Device, PeerId, set_peer, position, peer_by_public_key}
use tailfeather.Wg.Device.Handshakes.{
  or_insert, awaits, draw, start_handshake, send_initiation, respond_to_initiation, respond_to_peer,
  named, send_response, is_stale, accept_initiation, complete_handshake, finish_handshake,
  pending_at, install,
}

-- A device that has paid for a handshake.
abbrev pub spend : Device → Instant → Device
spend d now = record d { budget = (Timers.take d.budget now).0 }

-- The peer with an attempt on its way.
abbrev pub attempted : Peer → Handshake → Instant → Peer
attempted p handshake now = record p {
  pending = some handshake;
  pending_since = or_insert p.pending_since now;
  pending_last_sent = some now;
}

module _ (c : Primitives) {R : Type 0} (fill_bytes : R → ℕ → List ℕ × R) (fuel : ℕ) where
  -- `start_handshake`, where its steps succeed.
  pub start_handshake-created :
      (d : Device) (id : PeerId) (p : Peer) (now : Instant) (timestamp : List ℕ) (rng rng' : R)
      (room : ℕ) (index : ℕ) (ephemeral : Key) (bytes : List ℕ) (handshake : Handshake)
      → get_elem? d.peers id ≡ some p
      → (Timers.take d.budget now).1 ≡ true
      → draw c fill_bytes fuel d.peers rng ≡ some (index, ephemeral, rng')
      → create_initiation c d.static_private d.static_public p.public index ephemeral timestamp room
        ≡ ok (bytes, handshake)
      → start_handshake c fill_bytes fuel d id now timestamp rng room
        ≡ some (set_peer (spend d now) id (attempted p handshake now), rng', ok bytes)
  unfolding start_handshake send_initiation
  start_handshake-created d id p now timestamp rng rng' room index ephemeral bytes handshake h1 h2
        h3 h4 =
      rw (h1, h2, h3, h4, start_handshake, send_initiation) refl

  pub respond_to_initiation-accepted :
      (d : Device) (id : PeerId) (p : Peer) (initiation : Initiation) (now : Instant)
      (datagram : List ℕ) (rng rng' : R) (room index : ℕ) (ephemeral : Key) (bytes : List ℕ)
      (keys : TransportKeys)
      → verify_initiation_mac1 c d.mac1_key datagram ≡ ok tt
      → (Timers.take d.budget now).1 ≡ true
      → consume_initiation c d.static_private d.static_public d.mac1_key datagram ≡ ok initiation
      → peer_by_public_key d initiation.peer_static ≡ some id
      → get_elem? d.peers id ≡ some p
      → is_stale p initiation ≡ false
      → draw c fill_bytes fuel d.peers rng ≡ some (index, ephemeral, rng')
      → create_response c initiation p.preshared_key index ephemeral room ≡ ok (bytes, keys)
      → respond_to_initiation c fill_bytes fuel d datagram now rng room
        ≡ some (
          set_peer (spend d now) id (accept_initiation c p initiation index keys now),
          rng',
          ok (id, bytes),
        )
  unfolding respond_to_initiation respond_to_peer named send_response peer_by_public_key
  respond_to_initiation-accepted d id p initiation now datagram rng rng' room index ephemeral bytes
        keys h1 h2 h3 h4 h5 h6 h7 h8 =
      rw
        (
          h1, h2, h3, h4, h5, h6, h7, h8, respond_to_initiation, named, peer_by_public_key,
          respond_to_peer, send_response,
        )
        refl

module _ (c : Primitives) where
  pub complete_handshake-finished :
      (d : Device) (id : PeerId) (p : Peer) (handshake : Handshake) (now : Instant)
      (datagram : List ℕ) (peer_index : ℕ) (keys : TransportKeys)
      → verify_response_mac1 c d.mac1_key datagram ≡ ok tt
      → position (awaits (get_u32 (range 8 4 datagram))) d.peers 0 ≡ some id
      → (Timers.take d.budget now).1 ≡ true
      → get_elem? d.peers id ≡ some p
      → p.pending ≡ some handshake
      → consume_response c handshake d.static_private p.preshared_key datagram
        ≡ ok (peer_index, keys)
      → complete_handshake c d datagram now
        ≡ (install c (spend d now) id p handshake peer_index keys now, ok id)
  unfolding complete_handshake finish_handshake pending_at
  complete_handshake-finished d id p handshake now datagram peer_index keys h1 h2 h3 h4 h5 h6 =
      rw (h1, h2, h3, h4, h5, h6, complete_handshake, pending_at, finish_handshake) refl

  pub not_stale :
      (p : Peer) (initiation : Initiation) (o : Option (List ℕ))
      → p.last_timestamp ≡ o
      → ((last : List ℕ)
          → p.last_timestamp ≡ some last
          → timestamp_is_newer initiation.timestamp last ≡ true)
      → is_stale p initiation ≡ false
  unfolding is_stale
  not_stale p initiation none e newer = rw (e, is_stale) refl
  not_stale p initiation (some last) e newer = rw (e, newer last e, is_stale) refl

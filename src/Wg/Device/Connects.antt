-- ===== src/Wg/Device/Connects.antt =====
-- Two devices of crates/wg-core/src/lib.rs connect: an initiation, its response, and the sessions
-- that either device is left with.
use tailfeather.Common.{ℕ, ◌^◌, ◌≡◌, ◌≢◌, ◌<◌, ◌≤◌, refl, sym, ap, ◌∙◌, arith, true, false}
use tailfeather.Common.{
  Option, none, some, List, length, get_elem?, set, ok, ◌==◌, get_elem?-set_ne,
}
use tailfeather.Wg.Crypto.{Key}
use tailfeather.Wg.Crypto.Handshake.{Primitives, IsPrimitives, timestamp_len}
use tailfeather.Wg.Noise.{Initiation, Handshake, mac1_key, initiation_len, timestamp_is_newer}
use tailfeather.Wg.Noise.Exchange.{initiation_of, handshake_of}
use tailfeather.Wg.Noise.Agreement.{initiation_understood, response_understood}
use tailfeather.Wg.Session.{Session, TransportKeys, new_session, confirm}
use tailfeather.Wg.Timers.{Instant, HandshakeBudget}
use tailfeather.Wg.Timers
use tailfeather.Wg.Device.{
  Peer, Device, PeerId, set_peer, clear_pending, position, new_device, peer_by_public_key,
}
use tailfeather.Wg.Device.Handshakes.{
  awaits, draw, start_handshake, respond_to_initiation, accept_initiation, complete_handshake,
  install,
}
use tailfeather.Wg.Device.Table.{get_elem?-set, position-only}
use tailfeather.Wg.Device.Steps.{
  spend, attempted, start_handshake-created, respond_to_initiation-accepted,
  complete_handshake-finished, not_stale,
}

-- The keys that a device keeps are those of its private key.
pub record IsKeyed (c : Primitives) (d : Device) : Type 0 where
  pub own_public : d.static_public ≡ c.public_of d.static_private
  pub own_mac1 : d.mac1_key ≡ mac1_key c d.static_public

module _ (c : Primitives) where
  -- A device's keys are its own from the start.
  pub new_device-IsKeyed : (bytes : List ℕ) → IsKeyed c (new_device c bytes)
  unfolding new_device
  new_device-IsKeyed bytes = record { own_public = refl; own_mac1 = refl }

-- The session with which a device sends to a peer.
abbrev pub current_of : Device → PeerId → Option Session
current_of d id = elim (get_elem? d.peers id) [ none ↦ none | some p ↦ p.current ]

module _ (c : Primitives) where
  current_of-install :
      (d : Device) (id : PeerId) (p p' : Peer) (handshake : Handshake) (index : ℕ)
      (keys : TransportKeys) (now : Instant)
      → get_elem? d.peers id ≡ some p
      → current_of (install c d id p' handshake index keys now) id
        ≡ some (confirm (new_session keys handshake.local_index index now))
  unfolding install
  current_of-install d id p p' handshake index keys now h =
      rw
        (
          get_elem?-set d.peers id p
              (record (clear_pending p') {
                previous = p'.current;
                current = some (confirm (new_session keys handshake.local_index index now));
                keepalive_armed_since = none;
              })
              h,
          current_of,
        )
        refl

  current_of-accept_initiation :
      (d : Device) (id : PeerId) (p p' : Peer) (initiation : Initiation) (index : ℕ)
      (keys : TransportKeys) (now : Instant)
      → get_elem? d.peers id ≡ some p
      → current_of (set_peer d id (accept_initiation c p' initiation index keys now)) id
        ≡ some (new_session keys index initiation.peer_index now)
  unfolding accept_initiation clear_pending
  current_of-accept_initiation d id p p' initiation index keys now h =
      rw
        (
          get_elem?-set d.peers id p (accept_initiation c p' initiation index keys now) h,
          current_of,
        )
        refl

is_itself : (a : ℕ) → (a == a) ≡ true
is_itself a = ground arith

-- The peer with the attempt is the one that awaits its answer.
position-attempted :
    (ps : List Peer) (id : PeerId) (p : Peer) (handshake : Handshake) (now : Instant)
    → get_elem? ps id ≡ some p
    → ((j : PeerId) (o : Peer)
        → get_elem? ps j ≡ some o
        → j ≢ id
        → awaits handshake.local_index o ≡ false)
    → position (awaits handshake.local_index) (set ps id (attempted p handshake now)) 0 ≡ some id
position-attempted ps id p handshake now h others =
    position-only (awaits handshake.local_index) (set ps id (attempted p handshake now)) 0 id
      (attempted p handshake now) (get_elem?-set ps id p (attempted p handshake now) h)
      (is_itself handshake.local_index)
      (λ j o at ne.
        others j o
          (sym (get_elem?-set_ne ps id j (attempted p handshake now) (λ e. ne (sym e))) ∙ at) ne)
    ∙ ap some (omega arith)

module _ (c : Primitives) {R : Type 0} (fill_bytes : R → ℕ → List ℕ × R) (fuel : ℕ) where
  -- Two devices connect. The near one has the far one's public key in its table, the far one finds the
  -- near one's, and their pre-shared keys are the same; both have tokens for the handshake, draw an
  -- index of 32 bits and a key, no other peer of the near one awaits that index, the room is that of an
  -- initiation, and the timestamp has twelve bytes and is newer than the last that the far one has from
  -- the near one, if any. Then the far one answers what `start_handshake` writes, `complete_handshake`
  -- takes the answer, and the near one is left with a confirmed session, the far one with one that is
  -- not: what one sends under the other receives under, and each has the other's index.
  pub handshake_connects :
      IsPrimitives c
      → (near far : Device) (id id' : PeerId) (p p' : Peer) (t0 t1 t2 : Instant)
        (timestamp : List ℕ) (rng rng1 rng' rng1' : R) (room index index' : ℕ)
        (ephemeral ephemeral' : Key)
      → IsKeyed c near
      → IsKeyed c far
      → get_elem? near.peers id ≡ some p
      → p.public ≡ far.static_public
      → peer_by_public_key far near.static_public ≡ some id'
      → get_elem? far.peers id' ≡ some p'
      → p'.preshared_key ≡ p.preshared_key
      → ((last : List ℕ) → p'.last_timestamp ≡ some last → timestamp_is_newer timestamp last ≡ true)
      → (Timers.take near.budget t0).1 ≡ true
      → (Timers.take far.budget t1).1 ≡ true
      → (Timers.take (Timers.take near.budget t0).0 t2).1 ≡ true
      → draw c fill_bytes fuel near.peers rng ≡ some (index, ephemeral, rng1)
      → draw c fill_bytes fuel far.peers rng' ≡ some (index', ephemeral', rng1')
      → ((j : PeerId) (o : Peer)
          → get_elem? near.peers j ≡ some o
          → j ≢ id
          → awaits index o ≡ false)
      → index < 2 ^ 32
      → index' < 2 ^ 32
      → length timestamp ≡ timestamp_len
      → initiation_len ≤ room
      → (first : List ℕ) × (second : List ℕ) × (a : Key) × (b : Key) × (near1 : Device)
        × (near2 : Device) × (far1 : Device) × (start_handshake c fill_bytes fuel near id t0
              timestamp rng room
            ≡ some (near1, rng1, ok first))
        × (respond_to_initiation c fill_bytes fuel far first t1 rng' room
            ≡ some (far1, rng1', ok (id', second)))
        × (complete_handshake c near1 second t2 ≡ (near2, ok id))
        × (current_of near2 id
            ≡ some (
                confirm
                  (new_session (record { sending_key = a; receiving_key = b }) index index' t2)))
        × (current_of far1 id'
            ≡ some (new_session (record { sending_key = b; receiving_key = a }) index' index t1))
  handshake_connects law near far id id' p p' t0 t1 t2 timestamp rng rng1 rng' rng1' room index
        index' ephemeral ephemeral' keyed keyed' at_id public at_id' at' psk newer g0 g1 g2 drawn
        drawn' others h1 h2 h3 h4 =
      let (first, ladder, created, checked, consumed) =
        initiation_understood c law near.static_private far.static_private ephemeral index room
          timestamp h1 h3 h4 in
      let (second, a, b, answered, verified, addressed, finished) =
        response_understood c law near.static_private ephemeral ephemeral' p.preshared_key index
          index' room timestamp ladder h1 h2 (omega (arith, h4)) in
      let handshake = handshake_of c ephemeral ladder index in
      let initiation = initiation_of c near.static_private ephemeral index timestamp ladder in
      let near1 = set_peer (spend near t0) id (attempted p handshake t0) in
      (
        first,
        second,
        a,
        b,
        near1,
        install c (spend near1 t2) id (attempted p handshake t0) handshake index'
            (record { sending_key = a; receiving_key = b }) t2,
        set_peer (spend far t1) id' (
            accept_initiation c p' initiation index' (record { sending_key = b; receiving_key = a })
              t1),
        start_handshake-created c fill_bytes fuel near id p t0 timestamp rng rng1 room index
            ephemeral first handshake at_id g0 drawn
            (rw (keyed.own_public, public, keyed'.own_public) created),
        respond_to_initiation-accepted c fill_bytes fuel far id' p' initiation t1 first rng' rng1'
            room index' ephemeral' second (record { sending_key = b; receiving_key = a })
            (rw (keyed'.own_mac1, keyed'.own_public) checked) g1
            (rw (keyed'.own_mac1, keyed'.own_public) consumed) (rw (← keyed.own_public) at_id') at'
            (not_stale c p' initiation p'.last_timestamp refl newer) drawn' (rw psk answered),
        complete_handshake-finished c near1 id (attempted p handshake t0) handshake t2 second index'
            (record { sending_key = a; receiving_key = b })
            (rw (keyed.own_mac1, keyed.own_public) verified)
            (rw addressed (position-attempted near.peers id p handshake t0 at_id others)) g2
            (get_elem?-set near.peers id p (attempted p handshake t0) at_id) refl finished,
        current_of-install c (spend near1 t2) id (attempted p handshake t0)
            (attempted p handshake t0) handshake index'
            (record { sending_key = a; receiving_key = b }) t2
            (get_elem?-set near.peers id p (attempted p handshake t0) at_id),
        current_of-accept_initiation c (spend far t1) id' p' p' initiation index'
            (record { sending_key = b; receiving_key = a }) t1 at',
      )

-- ===== src/Wg/Device/Replayed.antt =====
-- An initiation of crates/wg-core/src/noise.rs that a device has accepted, when it arrives again.
use tailfeather.Common.{ℕ, zero, suc, ◌+◌, ◌≡◌, refl, ap, arith, Bool, false, ◌⊎◌, inl, inr}
use tailfeather.Common.{none, some, List, [], ◌∷◌, get_elem?, set, ok, err, bytes_eq, Bool-cases}
use tailfeather.Wg.Error.{Error, stale_timestamp, rate_limited, unknown_peer}
use tailfeather.Wg.Crypto.Handshake.{Primitives}
use tailfeather.Wg.Noise.{
  Initiation, consume_initiation, create_response, verify_initiation_mac1, timestamp_is_newer,
}
use tailfeather.Wg.Session.{TransportKeys}
use tailfeather.Wg.Timers.{Instant}
use tailfeather.Wg.Timers
use tailfeather.Wg.Device.{Peer, Device, PeerId, set_peer, position, clear_pending}
use tailfeather.Wg.Device.Handshakes.{
  draw, respond_to_initiation, respond_to_peer, named, send_response, is_stale, accept_initiation,
}
use tailfeather.Wg.Device.Table.{get_elem?-set}
use tailfeather.Wg.Device.Steps.{spend}
use tailfeather.Wg.Device.Named.{named-addressed}
use tailfeather.Wg.Device.Gives.{
  Gives, Gives-result, Gives-option, Gives-bool, Gives-unless, Gives-drawn, Gives-sent, Gives-at,
}

timestamp_is_newer_irrefl : (t : List ℕ) → timestamp_is_newer t t ≡ false
unfolding timestamp_is_newer
timestamp_is_newer_irrefl [] = refl
timestamp_is_newer_irrefl (a ∷ t) = ground (arith, timestamp_is_newer_irrefl t)

position-set :
    (test : Peer → Bool) (ps : List Peer) (i k : ℕ) (p p' : Peer)
    → get_elem? ps k ≡ some p
    → test p' ≡ test p
    → position test (set ps k p') i ≡ position test ps i
unfolding position
position-set test [] i k p p' h same = refl
position-set test (q ∷ ps) i zero p p' h same =
    let head = ap (λ o. elim o [ none ↦ q | some x ↦ x ]) h in rw (same, ← head) refl
position-set test (q ∷ ps) i (suc k) p p' h same =
    rw (position-set test ps (i + 1) k p p' h same) refl

-- What a device has done when it answers an initiation.
record Answered (c : Primitives) (d : Device) (datagram : List ℕ) (now : Instant) (d' : Device)
    (w : PeerId × List ℕ) : Type 0 where
  initiation : Initiation
  peer : Peer
  index : ℕ
  keys : TransportKeys
  verified : verify_initiation_mac1 c d.mac1_key datagram ≡ ok tt
  consumed :
      consume_initiation c d.static_private d.static_public d.mac1_key datagram ≡ ok initiation
  addressed : named d initiation ≡ some (w.0, peer)
  left : d' ≡ set_peer (spend d now) w.0 (accept_initiation c peer initiation index keys now)

module _ (c : Primitives) {R : Type 0} (fill_bytes : R → ℕ → List ℕ × R) (fuel : ℕ) where
  respond_to_peer-Gives :
      (P : Device → PeerId × List ℕ → Type 0) (d : Device) (id : PeerId) (p : Peer)
      (initiation : Initiation) (now : Instant) (rng : R) (room : ℕ)
      → ((index : ℕ) (keys : TransportKeys) (bytes : List ℕ)
          → P (set_peer d id (accept_initiation c p initiation index keys now)) (id, bytes))
      → Gives P (respond_to_peer c fill_bytes fuel d id p initiation now rng room)
  unfolding respond_to_peer send_response
  respond_to_peer-Gives P d id p initiation now rng room next =
      Gives-unless P d rng stale_timestamp (is_stale p initiation) _ (
        Gives-drawn P (draw c fill_bytes fuel d.peers rng) _ (λ w.
          Gives-sent P d w.2 (create_response c initiation p.preshared_key w.0 w.1 room)
            (λ x. (set_peer d id (accept_initiation c p initiation w.0 x.1 now), (id, x.0)))
            (λ x. next w.0 x.1 x.0)))

  respond_to_initiation-Gives :
      (d : Device) (datagram : List ℕ) (now : Instant) (rng : R) (room : ℕ)
      → Gives
          (Answered c d datagram now)
          (respond_to_initiation c fill_bytes fuel d datagram now rng room)
  unfolding respond_to_initiation
  respond_to_initiation-Gives d datagram now rng room =
      Gives-result (Answered c d datagram now) d rng (verify_initiation_mac1 c d.mac1_key datagram)
        _
        (λ u verified.
          Gives-bool (Answered c d datagram now) (spend d now) rng rate_limited
            (Timers.take d.budget now).1 _
            (Gives-result (Answered c d datagram now) (spend d now) rng
              (consume_initiation c d.static_private d.static_public d.mac1_key datagram) _
              (λ initiation consumed.
                Gives-option (Answered c d datagram now) (spend d now) rng unknown_peer
                  (named (spend d now) initiation) _
                  (λ found addressed.
                    respond_to_peer-Gives (Answered c d datagram now) (spend d now) found.0 found.1
                      initiation now rng room
                      (λ index keys bytes. record {
                        initiation = initiation;
                        peer = found.1;
                        index = index;
                        keys = keys;
                        verified = verified;
                        consumed = consumed;
                        addressed = addressed;
                        left = refl;
                      })))))

  -- Where the device that answered is asked again, it refuses.
  refused_again :
      (d : Device) (datagram : List ℕ) (rng : R) (room : ℕ) (now : Instant)
      (initiation : Initiation) (id : PeerId) (p : Peer)
      → verify_initiation_mac1 c d.mac1_key datagram ≡ ok tt
      → consume_initiation c d.static_private d.static_public d.mac1_key datagram ≡ ok initiation
      → named d initiation ≡ some (id, p)
      → p.last_timestamp ≡ some initiation.timestamp
      → (d' : Device) × (e : Error) × (respond_to_initiation c fill_bytes fuel d datagram now rng
            room
          ≡ some (d', rng, err e))
        × (d'.peers ≡ d.peers)
        × ((e ≡ stale_timestamp) ⊎ (e ≡ rate_limited))
  unfolding respond_to_initiation respond_to_peer is_stale
  refused_again d datagram rng room now initiation id p h1 h2 h3 h4 =
      elim (Bool-cases (Timers.take d.budget now).1) [
        | inl granted ↦ (
          spend d now,
          stale_timestamp,
          rw
              (
                h1,
                granted,
                h2,
                h3,
                h4,
                timestamp_is_newer_irrefl initiation.timestamp,
                respond_to_initiation,
                respond_to_peer,
                is_stale,
              )
              refl,
          refl,
          inl refl,
        )
        | inr refused ↦ (
          spend d now,
          rate_limited,
          rw (h1, refused, respond_to_initiation) refl,
          refl,
          inr refl,
        )
      ]

  -- It is found again by the same key, with the timestamp that it was accepted with.
  named-accepted :
      (d : Device) (id : PeerId) (p : Peer) (initiation : Initiation) (index : ℕ)
      (keys : TransportKeys) (now : Instant)
      → position (λ o. bytes_eq o.public initiation.peer_static) d.peers 0 ≡ some id
      → get_elem? d.peers id ≡ some p
      → named
          (set_peer (spend d now) id (accept_initiation c p initiation index keys now))
          initiation
        ≡ some (id, accept_initiation c p initiation index keys now)
  unfolding named accept_initiation clear_pending
  named-accepted d id p initiation index keys now h1 h2 =
      let p' = accept_initiation c p initiation index keys now in
      rw
        (
          position-set (λ o. bytes_eq o.public initiation.peer_static) d.peers 0 id p p' h2 refl,
          h1,
          get_elem?-set d.peers id p p' h2,
          named,
        )
        refl

  accepted_timestamp :
      (p : Peer) (initiation : Initiation) (index : ℕ) (keys : TransportKeys) (now : Instant)
      → (accept_initiation c p initiation index keys now).last_timestamp ≡ some initiation.timestamp
  unfolding accept_initiation clear_pending
  accepted_timestamp p initiation index keys now = refl

  -- Where a device has answered an initiation with a response, the same datagram, brought to the device
  -- as the answer left it, at any time and with whatever room and generator, is refused as stale or for
  -- the rate limit. The generator is not used, and the table of peers stays as it is.
  pub replayed_initiation_refused :
      (d d' : Device) (datagram bytes : List ℕ) (now now' : Instant) (rng rng1 rng' : R)
      (room room' : ℕ) (id : PeerId)
      → respond_to_initiation c fill_bytes fuel d datagram now rng room
        ≡ some (d', rng1, ok (id, bytes))
      → (d'' : Device) × (e : Error) × (respond_to_initiation c fill_bytes fuel d' datagram now'
            rng' room'
          ≡ some (d'', rng', err e))
        × (d''.peers ≡ d'.peers)
        × ((e ≡ stale_timestamp) ⊎ (e ≡ rate_limited))
  replayed_initiation_refused d d' datagram bytes now now' rng rng1 rng' room room' id h =
      let done =
        Gives-at (Answered c d datagram now)
          (respond_to_initiation c fill_bytes fuel d datagram now rng room) d' rng1 (id, bytes)
          (respond_to_initiation-Gives d datagram now rng room) h in
      let p' = accept_initiation c done.peer done.initiation done.index done.keys now in
      let (at_id, entry) = named-addressed d done.initiation id done.peer done.addressed in
      rw done.left (
        refused_again (set_peer (spend d now) id p') datagram rng' room' now' done.initiation id p'
          done.verified done.consumed
          (named-accepted d id done.peer done.initiation done.index done.keys now at_id entry)
          (accepted_timestamp done.peer done.initiation done.index done.keys now))

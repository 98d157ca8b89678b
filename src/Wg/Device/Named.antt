-- ===== src/Wg/Device/Named.antt =====
-- The peer that an initiation names, in crates/wg-core/src/lib.rs.
use tailfeather.Common.{◌≡◌, ap, Option, none, some, List, get_elem?, bytes_eq}
use tailfeather.Wg.Noise.{Initiation}
use tailfeather.Wg.Device.{Peer, Device, PeerId, position}
use tailfeather.Wg.Device.Handshakes.{named}

named_at :
    (k id : PeerId) (p : Peer) (o : Option Peer)
    → (let entry : Option (PeerId × Peer) = elim o [ none ↦ none | some x ↦ some (k, x) ] in
        entry ≡ some (id, p))
    → (k ≡ id) × (o ≡ some p)
named_at k id p none h = cc
named_at k id p (some x) h =
    let same = ap {B = PeerId × Peer} (λ o. elim o [ none ↦ (k, x) | some w ↦ w ]) h in
    (ap (λ w. w.0) same, ap (λ w. some w.1) same)

named_found :
    (ps : List Peer) (id : PeerId) (p : Peer) (o : Option PeerId)
    → (let entry : Option (PeerId × Peer) = elim o [
      | none ↦ none
      | some k ↦ elim (get_elem? ps k) [ none ↦ none | some x ↦ some (k, x) ]
    ] in
        entry ≡ some (id, p))
    → (o ≡ some id) × (get_elem? ps id ≡ some p)
named_found ps id p none h = cc
named_found ps id p (some k) h =
    let (same, at_k) = named_at k id p (get_elem? ps k) h in (ap some same, rw (← same) at_k)

-- The peer that an initiation names is found by its public key.
pub named-addressed :
    (d : Device) (initiation : Initiation) (id : PeerId) (p : Peer)
    → named d initiation ≡ some (id, p)
    → (position (λ o. bytes_eq o.public initiation.peer_static) d.peers 0 ≡ some id)
      × (get_elem? d.peers id ≡ some p)
unfolding named
named-addressed d initiation id p h =
    named_found d.peers id p (position (λ o. bytes_eq o.public initiation.peer_static) d.peers 0) h

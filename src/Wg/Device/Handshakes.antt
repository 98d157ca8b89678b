-- ===== src/Wg/Device/Handshakes.antt =====
-- crates/wg-core/src/lib.rs: both roles of the handshake in a device. A function that writes a
-- message takes the room in the caller's buffer and gives the bytes it writes. The generator (the
-- trait `Rng`) is a parameter, its state passed along; the loop that picks a session index runs on
-- fuel, and `none` says that it has run out.
use tailfeather.Common.{
  ℕ, zero, suc, ◌==◌, Bool, true, false, not, ◌||◌, if◌then◌else◌, Option, none, some,
}
use tailfeather.Common.{List, [], ◌∷◌, get_elem?, bytes_eq, Result, ok, err}
use tailfeather.Common.Bytes.{from_le_bytes}
use tailfeather.Wg.Error.{Error, unknown_peer, rate_limited, unknown_session, stale_timestamp}
use tailfeather.Wg.Crypto.{Key}
use tailfeather.Wg.Crypto.Handshake.{Primitives}
use tailfeather.Wg.Messages.{get_u32}
use tailfeather.Wg.Noise.{
  Handshake, Initiation, range, create_initiation, consume_initiation, create_response,
  consume_response, verify_initiation_mac1, verify_response_mac1, timestamp_is_newer,
}
use tailfeather.Wg.Session.{Session, TransportKeys, new_session, confirm}
use tailfeather.Wg.Timers.{Instant}
use tailfeather.Wg.Timers
use tailfeather.Wg.Device.{Peer, Device, PeerId, clear_pending, set_peer, position}

-- `get_or_insert`.
abbrev pub or_insert : Option Instant → Instant → Option Instant
or_insert none now = some now
or_insert (some since) now = some since

abbrev pub has_index : Option Session → ℕ → Bool
has_index none index = false
has_index (some s) index = s.local_index == index

-- Whether a session, current or previous, has this index.
unfoldable pub is_taken : List Peer → ℕ → Bool
is_taken [] candidate = false
is_taken (p ∷ ps) candidate =
    (has_index p.current candidate || has_index p.previous candidate) || is_taken ps candidate

-- The test of `complete_handshake`.
abbrev pub awaits : ℕ → Peer → Bool
awaits receiver p = elim p.pending [ none ↦ false | some h ↦ h.local_index == receiver ]

-- Whether an initiation is a replay: the `if let Some(last)` of `respond_to_initiation`.
unfoldable pub is_stale : Peer → Initiation → Bool
unfolding timestamp_is_newer
is_stale p initiation = elim p.last_timestamp [
  | none ↦ false
  | some last ↦ not (timestamp_is_newer initiation.timestamp last)
]

-- The peer that an initiation names, and its index.
unfoldable pub named : Device → Initiation → Option (PeerId × Peer)
unfolding position
named d initiation = elim (position (λ p. bytes_eq p.public initiation.peer_static) d.peers 0) [
  | none ↦ none
  | some id ↦ elim (get_elem? d.peers id) [ none ↦ none | some p ↦ some (id, p) ]
]

module _ {R : Type 0} (fill_bytes : R → ℕ → List ℕ × R) where
  unfoldable pub allocate_index : ℕ → List Peer → R → Option (ℕ × R)
  unfolding is_taken
  allocate_index zero peers rng = none
  allocate_index (suc fuel) peers rng =
      let (bytes, rng') = fill_bytes rng 4 in
      let candidate = from_le_bytes bytes in
      let again = allocate_index fuel peers rng' in
      if is_taken peers candidate then again else some (candidate, rng')

  unfoldable pub random_secret : Primitives → R → Key × R
  random_secret c rng = let (bytes, rng') = fill_bytes rng 32 in (c.secret_from bytes, rng')

module _ (c : Primitives) where
  -- `start_handshake` once the index and the key have been drawn.
  unfoldable pub send_initiation :
      Device → PeerId → Peer → Instant → List ℕ → ℕ → Key → ℕ → Device × Result Error (List ℕ)
  unfolding create_initiation
  send_initiation d id p now timestamp local_index ephemeral room =
      elim (create_initiation c d.static_private d.static_public p.public local_index ephemeral
        timestamp room) [
          | err e ↦ (d, err e)
          | ok w ↦ (
            set_peer d id (record p {
              pending = some w.1;
              pending_since = or_insert p.pending_since now;
              pending_last_sent = some now;
            }),
            ok w.0,
          )
        ]

  -- `complete_handshake` with the response's peer and handshake found, its keys derived.
  unfoldable pub install : Device → PeerId → Peer → Handshake → ℕ → TransportKeys → Instant → Device
  unfolding clear_pending new_session confirm
  install d id p handshake peer_index keys now = set_peer d id (record (clear_pending p) {
    previous = p.current;
    current = some (confirm (new_session keys handshake.local_index peer_index now));
    keepalive_armed_since = none;
  })

  -- `complete_handshake` once the peer has been found by its pending handshake.
  unfoldable pub finish_handshake :
      Device → PeerId → Peer → Handshake → List ℕ → Instant → Device × Result Error PeerId
  unfolding install consume_response
  finish_handshake d id p handshake datagram now =
      elim (consume_response c handshake d.static_private p.preshared_key datagram) [
        | err e ↦ (d, err e)
        | ok w ↦ (install d id p handshake w.0 w.1 now, ok id)
      ]

  -- The peer at an index that `position` gave, and its pending handshake, which it has.
  unfoldable pub pending_at : Device → PeerId → Option (Peer × Handshake)
  pending_at d id = elim (get_elem? d.peers id) [
    | none ↦ none
    | some p ↦ elim p.pending [ none ↦ none | some h ↦ some (p, h) ]
  ]

  unfoldable pub complete_handshake : Device → List ℕ → Instant → Device × Result Error PeerId
  unfolding verify_response_mac1 position pending_at finish_handshake
  complete_handshake d datagram now = elim (verify_response_mac1 c d.mac1_key datagram) [
    | err e ↦ (d, err e)
    | ok u ↦ elim (position (awaits (get_u32 (range 8 4 datagram))) d.peers 0) [
      | none ↦ (d, err unknown_session)
      | some id ↦
          let (budget, granted) = Timers.take d.budget now in
          let d' = record d { budget = budget } in
          elim granted [
            | false ↦ (d', err rate_limited)
            | true ↦ elim (pending_at d' id) [
              | none ↦ (d', err unknown_session)
              | some found ↦ finish_handshake d' id found.0 found.1 datagram now
            ]
          ]
    ]
  ]

  -- What an accepted initiation leaves of a peer.
  unfoldable pub accept_initiation : Peer → Initiation → ℕ → TransportKeys → Instant → Peer
  unfolding clear_pending new_session
  accept_initiation p initiation local_index keys now = clear_pending (record p {
    last_timestamp = some initiation.timestamp;
    previous = p.current;
    current = some (new_session keys local_index initiation.peer_index now);
    keepalive_armed_since = none;
  })

  -- `respond_to_initiation` once the index and the key have been drawn.
  unfoldable pub send_response :
      Device
      → PeerId
      → Peer
      → Initiation
      → Instant
      → ℕ
      → Key
      → ℕ
      → Device × Result Error (PeerId × List ℕ)
  unfolding create_response accept_initiation
  send_response d id p initiation now local_index ephemeral room =
      elim (create_response c initiation p.preshared_key local_index ephemeral room) [
        | err e ↦ (d, err e)
        | ok w ↦ (set_peer d id (accept_initiation p initiation local_index w.1 now), ok (id, w.0))
      ]

module _ (c : Primitives) {R : Type 0} (fill_bytes : R → ℕ → List ℕ × R) (fuel : ℕ) where
  -- What is drawn for a handshake: an index, then a key.
  unfoldable pub draw : List Peer → R → Option (ℕ × Key × R)
  unfolding allocate_index random_secret
  draw peers rng = elim (allocate_index fill_bytes fuel peers rng) [
    | none ↦ none
    | some w ↦ let (ephemeral, rng') = random_secret fill_bytes c w.1 in some (w.0, ephemeral, rng')
  ]

  unfoldable pub start_handshake :
      Device → PeerId → Instant → List ℕ → R → ℕ → Option (Device × R × Result Error (List ℕ))
  unfolding draw send_initiation
  start_handshake d id now timestamp rng room = elim (get_elem? d.peers id) [
    | none ↦ some (d, rng, err unknown_peer)
    | some p ↦
        let (budget, granted) = Timers.take d.budget now in
        let d' = record d { budget = budget } in
        elim granted [
          | false ↦ some (d', rng, err rate_limited)
          | true ↦ elim (draw d'.peers rng) [
            | none ↦ none
            | some w ↦
                let (d'', sent) = send_initiation c d' id p now timestamp w.0 w.1 room in
                some (d'', w.2, sent)
          ]
        ]
  ]

  -- `respond_to_initiation` for the peer that the initiation names.
  unfoldable pub respond_to_peer :
      Device
      → PeerId
      → Peer
      → Initiation
      → Instant
      → R
      → ℕ
      → Option (Device × R × Result Error (PeerId × List ℕ))
  unfolding is_stale draw send_response
  respond_to_peer d id p initiation now rng room = elim (is_stale p initiation) [
    | true ↦ some (d, rng, err stale_timestamp)
    | false ↦ elim (draw d.peers rng) [
      | none ↦ none
      | some w ↦
          let (d', sent) = send_response c d id p initiation now w.0 w.1 room in
          some (d', w.2, sent)
    ]
  ]

  unfoldable pub respond_to_initiation :
      Device → List ℕ → Instant → R → ℕ → Option (Device × R × Result Error (PeerId × List ℕ))
  unfolding verify_initiation_mac1 consume_initiation named respond_to_peer
  respond_to_initiation d datagram now rng room =
      elim (verify_initiation_mac1 c d.mac1_key datagram) [
        | err e ↦ some (d, rng, err e)
        | ok u ↦
            let (budget, granted) = Timers.take d.budget now in
            let d' = record d { budget = budget } in
            elim granted [
              | false ↦ some (d', rng, err rate_limited)
              | true ↦
                  elim (consume_initiation c d'.static_private d'.static_public d'.mac1_key
                    datagram) [
                      | err e ↦ some (d', rng, err e)
                      | ok initiation ↦ elim (named d' initiation) [
                        | none ↦ some (d', rng, err unknown_peer)
                        | some found ↦ respond_to_peer d' found.0 found.1 initiation now rng room
                      ]
                    ]
            ]
      ]

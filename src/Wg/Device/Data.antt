-- ===== src/Wg/Device/Data.antt =====
-- crates/wg-core/src/lib.rs: data in a device, `open_data` and `encapsulate`. The caller's buffer is
-- passed along; a packet for the caller is its first bytes.
use tailfeather.Common.{
  ℕ, ◌+◌, ltb, ◌==◌, Bool, true, false, not, if◌then◌else◌, Option, none, some,
}
use tailfeather.Common.{List, [], ◌∷◌, length, take, get_elem?, Result, ok, err}
use tailfeather.Wg.Error.{Error, malformed, unknown_peer, unknown_session, no_session, unconfirmed}
use tailfeather.Wg.Crypto.{Aead}
use tailfeather.Wg.Ip.{packet_len}
use tailfeather.Wg.Messages.{header_len, receiver_bytes, get_u32}
use tailfeather.Wg.Session.{Session, seal, open_message, confirm}
use tailfeather.Wg.Timers.{Instant}
use tailfeather.Wg.Device.{Peer, Device, PeerId, Action, send, expire_sessions, set_peer}
use tailfeather.Wg.Device.Handshakes.{has_index, or_insert}

-- What `open_data` reports: `none` is a keepalive, else the peer and the length of the packet.
abbrev pub Opened : Type 0
Opened = Result Error (Option (PeerId × ℕ))

-- The session that the message belongs to, and whether it is the previous one.
unfoldable pub owner : Peer → ℕ → Option (Session × Bool)
owner p receiver =
    if has_index p.current receiver
    then elim p.current [ none ↦ none | some s ↦ some (s, false) ]
    else if has_index p.previous receiver
    then elim p.previous [ none ↦ none | some s ↦ some (s, true) ]
    else none

-- The peer with that session as it is now.
abbrev pub put_back : Peer → Bool → Session → Peer
put_back p is_previous s =
    if is_previous then record p { previous = some s } else record p { current = some s }

-- A message has opened: the session is confirmed, and the previous one takes the current one's place.
unfoldable pub promote : Peer → Bool → Session → Peer
unfolding confirm
promote p is_previous s =
    if is_previous
    then record p { current = some (confirm s); previous = none }
    else record p { current = some (confirm s) }

-- What `open_data` makes of the plaintext.
unfoldable pub deliver : PeerId → Peer → ℕ → List ℕ → Instant → Peer × Opened
deliver index p plaintext_len out now =
    if plaintext_len == 0 then (p, ok none) else elim (packet_len (take plaintext_len out)) [
      | none ↦ (p, err malformed)
      | some len ↦ (
        record p { keepalive_armed_since = or_insert p.keepalive_armed_since now },
        ok (some (index, len)),
      )
    ]

-- What `open_data` does with what `session.open(..)` gives: the session, the buffer and the outcome.
unfoldable pub after_open :
    PeerId → Peer → Bool → Instant → Session × List ℕ × Result Error ℕ → Peer × List ℕ × Opened
unfolding promote deliver
after_open index p is_previous now (s, out, err e) = (put_back p is_previous s, out, err e)
after_open index p is_previous now (s, out, ok plaintext_len) =
    let (p', opened) = deliver index (promote p is_previous s) plaintext_len out now in
    (p', out, opened)

module _ (c : Aead) where
  -- The message for this session of the peer.
  unfoldable pub open_by :
      PeerId → Peer → Session → Bool → List ℕ → Instant → List ℕ → Peer × List ℕ × Opened
  open_by index p s is_previous datagram now out =
      after_open index p is_previous now (open_message c s datagram out)

  -- The loop of `open_data` from the peer `index` on. Only the peers it visits retire sessions.
  unfoldable pub open_from :
      ℕ → PeerId → List Peer → List ℕ → Instant → List ℕ → List Peer × List ℕ × Opened
  open_from receiver index [] datagram now out = ([], out, err unknown_session)
  open_from receiver index (p ∷ ps) datagram now out =
      let p' = expire_sessions p now in
      let (ps', out', opened) = open_from receiver (index + 1) ps datagram now out in
      elim (owner p' receiver) [
        | none ↦ (p' ∷ ps', out', opened)
        | some found ↦
            let (p'', out'', result) = open_by index p' found.0 found.1 datagram now out in
            (p'' ∷ ps, out'', result)
      ]

  unfoldable pub open_data : Device → List ℕ → Instant → List ℕ → Device × List ℕ × Opened
  open_data d datagram now out =
      if ltb (length datagram) header_len
      then (d, out, err malformed)
      else let (peers, out', opened) =
          open_from (get_u32 (receiver_bytes datagram)) 0 d.peers datagram now out in
        (record d { peers = peers }, out', opened)

  -- A sealed message for the peer: `session.seal(..)?` and what follows it.
  unfoldable pub seal_for :
      Device → PeerId → Peer → Session → List ℕ → List ℕ → Device × List ℕ × Result Error Action
  seal_for d id p s packet out =
      let (s', out', sealed) = seal c s packet out in
      elim sealed [
        | err e ↦ (set_peer d id (record p { current = some s' }), out', err e)
        | ok len ↦ (
          set_peer d id (record p { current = some s'; keepalive_armed_since = none }),
          out',
          ok (send id (take len out')),
        )
      ]

  unfoldable pub encapsulate :
      Device → PeerId → List ℕ → Instant → List ℕ → Device × List ℕ × Result Error Action
  encapsulate d id packet now out = elim (get_elem? d.peers id) [
    | none ↦ (d, out, err unknown_peer)
    | some p ↦
        let p' = expire_sessions p now in
        elim p'.current [
          | none ↦ (set_peer d id p', out, err no_session)
          | some s ↦
              if not s.confirmed
              then (set_peer d id p', out, err unconfirmed)
              else seal_for d id p' s packet out
        ]
  ]

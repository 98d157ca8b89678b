-- ===== src/Wg/Device/Delivers.antt =====
-- A packet of crates/wg-core/src/lib.rs between two devices with sessions that mirror each other:
-- what one encapsulates the other delivers.
use tailfeather.Common.{
  ℕ, ◌+◌, ◌-◌, ◌^◌, ◌≡◌, ◌≢◌, ◌<◌, ◌≤◌, refl, sym, ap, ◌∙◌, arith, true, false,
}
use tailfeather.Common.{none, some, List, ◌++◌, length, take, drop, replicate}
use tailfeather.Common.{get_elem?, ok, ap₂, append_assoc, take_front, take-append}
use tailfeather.Wg.Crypto.Handshake.{Primitives, IsPrimitives}
use tailfeather.Wg.Ip.{packet_len}
use tailfeather.Wg.Messages.{header_len, receiver_bytes, get_u32}
use tailfeather.Wg.Replay.{accept}
use tailfeather.Wg.Session.{Session, message, padded, padded_len, total_len, is_usable, confirm}
use tailfeather.Wg.Session.RoundTrip.{length-padded, length-message, unpad-padded}
use tailfeather.Wg.Timers.{Instant, reject_after_messages}
use tailfeather.Wg.Device.{Peer, Device, PeerId, send, receive, expire_sessions, is_connected}
use tailfeather.Wg.Device.Data.{Opened, owner, open_by, open_from, open_data, encapsulate}
use tailfeather.Wg.Device.Udp.{delivered, handle_data}
use tailfeather.Wg.Device.Opens.{
  not_ltb, usable-below, owner-current, packet_len-nonempty, padded_len-nonzero, seal-writes,
  open-reads, receiver-message, open_from-finds, open_by-delivers, seal_for-seals,
  encapsulate-seals,
}

-- The plaintext of a message, in the buffer it was opened into.
opened_packet :
    (packet rest : List ℕ)
    → packet_len packet ≡ some (length packet)
    → (packet_len (take (padded_len packet) (padded packet ++ rest)) ≡ some (length packet))
      × (take (length packet) (padded packet ++ rest) ≡ packet)
opened_packet packet rest h = (
  ap packet_len (take_front (padded_len packet) (padded packet) rest (length-padded packet))
      ∙ (unpad-padded packet h).0,
  ap (take (length packet))
        (append_assoc packet (replicate (padded_len packet - length packet) 0) rest)
      ∙ take-append packet (replicate (padded_len packet - length packet) 0 ++ rest),
)

connected-at :
    (d : Device) (id : PeerId) (p : Peer) (s : Session) (now : Instant)
    → get_elem? d.peers id ≡ some p
    → p.current ≡ some s
    → is_usable s now ≡ true
    → s.confirmed ≡ true
    → is_connected d id now ≡ true
unfolding is_connected
connected-at d id p s now h1 h2 h3 h4 = rw (h1, h2, h3, h4, is_connected) refl

module _ (c : Primitives) where
  handle_data-finds :
      (d : Device) (datagram : List ℕ) (now : Instant) (out out' : List ℕ) (receiver : ℕ)
      (opened : Opened)
      → header_len ≤ length datagram
      → get_u32 (receiver_bytes datagram) ≡ receiver
      → let found = open_from c.aead receiver 0 d.peers datagram now out in
        found.1 ≡ out'
        → found.2 ≡ opened
        → let got = handle_data c d datagram now out in
          (got.2 ≡ delivered out' opened) × (got.0 ≡ record d { peers = found.0 })
  unfolding handle_data open_data
  handle_data-finds d datagram now out out' receiver opened h1 h2 h3 h4 =
      rw (not_ltb (length datagram) header_len h1, h2) (ap₂ delivered h3 h4, refl)

  message_handled :
      IsPrimitives c
      → (far : Device) (id : PeerId) (p : Peer) (s t : Session) (packet : List ℕ) (now : Instant)
        (inbox : List ℕ)
      → get_elem? far.peers id ≡ some p
      → p.current ≡ some t
      → is_usable t now ≡ true
      → t.receiving ≡ s.sending
      → t.local_index ≡ s.peer_index
      → s.peer_index < 2 ^ 32
      → s.send_counter < reject_after_messages
      → (accept t.replays s.send_counter).1 ≡ true
      → ((j : PeerId) (o : Peer)
          → get_elem? far.peers j ≡ some o
          → j ≢ id
          → owner (expire_sessions o now) s.peer_index ≡ none)
      → packet_len packet ≡ some (length packet)
      → padded_len packet ≤ length inbox
      → let got = handle_data c far (message c.aead s packet) now inbox in
        (got.2 ≡ ok (receive id packet)) × (is_connected got.0 id now ≡ true)
  unfolding delivered is_usable confirm
  message_handled law far id p s t packet now inbox g1 g2 g3 keys index small below fresh others
        whole room =
      let datagram = message c.aead s packet in
      let rest = drop (padded_len packet) inbox in
      let t' = record t { replays = (accept t.replays s.send_counter).0 } in
      let opens =
        open_by-delivers c.aead id (expire_sessions p now) t t' datagram now inbox
          (padded packet ++ rest) (padded_len packet) (length packet)
          (open-reads c.aead law.is_aead s t packet inbox below keys room fresh)
          (padded_len-nonzero packet (packet_len-nonempty packet _ whole))
          (opened_packet packet rest whole).0 in
      let (same_out, same_opened, at_id) =
        open_from-finds c.aead s.peer_index 0 id far.peers datagram now inbox
          (padded packet ++ rest) p _ t false (ok (some (id, length packet))) g1
          (owner-current p t s.peer_index now g2 g3 index) others
          (ap (λ n. open_by c.aead n (expire_sessions p now) t false datagram now inbox)
              {x = 0 + id} {y = id} (omega arith)
            ∙ opens) in
      let (got, peers) =
        handle_data-finds far datagram now inbox (padded packet ++ rest) s.peer_index
          (ok (some (id, length packet)))
          (omega (arith, length-message c.aead law.is_aead s packet))
          (receiver-message c.aead s packet small) same_out same_opened in
      (
        got ∙ ap (λ l. ok (receive id l)) (opened_packet packet rest whole).1,
        rw peers (connected-at _ id _ (confirm t') now at_id refl g3 refl),
      )

  -- A device encapsulates a packet under a session that is confirmed and in use, and the device at the
  -- other end has the mirrored session in use, with the index that the sender knows it by and a replay
  -- window that takes the sender's counter, and no other peer with a session of that index. Then the
  -- datagram is delivered as that packet, from that peer, and the receiver counts the peer as connected.
  -- The packet is as long as its IP header says, and both buffers are long enough.
  pub data_delivered :
      IsPrimitives c
      → (near far : Device) (id id' : PeerId) (p p' : Peer) (s t : Session) (packet : List ℕ)
        (now now' : Instant) (out inbox : List ℕ)
      → get_elem? near.peers id ≡ some p
      → p.current ≡ some s
      → is_usable s now ≡ true
      → s.confirmed ≡ true
      → get_elem? far.peers id' ≡ some p'
      → p'.current ≡ some t
      → is_usable t now' ≡ true
      → t.receiving ≡ s.sending
      → t.local_index ≡ s.peer_index
      → s.peer_index < 2 ^ 32
      → (accept t.replays s.send_counter).1 ≡ true
      → ((j : PeerId) (o : Peer)
          → get_elem? far.peers j ≡ some o
          → j ≢ id'
          → owner (expire_sessions o now') s.peer_index ≡ none)
      → packet_len packet ≡ some (length packet)
      → total_len packet ≤ length out
      → padded_len packet ≤ length inbox
      → let sent = encapsulate c.aead near id packet now out in
        let datagram = take (total_len packet) sent.1 in
        let got = handle_data c far datagram now' inbox in
        (sent.2 ≡ ok (send id datagram))
        × (got.2 ≡ ok (receive id' packet))
        × (is_connected got.0 id' now' ≡ true)
  data_delivered law near far id id' p p' s t packet now now' out inbox h1 h2 h3 h4 g1 g2 g3 keys
        index small fresh others whole space room =
      let below = usable-below s now h3 in
      let sent =
        encapsulate-seals c.aead near id p s packet now out h1 h2 h3 h4
        ∙ seal_for-seals c.aead near id (expire_sessions p now) s _ packet out _ (total_len packet)
            (seal-writes c.aead s packet out below space) in
      let message_is =
        ap (λ w. take (total_len packet) w.1) sent
        ∙ take_front (total_len packet) (message c.aead s packet) _
            (length-message c.aead law.is_aead s packet) in
      let handled =
        message_handled law far id' p' s t packet now' inbox g1 g2 g3 keys index small below fresh
          others whole room in
      (
        ap (λ w. w.2) sent ∙ ap (λ w. ok (send id (take (total_len packet) w.1))) (sym sent),
        rw message_is handled.0,
        rw message_is handled.1,
      )

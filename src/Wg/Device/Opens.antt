-- ===== src/Wg/Device/Opens.antt =====
-- Data in the devices of crates/wg-core/src/lib.rs, a step at a time: the session that sends, the
-- peer that a message finds, and what is made of the message there.
use tailfeather.Common.{
  ℕ, zero, suc, ◌+◌, ◌^◌, ◌≡◌, ◌≢◌, ◌<◌, ◌≤◌, refl, ap, ◌∙◌, arith, Bool, true, false,
}
use tailfeather.Common.{ltb, leb, ◌==◌, none, some, List, [], ◌∷◌, ◌++◌, length, take, drop}
use tailfeather.Common.{get_elem?, ok, take_front}
use tailfeather.Common.Bytes.{to_le_bytes, from_le_bytes-to_le_bytes, length-to_le_bytes}
use tailfeather.Wg.Crypto.{Aead, IsAead}
use tailfeather.Wg.Ip.{packet_len}
use tailfeather.Wg.Messages.{receiver_bytes, get_u32}
use tailfeather.Wg.Replay.{accept}
use tailfeather.Wg.Session.{
  Session, seal, open_message, finish_open, message, padded, padded_len, total_len, is_usable,
  confirm,
}
use tailfeather.Wg.Session.RoundTrip.{open-message}
use tailfeather.Wg.Timers.{Instant, reject_after_messages}
use tailfeather.Wg.Device.{Peer, Device, PeerId, send, set_peer, expire_sessions, expire}
use tailfeather.Wg.Device.Handshakes.{or_insert}
use tailfeather.Wg.Device.Data.{
  Opened, owner, promote, deliver, after_open, open_by, open_from, seal_for, encapsulate,
}

pub not_ltb : (a b : ℕ) → b ≤ a → ltb a b ≡ false
not_ltb a b h = ground arith

not_leb : (a b : ℕ) → b < a → leb a b ≡ false
not_leb a b h = ground arith

pub ==_true : (a b : ℕ) → a ≡ b → (a == b) ≡ true
==_true a b h = ground arith

pub usable-below :
    (s : Session) (now : Instant) → is_usable s now ≡ true → s.send_counter < reject_after_messages
unfolding is_usable
usable-below s now h = ground arith

module _ (c : Aead) where
  pub seal-writes :
      (s : Session) (packet out : List ℕ)
      → s.send_counter < reject_after_messages
      → total_len packet ≤ length out
      → seal c s packet out ≡ (
        record s { send_counter = s.send_counter + 1 },
        message c s packet ++ drop (total_len packet) out,
        ok (total_len packet),
      )
  unfolding seal
  seal-writes s packet out below space =
      rw (not_ltb (length out) (total_len packet) space, not_leb _ _ below) refl

  pub open-reads :
      IsAead c
      → (s t : Session) (packet inbox : List ℕ) → s.send_counter < reject_after_messages
      → t.receiving ≡ s.sending
      → padded_len packet ≤ length inbox
      → (accept t.replays s.send_counter).1 ≡ true
      → open_message c t (message c s packet) inbox ≡ (
        record t { replays = (accept t.replays s.send_counter).0 },
        padded packet ++ drop (padded_len packet) inbox,
        ok (padded_len packet),
      )
  unfolding finish_open
  open-reads law s t packet inbox below keys room fresh =
      open-message c law s t packet inbox below keys room ∙ rw fresh refl

  pub receiver-message :
      (s : Session) (packet : List ℕ)
      → s.peer_index < 2 ^ 32
      → get_u32 (receiver_bytes (message c s packet)) ≡ s.peer_index
  unfolding message
  receiver-message s packet h =
      ap get_u32 (take_front 4 (to_le_bytes 4 s.peer_index) _ (length-to_le_bytes 4 s.peer_index))
      ∙ from_le_bytes-to_le_bytes 4 s.peer_index h

  open_from-here :
      (receiver i : ℕ) (p : Peer) (ps : List Peer) (datagram : List ℕ) (now : Instant)
      (out : List ℕ) (s : Session) (is_previous : Bool)
      → owner (expire_sessions p now) receiver ≡ some (s, is_previous)
      → let opened = open_by c i (expire_sessions p now) s is_previous datagram now out in
        open_from c receiver i (p ∷ ps) datagram now out ≡ (opened.0 ∷ ps, opened.1, opened.2)
  unfolding open_from
  open_from-here receiver i p ps datagram now out s is_previous h = rw (h, open_from) refl

  open_from-past :
      (receiver i : ℕ) (p : Peer) (ps : List Peer) (datagram : List ℕ) (now : Instant)
      (out : List ℕ)
      → owner (expire_sessions p now) receiver ≡ none
      → let found = open_from c receiver (i + 1) ps datagram now out in
        open_from c receiver i (p ∷ ps) datagram now out
        ≡ (expire_sessions p now ∷ found.0, found.1, found.2)
  unfolding open_from
  open_from-past receiver i p ps datagram now out h = rw (h, open_from) refl

  -- A message finds the one peer that its session belongs to.
  pub open_from-finds :
      (receiver i k : ℕ) (ps : List Peer) (datagram : List ℕ) (now : Instant) (out out' : List ℕ)
      (p p' : Peer) (s : Session) (is_previous : Bool) (opened : Opened)
      → get_elem? ps k ≡ some p
      → owner (expire_sessions p now) receiver ≡ some (s, is_previous)
      → ((j : ℕ) (o : Peer)
          → get_elem? ps j ≡ some o
          → j ≢ k
          → owner (expire_sessions o now) receiver ≡ none)
      → open_by c (i + k) (expire_sessions p now) s is_previous datagram now out
        ≡ (p', out', opened)
      → let found = open_from c receiver i ps datagram now out in
        (found.1 ≡ out') × (found.2 ≡ opened) × (get_elem? found.0 k ≡ some p')
  open_from-finds receiver i k [] datagram now out out' p p' s is_previous opened h found others
        eq =
      cc
  open_from-finds receiver i zero (q ∷ ps) datagram now out out' p p' s is_previous opened h found
        others eq =
      let same = ap (λ o. elim o [ none ↦ q | some x ↦ x ]) h in
      let here = open_from-here receiver i q ps datagram now out s is_previous (rw same found) in
      let opens =
        ap (λ o. open_by c i (expire_sessions o now) s is_previous datagram now out) same
        ∙ ap (λ n. open_by c n (expire_sessions p now) s is_previous datagram now out) {x = i}
            {y = i + 0} (omega arith)
        ∙ eq in
      (
        ap (λ w. w.1) here ∙ ap (λ w. w.1) opens,
        ap (λ w. w.2) here ∙ ap (λ w. w.2) opens,
        ap (λ w. get_elem? w.0 0) here ∙ ap (λ w. some w.0) opens,
      )
  open_from-finds receiver i (suc k) (q ∷ ps) datagram now out out' p p' s is_previous opened h
        found others eq =
      let past =
        open_from-past receiver i q ps datagram now out
          (others 0 q refl (λ e. absurd (omega (arith, e)))) in
      let (same_out, same_opened, at_k) =
        open_from-finds receiver (i + 1) k ps datagram now out out' p p' s is_previous opened h
          found (λ j o at ne. others (suc j) o at (λ e. ne (omega (arith, e))))
          (ap (λ n. open_by c n (expire_sessions p now) s is_previous datagram now out)
              {x = i + 1 + k} {y = i + suc k} (omega arith)
            ∙ eq) in
      (
        ap (λ w. w.1) past ∙ same_out,
        ap (λ w. w.2) past ∙ same_opened,
        ap (λ w. get_elem? w.0 (suc k)) past ∙ at_k,
      )

  pub open_by-delivers :
      (index : PeerId) (p : Peer) (s t : Session) (datagram : List ℕ) (now : Instant)
      (out out' : List ℕ) (plaintext_len len : ℕ)
      → open_message c s datagram out ≡ (t, out', ok plaintext_len)
      → (plaintext_len == 0) ≡ false
      → packet_len (take plaintext_len out') ≡ some len
      → open_by c index p s false datagram now out ≡ (
        record p {
          current = some (confirm t);
          keepalive_armed_since = or_insert p.keepalive_armed_since now;
        },
        out',
        ok (some (index, len)),
      )
  unfolding open_by after_open deliver promote
  open_by-delivers index p s t datagram now out out' plaintext_len len h1 h2 h3 =
      ap (after_open index p false now) h1 ∙ rw (h2, h3, after_open, deliver) refl

  pub seal_for-seals :
      (d : Device) (id : PeerId) (p : Peer) (s s' : Session) (packet out out' : List ℕ) (len : ℕ)
      → seal c s packet out ≡ (s', out', ok len)
      → seal_for c d id p s packet out ≡ (
        set_peer d id (record p { current = some s'; keepalive_armed_since = none }),
        out',
        ok (send id (take len out')),
      )
  unfolding seal_for
  seal_for-seals d id p s s' packet out out' len h = rw (h, seal_for) (rw h refl)

  -- `encapsulate` for a session that is confirmed and still in use.
  pub encapsulate-seals :
      (d : Device) (id : PeerId) (p : Peer) (s : Session) (packet : List ℕ) (now : Instant)
      (out : List ℕ)
      → get_elem? d.peers id ≡ some p
      → p.current ≡ some s
      → is_usable s now ≡ true
      → s.confirmed ≡ true
      → encapsulate c d id packet now out ≡ seal_for c d id (expire_sessions p now) s packet out
  unfolding encapsulate expire_sessions expire seal_for
  encapsulate-seals d id p s packet now out h1 h2 h3 h4 =
      rw (h1, h2, h3, h4, encapsulate, expire) refl

pub owner-current :
    (p : Peer) (s : Session) (index : ℕ) (now : Instant)
    → p.current ≡ some s
    → is_usable s now ≡ true
    → s.local_index ≡ index
    → owner (expire_sessions p now) index ≡ some (s, false)
unfolding owner expire_sessions expire
owner-current p s index now h1 h2 h3 = rw (h1, h2, ==_true s.local_index index h3) refl

pub packet_len-nonempty : (packet : List ℕ) (n : ℕ) → packet_len packet ≡ some n → 0 < length packet
unfolding packet_len
packet_len-nonempty [] n h = cc
packet_len-nonempty (a ∷ packet) n h = omega arith

pub padded_len-nonzero : (packet : List ℕ) → 0 < length packet → (padded_len packet == 0) ≡ false
padded_len-nonzero packet h = ground arith

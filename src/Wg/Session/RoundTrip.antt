-- ===== src/Wg/Session/RoundTrip.antt =====
-- What one end seals the other end opens, down to the inner packet.
use tailfeather.Common.{ℕ, ◌+◌, ◌-◌, ◌%◌, ◌≤◌, ◌<◌, ◌≡◌, refl, subst, ◌∙◌, arith}
use tailfeather.Common.{true, false, not, ltb, leb, ◌==◌}
use tailfeather.Common.{List, [], ◌++◌, length, take, drop, replicate, ok, some}
use tailfeather.Common.{length-append, length-replicate, take-append, drop-append}
use tailfeather.Common.Bytes.{to_le_bytes, from_le_bytes-to_le_bytes}
use tailfeather.Wg.Budget.{pad_to, tag_len}
use tailfeather.Wg.Crypto.{Aead, IsAead, aead_seal, aead_seal_nonce, aead_open, aead_open-aead_seal}
use tailfeather.Wg.Messages.{header_len, header, type_data, counter_bytes, get_u64}
use tailfeather.Wg.Replay.{accept}
use tailfeather.Wg.Timers.{reject_after_messages}
use tailfeather.Wg.Ip.{packet_len}
use tailfeather.Wg.Ip.Header.{packet_len-append}
use tailfeather.Wg.Session.{
  Session, seal, open_message, message, padded, padded_len, total_len, finish_open,
}

pub length-padded : (packet : List ℕ) → length (padded packet) ≡ padded_len packet
length-padded packet = omega (
  arith,
  length-append packet (replicate (padded_len packet - length packet) 0),
  length-replicate {0} {A = ℕ} (padded_len packet - length packet) 0,
)

not_ltb : (a b : ℕ) → b ≤ a → ltb a b ≡ false
not_ltb a b h = ground arith

not_leb : (a b : ℕ) → b < a → leb a b ≡ false
not_leb a b h = ground arith

is_multiple : (n : ℕ) → n % pad_to ≡ 0 → not (n % pad_to == 0) ≡ false
is_multiple n h = ground arith

split_length {ℓ} :
    {A : Type ℓ} (body tag : List A)
    → length tag ≡ tag_len
    → length (body ++ tag) - tag_len ≡ length body
split_length body tag h = omega (arith, length-append body tag)

-- `open` on a datagram in its parts: every guard passes, and the cipher decides.
open_parts :
    (c : Aead) (r : Session) (front body tag out : List ℕ)
    → length front ≡ header_len
    → length tag ≡ tag_len
    → length body % pad_to ≡ 0
    → length body ≤ length out
    → get_u64 (counter_bytes (front ++ (body ++ tag))) < reject_after_messages
    → let counter = get_u64 (counter_bytes (front ++ (body ++ tag))) in
      let opened = aead_open c r.receiving counter [] body tag in
      open_message c r (front ++ (body ++ tag)) out
      ≡ finish_open c r counter (length body) (opened.0 ++ drop (length body) out, opened.1)
unfolding open_message
open_parts c r front body tag out full sixteen whole room below =
    rw
      (
        subst (λ n. drop n (front ++ (body ++ tag)) ≡ body ++ tag) full
            (drop-append front (body ++ tag)),
        split_length body tag sixteen,
        take-append body tag,
        drop-append body tag,
        not_ltb (length (front ++ (body ++ tag))) header_len
            (omega (arith, length-append front (body ++ tag))),
        not_ltb (length (body ++ tag)) tag_len (omega (arith, length-append body tag)),
        is_multiple (length body) whole,
        not_ltb (length out) (length body) room,
        not_leb _ _ below,
      )
      refl

padded_len_multiple : (packet : List ℕ) → padded_len packet % pad_to ≡ 0
padded_len_multiple packet = omega arith

module _ (c : Aead) (law : IsAead c) where
  length-body :
      (s : Session) (packet : List ℕ)
      → length (aead_seal c s.sending s.send_counter [] (padded packet)).0 ≡ padded_len packet
  unfolding aead_seal aead_seal_nonce
  length-body s packet = law.length-encrypt _ _ _ _ ∙ length-padded packet

  length-tag :
      (s : Session) (packet : List ℕ)
      → length (aead_seal c s.sending s.send_counter [] (padded packet)).1 ≡ tag_len
  unfolding aead_seal aead_seal_nonce
  length-tag s packet = law.length_tag _ _ _ _

  pub length-message :
      (s : Session) (packet : List ℕ) → length (message c s packet) ≡ total_len packet
  unfolding message to_le_bytes
  length-message s packet = omega (
    arith,
    length-append (aead_seal c s.sending s.send_counter [] (padded packet)).0
        (aead_seal c s.sending s.send_counter [] (padded packet)).1,
    length-body s packet,
    length-tag s packet,
  )

  -- The far end opens a sealed message: its replay window alone decides.
  pub open-message :
      (s r : Session) (packet out : List ℕ)
      → s.send_counter < reject_after_messages
      → r.receiving ≡ s.sending
      → padded_len packet ≤ length out
      → open_message c r (message c s packet) out
        ≡ finish_open c r s.send_counter
            (padded_len packet)
            (padded packet ++ drop (padded_len packet) out, ok tt)
  unfolding message to_le_bytes
  open-message s r packet out below keys room =
      open_parts c r front body tag out refl (length-tag s packet)
        (rw (length-body s packet) (padded_len_multiple packet)) (rw (length-body s packet) room)
        (rw counter below)
      ∙ rw (counter, length-body s packet, keys, aead_open-aead_seal c law) refl
    where
      front : List ℕ
      front = header type_data ++ (to_le_bytes 4 s.peer_index ++ to_le_bytes 8 s.send_counter)

      body : List ℕ
      body = (aead_seal c s.sending s.send_counter [] (padded packet)).0

      tag : List ℕ
      tag = (aead_seal c s.sending s.send_counter [] (padded packet)).1

      counter : get_u64 (to_le_bytes 8 s.send_counter) ≡ s.send_counter
      counter = from_le_bytes-to_le_bytes 8 s.send_counter (omega arith)

  -- A sealed message that its receiver has not seen opens to the padded packet. The sender's counter
  -- goes up by one, the message takes the first bytes of the buffer, and the receiver's window
  -- records the counter. The receiver holds the sender's key, the sender's counter is below the
  -- limit, and both buffers are long enough.
  pub open-seal :
      (s r : Session) (packet out inbox : List ℕ)
      → s.send_counter < reject_after_messages
      → r.receiving ≡ s.sending
      → total_len packet ≤ length out
      → padded_len packet ≤ length inbox
      → (accept r.replays s.send_counter).1 ≡ true
      → let (s', out', sealed) = seal c s packet out in
        let (r', inbox', opened) = open_message c r (take (total_len packet) out') inbox in
        (sealed ≡ ok (total_len packet))
        × (s' ≡ record s { send_counter = s.send_counter + 1 })
        × (opened ≡ ok (padded_len packet))
        × (take (padded_len packet) inbox' ≡ padded packet)
        × (r' ≡ record r { replays = (accept r.replays s.send_counter).0 })
  unfolding seal finish_open
  open-seal s r packet out inbox below keys space room fresh =
      rw
        (
          not_ltb (length out) (total_len packet) space,
          not_leb _ _ below,
          subst
              (λ n. take n (message c s packet ++ drop (total_len packet) out) ≡ message c s packet)
              (length-message s packet)
              (take-append (message c s packet) (drop (total_len packet) out)),
          open-message s r packet inbox below keys room,
          fresh,
        )
        (
          refl,
          refl,
          refl,
          subst (λ n. take n (padded packet ++ drop (padded_len packet) inbox) ≡ padded packet)
              (length-padded packet) (take-append (padded packet) (drop (padded_len packet) inbox)),
          refl,
        )

-- The padding is undone by the length in the inner header: if a packet is as long as its IP header
-- says, that length is read from the padded plaintext too, and its prefix is the packet.
pub unpad-padded :
    (packet : List ℕ)
    → packet_len packet ≡ some (length packet)
    → (packet_len (padded packet) ≡ some (length packet))
      × (take (length packet) (padded packet) ≡ packet)
unpad-padded packet e = (packet_len-append packet _ (length packet) e, take-append packet _)

-- ===== src/Wg/Noise.antt =====
-- crates/wg-core/src/noise.rs: the Noise IKpsk2 handshake, both roles. A function that writes a
-- message takes the room in the caller's buffer and gives the bytes it writes there; what an error
-- leaves in the buffer is not followed.
use tailfeather.Common.{ℕ, ◌^◌, Bool, true, false, ◌||◌, not, ltb, ◌==◌, if◌then◌else◌}
use tailfeather.Common.{
  List, [], ◌∷◌, ◌++◌, length, take, drop, get_or, replicate, Result, ok, err, ◌>>=◌,
}
use tailfeather.Common.Bytes.{to_le_bytes}
use tailfeather.Wg.Error.{Error, malformed, buffer_too_small, invalid_mac, unknown_session}
use tailfeather.Wg.Crypto.{Key, tag_len, aead_seal, aead_open}
use tailfeather.Wg.Crypto.Handshake.{
  Primitives, key_len, timestamp_len, concat, ct_eq, hash, mac, kdf1, kdf2, kdf3, dh,
}
use tailfeather.Wg.Messages.{type_initiation, type_response, header, get_u32}
use tailfeather.Wg.Session.{TransportKeys}
mod Fields
pub mod Exchange
pub mod Agreement

-- `b"Noise_IKpsk2_25519_ChaChaPoly_BLAKE2s"`.
abbrev pub construction : List ℕ
construction =
    b'N' ∷ b'o' ∷ b'i' ∷ b's' ∷ b'e' ∷ b'_' ∷ b'I' ∷ b'K' ∷ b'p' ∷ b's' ∷ b'k' ∷ b'2' ∷ b'_' ∷ b'2'
    ∷ b'5' ∷ b'5' ∷ b'1' ∷ b'9' ∷ b'_' ∷ b'C' ∷ b'h' ∷ b'a' ∷ b'C' ∷ b'h' ∷ b'a' ∷ b'P' ∷ b'o'
    ∷ b'l' ∷ b'y' ∷ b'_' ∷ b'B' ∷ b'L' ∷ b'A' ∷ b'K' ∷ b'E' ∷ b'2' ∷ b's' ∷ []

-- `b"WireGuard v1 zx2c4 Jason@zx2c4.com"`.
abbrev pub identifier : List ℕ
identifier =
    b'W' ∷ b'i' ∷ b'r' ∷ b'e' ∷ b'G' ∷ b'u' ∷ b'a' ∷ b'r' ∷ b'd' ∷ 32 ∷ b'v' ∷ b'1' ∷ 32 ∷ b'z'
    ∷ b'x' ∷ b'2' ∷ b'c' ∷ b'4' ∷ 32 ∷ b'J' ∷ b'a' ∷ b's' ∷ b'o' ∷ b'n' ∷ b'@' ∷ b'z' ∷ b'x' ∷ b'2'
    ∷ b'c' ∷ b'4' ∷ b'.' ∷ b'c' ∷ b'o' ∷ b'm' ∷ []

-- `b"mac1----"`.
abbrev pub label_mac1 : List ℕ
label_mac1 = b'm' ∷ b'a' ∷ b'c' ∷ b'1' ∷ b'-' ∷ b'-' ∷ b'-' ∷ b'-' ∷ []

-- `initiation::LEN` and `response::LEN`.
abbrev pub initiation_len : ℕ
initiation_len = 148

abbrev pub response_len : ℕ
response_len = 92

-- The bytes of a range of a message: its start and its length.
abbrev pub range : ℕ → ℕ → List ℕ → List ℕ
range from count msg = take count (drop from msg)

-- The chaining key and the hash of a handshake.
pub record Ladder : Type 0 where
  pub chaining_key : Key
  pub hash : Key

pub record Initiation : Type 0 where
  pub peer_static : Key
  pub peer_ephemeral : Key
  pub peer_index : ℕ
  pub timestamp : List ℕ
  pub ladder : Ladder

pub record Handshake : Type 0 where
  pub ephemeral : Key
  pub ladder : Ladder
  pub local_index : ℕ

module _ (c : Primitives) where
  unfoldable pub initial_chaining_key : Key
  unfolding hash
  initial_chaining_key = hash c (construction ∷ [])

  unfoldable pub initial_hash : Key → Key
  unfolding initial_chaining_key hash
  initial_hash responder_static =
      hash c (hash c (initial_chaining_key ∷ identifier ∷ []) ∷ responder_static ∷ [])

  unfoldable pub mac1_key : Key → Key
  unfolding hash
  mac1_key responder_static = hash c (label_mac1 ∷ responder_static ∷ [])

  -- The ladder before the first message.
  unfoldable pub initial : Key → Ladder
  unfolding initial_chaining_key initial_hash
  initial responder_static = record {
    chaining_key = initial_chaining_key;
    hash = initial_hash responder_static;
  }

  -- An ephemeral key goes into both.
  unfoldable pub mix_ephemeral : Ladder → Key → Ladder
  unfolding kdf1 hash
  mix_ephemeral l public = record {
    chaining_key = kdf1 c l.chaining_key public;
    hash = hash c (l.hash ∷ public ∷ []);
  }

  -- A shared secret goes into the chaining key.
  unfoldable pub mix_key : Ladder → Key → Ladder
  unfolding kdf1
  mix_key l shared = record l { chaining_key = kdf1 c l.chaining_key shared }

  -- A shared secret, with a key to seal under.
  unfoldable pub next_key : Ladder → Key → Ladder × Key
  unfolding kdf2
  next_key l shared =
      let (chaining_key, key) = kdf2 c l.chaining_key shared in
      (record l { chaining_key = chaining_key }, key)

  -- The pre-shared key, with a key to seal under.
  unfoldable pub mix_psk : Ladder → Key → Ladder × Key
  unfolding kdf3 hash
  mix_psk l preshared_key =
      let (chaining_key, tau, key) = kdf3 c l.chaining_key preshared_key in
      (record { chaining_key = chaining_key; hash = hash c (l.hash ∷ tau ∷ []) }, key)

  -- Sealed bytes go into the hash.
  unfoldable pub mix_hash : Ladder → List ℕ → Ladder
  unfolding hash
  mix_hash l bytes = record l { hash = hash c (l.hash ∷ bytes ∷ []) }

  -- Bytes and their tag.
  unfoldable pub seal_field : Key → Key → List ℕ → List ℕ
  unfolding aead_seal
  seal_field key aad bytes = let (body, tag) = aead_seal c.aead key 0 aad bytes in body ++ tag

  -- The bytes of a field that is sealed, this many without the tag.
  unfoldable pub open_field : Key → Key → ℕ → List ℕ → Result Error (List ℕ)
  unfolding aead_open
  open_field key aad count sealed =
      let (bytes, outcome) =
        aead_open c.aead key 0 aad (take count sealed) (range count tag_len sealed) in
      outcome >>= λ u. ok bytes

  -- A message from its fields: `mac1` over them, and a `mac2` of zeros.
  unfoldable pub with_macs : Key → List (List ℕ) → List ℕ
  unfolding mac
  with_macs key fields = concat fields ++ (mac c key (concat fields ∷ []) ++ replicate 16 0)

  -- The check of `mac1` over the first `covered` bytes of a message of this length and type.
  unfoldable pub verify_mac1 : ℕ → ℕ → ℕ → Key → List ℕ → Result Error (Unit {0})
  unfolding mac
  verify_mac1 len ty covered key msg =
      if not (length msg == len) || not (get_or msg 0 0 == ty)
      then err malformed
      else if not (ct_eq (mac c key (take covered msg ∷ [])) (range covered 16 msg))
      then err invalid_mac
      else ok tt

  unfoldable pub verify_initiation_mac1 : Key → List ℕ → Result Error (Unit {0})
  unfolding verify_mac1
  verify_initiation_mac1 key msg = verify_mac1 initiation_len type_initiation 116 key msg

  unfoldable pub verify_response_mac1 : Key → List ℕ → Result Error (Unit {0})
  unfolding verify_mac1
  verify_response_mac1 key msg = verify_mac1 response_len type_response 60 key msg

  -- `consume_initiation` once `mac1` has been checked, on the fields of the message.
  unfoldable pub read_initiation : Key → Key → ℕ → Key → List ℕ → List ℕ → Result Error Initiation
  unfolding initial mix_ephemeral next_key mix_hash open_field dh
  read_initiation static_private static_public peer_index peer_ephemeral sealed_static
        sealed_timestamp =
      let l1 = mix_ephemeral (initial static_public) peer_ephemeral in
      dh c static_private peer_ephemeral >>= λ shared.
      let (l2, key) = next_key l1 shared in
      open_field key l2.hash key_len sealed_static >>= λ peer_static.
      let l3 = mix_hash l2 sealed_static in
      dh c static_private peer_static >>= λ shared'.
      let (l4, key') = next_key l3 shared' in
      open_field key' l4.hash timestamp_len sealed_timestamp >>= λ timestamp. ok (record {
        peer_static = peer_static;
        peer_ephemeral = peer_ephemeral;
        peer_index = peer_index;
        timestamp = timestamp;
        ladder = mix_hash l4 sealed_timestamp;
      })

  unfoldable pub consume_initiation : Key → Key → Key → List ℕ → Result Error Initiation
  unfolding verify_initiation_mac1 read_initiation
  consume_initiation static_private static_public key msg = verify_initiation_mac1 key msg >>= λ u.
      read_initiation static_private static_public (get_u32 (range 4 4 msg)) (range 8 32 msg)
        (range 40 48 msg) (range 88 28 msg)

  -- `create_response` behind its check of the buffer, with the parts of the initiation it uses.
  unfoldable pub write_response : Initiation → Key → ℕ → Key → Result Error (List ℕ × TransportKeys)
  unfolding mix_ephemeral mix_key mix_psk mix_hash seal_field with_macs mac1_key kdf2 dh
  write_response initiation preshared_key local_index ephemeral_private =
      let ephemeral_public = c.public_of ephemeral_private in
      let l1 = mix_ephemeral initiation.ladder ephemeral_public in
      dh c ephemeral_private initiation.peer_ephemeral >>= λ shared.
      dh c ephemeral_private initiation.peer_static >>= λ shared'.
      let (l2, key) = mix_psk (mix_key (mix_key l1 shared) shared') preshared_key in
      let (sending, receiving) = kdf2 c l2.chaining_key [] in
      ok (
        with_macs (mac1_key initiation.peer_static) (
            header type_response
            ∷ to_le_bytes 4 local_index
            ∷ to_le_bytes 4 initiation.peer_index
            ∷ ephemeral_public
            ∷ seal_field key l2.hash []
            ∷ []),
        record { sending_key = receiving; receiving_key = sending },
      )

  unfoldable pub create_response :
      Initiation → Key → ℕ → Key → ℕ → Result Error (List ℕ × TransportKeys)
  unfolding write_response
  create_response initiation preshared_key local_index ephemeral_private room =
      if ltb room response_len
      then err buffer_too_small
      else write_response initiation preshared_key local_index ephemeral_private

  -- `create_initiation` behind its check of the buffer.
  unfoldable pub write_initiation :
      Key → Key → Key → ℕ → Key → List ℕ → Result Error (List ℕ × Handshake)
  unfolding initial mix_ephemeral next_key mix_hash seal_field with_macs mac1_key dh
  write_initiation static_private static_public responder_static local_index ephemeral_private
        timestamp =
      let ephemeral_public = c.public_of ephemeral_private in
      let l1 = mix_ephemeral (initial responder_static) ephemeral_public in
      dh c ephemeral_private responder_static >>= λ shared.
      let (l2, key) = next_key l1 shared in
      let sealed_static = seal_field key l2.hash static_public in
      let l3 = mix_hash l2 sealed_static in
      dh c static_private responder_static >>= λ shared'.
      let (l4, key') = next_key l3 shared' in
      let sealed_timestamp = seal_field key' l4.hash timestamp in
      ok (
        with_macs (mac1_key responder_static) (
            header type_initiation
            ∷ to_le_bytes 4 local_index
            ∷ ephemeral_public
            ∷ sealed_static
            ∷ sealed_timestamp
            ∷ []),
        record {
          ephemeral = ephemeral_private;
          ladder = mix_hash l4 sealed_timestamp;
          local_index = local_index;
        },
      )

  unfoldable pub create_initiation :
      Key → Key → Key → ℕ → Key → List ℕ → ℕ → Result Error (List ℕ × Handshake)
  unfolding write_initiation
  create_initiation static_private static_public responder_static local_index ephemeral_private
        timestamp room =
      if ltb room initiation_len
      then err buffer_too_small
      else write_initiation static_private static_public responder_static local_index
          ephemeral_private timestamp

  -- `consume_response` behind its checks, on the fields of the message.
  unfoldable pub read_response :
      Handshake → Key → Key → ℕ → Key → List ℕ → Result Error (ℕ × TransportKeys)
  unfolding mix_ephemeral mix_key mix_psk open_field kdf2 dh
  read_response handshake static_private preshared_key peer_index peer_ephemeral sealed =
      let l1 = mix_ephemeral handshake.ladder peer_ephemeral in
      dh c handshake.ephemeral peer_ephemeral >>= λ shared.
      dh c static_private peer_ephemeral >>= λ shared'.
      let (l2, key) = mix_psk (mix_key (mix_key l1 shared) shared') preshared_key in
      open_field key l2.hash 0 sealed >>= λ nothing.
      let (sending, receiving) = kdf2 c l2.chaining_key [] in
      ok (peer_index, record { sending_key = sending; receiving_key = receiving })

  unfoldable pub consume_response :
      Handshake → Key → Key → List ℕ → Result Error (ℕ × TransportKeys)
  unfolding read_response
  consume_response handshake static_private preshared_key msg =
      if not (length msg == response_len) || not (get_or msg 0 0 == type_response)
      then err malformed
      else if not (get_u32 (range 8 4 msg) == handshake.local_index)
      then err unknown_session
      else read_response handshake static_private preshared_key (get_u32 (range 4 4 msg))
          (range 12 32 msg) (range 44 16 msg)

-- `timestamp_is_newer`: the order of byte strings of one length.
unfoldable pub timestamp_is_newer : List ℕ → List ℕ → Bool
timestamp_is_newer [] last_seen = false
timestamp_is_newer (a ∷ candidate) [] = true
timestamp_is_newer (a ∷ candidate) (b ∷ last_seen) =
    let rest = timestamp_is_newer candidate last_seen in
    if ltb b a then true else if ltb a b then false else rest

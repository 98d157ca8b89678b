-- ===== src/Wg/Noise/Exchange.antt =====
-- What one role of the handshake of crates/wg-core/src/noise.rs writes, the other reads, a message
-- at a time.
use tailfeather.Common.{ℕ, ◌^◌, ◌≡◌, ◌<◌, refl, ap, ◌∙◌, arith, ok}
use tailfeather.Common.{List, [], ◌∷◌, length}
use tailfeather.Common.Bytes.{to_le_bytes, length-to_le_bytes, from_le_bytes-to_le_bytes}
use tailfeather.Wg.Crypto.{Key, tag_len}
use tailfeather.Wg.Crypto.Handshake.{
  Primitives, IsPrimitives, key_len, timestamp_len, kdf2, dh_public, dh_exchanged,
}
use tailfeather.Wg.Messages.{header, get_u32, type_initiation, type_response}
use tailfeather.Wg.Noise.{
  range, Ladder, Initiation, Handshake, mac1_key, seal_field, with_macs, initiation_len,
  response_len, initial, mix_ephemeral, mix_key, next_key, mix_psk, mix_hash, write_initiation,
  read_initiation, consume_initiation, verify_initiation_mac1, write_response, read_response,
  consume_response, verify_response_mac1,
}
use tailfeather.Wg.Noise.Fields.{
  equals_itself, type-with_macs, length-with_macs, length-concat, range-with_macs,
  verify_mac1-with_macs, length-seal_field, open_field-seal_field,
}

module _ (c : Primitives) where
  -- What a responder reads in an initiation, and what an initiator keeps of it.
  abbrev pub initiation_of : Key → Key → ℕ → List ℕ → Ladder → Initiation
  initiation_of private ephemeral index timestamp ladder = record {
    peer_static = c.public_of private;
    peer_ephemeral = c.public_of ephemeral;
    peer_index = index;
    timestamp = timestamp;
    ladder = ladder;
  }

  abbrev pub handshake_of : Key → Ladder → ℕ → Handshake
  handshake_of ephemeral ladder index = record {
    ephemeral = ephemeral;
    ladder = ladder;
    local_index = index;
  }

  -- The message of these fields is an initiation that the fields are read from.
  pub consume_initiation-fields :
      IsPrimitives c
      → (private public key : Key) (index : ℕ) (ephemeral sealed sealed' : List ℕ) → index < 2 ^ 32
      → length ephemeral ≡ key_len
      → length sealed ≡ 48
      → length sealed' ≡ 28
      → let message =
          with_macs c key
            (header type_initiation ∷ to_le_bytes 4 index ∷ ephemeral ∷ sealed ∷ sealed' ∷ []) in
        (verify_initiation_mac1 c key message ≡ ok tt)
        × (consume_initiation c private public key message
            ≡ read_initiation c private public index ephemeral sealed sealed')
  unfolding consume_initiation verify_initiation_mac1
  consume_initiation-fields law private public key index ephemeral sealed sealed' h1 h2 h3 h4 =
      let index' = to_le_bytes 4 index in
      let fields = header type_initiation ∷ index' ∷ ephemeral ∷ sealed ∷ sealed' ∷ [] in
      let four = length-to_le_bytes 4 index in
      let verified =
        verify_mac1-with_macs c law initiation_len 116 type_initiation key
          (index' ∷ ephemeral ∷ sealed ∷ sealed' ∷ []) (length-concat fields ∙ omega (arith, four))
          (omega arith) in
      (
        verified,
        rw
            (
              verified,
              range-with_macs c key (header type_initiation ∷ []) index'
                  (ephemeral ∷ sealed ∷ sealed' ∷ []) 4 4 (omega arith) four,
              from_le_bytes-to_le_bytes 4 index h1,
              range-with_macs c key (header type_initiation ∷ index' ∷ []) ephemeral
                  (sealed ∷ sealed' ∷ []) 8 32 (omega (arith, four)) h2,
              range-with_macs c key (header type_initiation ∷ index' ∷ ephemeral ∷ []) sealed
                  (sealed' ∷ []) 40 48 (omega (arith, four)) h3,
              range-with_macs c key (header type_initiation ∷ index' ∷ ephemeral ∷ sealed ∷ [])
                  sealed' [] 88 28 (omega (arith, four)) h4,
            )
            refl,
      )

  pub read_initiation-write_initiation :
      IsPrimitives c
      → (private responder_private ephemeral : Key) (index : ℕ) (timestamp : List ℕ)
      → length timestamp ≡ timestamp_len
      → (sealed : List ℕ) × (sealed' : List ℕ) × (ladder : Ladder) × (write_initiation c private
            (c.public_of private)
            (c.public_of responder_private)
            index
            ephemeral
            timestamp
          ≡ ok (
            with_macs c (mac1_key c (c.public_of responder_private)) (
                header type_initiation
                ∷ to_le_bytes 4 index
                ∷ c.public_of ephemeral
                ∷ sealed
                ∷ sealed'
                ∷ []),
            handshake_of ephemeral ladder index,
          ))
        × (length sealed ≡ 48)
        × (length sealed' ≡ 28)
        × (read_initiation c responder_private
              (c.public_of responder_private)
              index
              (c.public_of ephemeral)
              sealed
              sealed'
            ≡ ok (initiation_of private ephemeral index timestamp ladder))
  unfolding write_initiation read_initiation
  read_initiation-write_initiation law private responder_private ephemeral index timestamp h =
      let responder = c.public_of responder_private in
      let l1 = mix_ephemeral c (initial c responder) (c.public_of ephemeral) in
      let (l2, key) = next_key c l1 (c.diffie_hellman ephemeral responder) in
      let sealed = seal_field c key l2.hash (c.public_of private) in
      let l3 = mix_hash c l2 sealed in
      let (l4, key') = next_key c l3 (c.diffie_hellman private responder) in
      let sealed' = seal_field c key' l4.hash timestamp in
      (
        sealed,
        sealed',
        mix_hash c l4 sealed',
        rw (dh_public c law ephemeral responder_private, dh_public c law private responder_private)
            refl,
        omega (
          arith,
          length-seal_field c law key l2.hash (c.public_of private),
          law.length_public private,
        ),
        omega (arith, length-seal_field c law key' l4.hash timestamp, h),
        rw
            (
              dh_exchanged c law ephemeral responder_private,
              open_field-seal_field c law key l2.hash (c.public_of private) key_len
                  (law.length_public private),
              dh_exchanged c law private responder_private,
              open_field-seal_field c law key' l4.hash timestamp timestamp_len h,
            )
            refl,
      )

  -- The same for a response, whose receiver the initiator checks first.
  pub consume_response-fields :
      IsPrimitives c
      → (handshake : Handshake) (private preshared_key key ephemeral sealed : List ℕ) (index : ℕ)
      → index < 2 ^ 32
      → handshake.local_index < 2 ^ 32
      → length ephemeral ≡ key_len
      → length sealed ≡ tag_len
      → let message = with_macs c key (
          header type_response
          ∷ to_le_bytes 4 index
          ∷ to_le_bytes 4 handshake.local_index
          ∷ ephemeral
          ∷ sealed
          ∷ []) in
        (verify_response_mac1 c key message ≡ ok tt)
        × (get_u32 (range 8 4 message) ≡ handshake.local_index)
        × (consume_response c handshake private preshared_key message
            ≡ read_response c handshake private preshared_key index ephemeral sealed)
  unfolding consume_response verify_response_mac1
  consume_response-fields law handshake private preshared_key key ephemeral sealed index h1 h2 h3
        h4 =
      let ours = to_le_bytes 4 handshake.local_index in
      let theirs = to_le_bytes 4 index in
      let fields = header type_response ∷ theirs ∷ ours ∷ ephemeral ∷ sealed ∷ [] in
      let four = length-to_le_bytes 4 index in
      let four' = length-to_le_bytes 4 handshake.local_index in
      let verified =
        verify_mac1-with_macs c law response_len 60 type_response key
          (theirs ∷ ours ∷ ephemeral ∷ sealed ∷ [])
          (length-concat fields ∙ omega (arith, four, four')) (omega arith) in
      let addressed =
        ap get_u32 (
          range-with_macs c key (header type_response ∷ theirs ∷ []) ours (ephemeral ∷ sealed ∷ [])
            8 4 (omega (arith, four)) four')
        ∙ from_le_bytes-to_le_bytes 4 handshake.local_index h2 in
      (
        verified,
        addressed,
        rw
            (
              equals_itself (length (with_macs c key fields)) response_len
                  (length-with_macs c law key fields ∙ omega (arith, four, four')),
              type-with_macs c key type_response (theirs ∷ ours ∷ ephemeral ∷ sealed ∷ []),
              range-with_macs c key (header type_response ∷ []) theirs
                  (ours ∷ ephemeral ∷ sealed ∷ []) 4 4 (omega arith) four,
              from_le_bytes-to_le_bytes 4 index h1,
              addressed,
              equals_itself handshake.local_index handshake.local_index refl,
              range-with_macs c key (header type_response ∷ theirs ∷ ours ∷ []) ephemeral
                  (sealed ∷ []) 12 32 (omega (arith, four, four')) h3,
              range-with_macs c key (header type_response ∷ theirs ∷ ours ∷ ephemeral ∷ []) sealed
                  [] 44 16 (omega (arith, four, four')) h4,
            )
            refl,
      )

  pub read_response-write_response :
      IsPrimitives c
      → (private ephemeral responder_ephemeral preshared_key : Key) (index responder_index : ℕ)
        (timestamp : List ℕ) (ladder : Ladder)
      → (sealed : List ℕ) × (a : Key) × (b : Key) × (write_response c
            (initiation_of private ephemeral index timestamp ladder)
            preshared_key
            responder_index
            responder_ephemeral
          ≡ ok (
            with_macs c (mac1_key c (c.public_of private)) (
                header type_response
                ∷ to_le_bytes 4 responder_index
                ∷ to_le_bytes 4 index
                ∷ c.public_of responder_ephemeral
                ∷ sealed
                ∷ []),
            record { sending_key = b; receiving_key = a },
          ))
        × (length sealed ≡ tag_len)
        × (read_response c
              (handshake_of ephemeral ladder index)
              private
              preshared_key
              responder_index
              (c.public_of responder_ephemeral)
              sealed
            ≡ ok (responder_index, record { sending_key = a; receiving_key = b }))
  unfolding write_response read_response
  read_response-write_response law private ephemeral responder_ephemeral preshared_key index
        responder_index timestamp ladder =
      let public = c.public_of responder_ephemeral in
      let l1 = mix_ephemeral c ladder public in
      let shared = c.diffie_hellman ephemeral public in
      let shared' = c.diffie_hellman private public in
      let (l2, key) = mix_psk c (mix_key c (mix_key c l1 shared) shared') preshared_key in
      let (a, b) = kdf2 c l2.chaining_key [] in
      (
        seal_field c key l2.hash [],
        a,
        b,
        rw
            (
              dh_exchanged c law ephemeral responder_ephemeral,
              dh_exchanged c law private responder_ephemeral,
            )
            refl,
        length-seal_field c law key l2.hash [],
        rw
            (
              dh_public c law ephemeral responder_ephemeral,
              dh_public c law private responder_ephemeral,
              open_field-seal_field c law key l2.hash [] 0 refl,
            )
            refl,
      )

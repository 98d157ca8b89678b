-- ===== src/Wg/Noise/Agreement.antt =====
-- Both roles of the handshake of crates/wg-core/src/noise.rs, one against the other.
use tailfeather.Common.{ℕ, ◌^◌, ◌≡◌, ◌<◌, ◌≤◌, refl, ◌∙◌, arith, Result, ok, false, ltb, ◌>>=◌}
use tailfeather.Common.{List, [], ◌∷◌, length}
use tailfeather.Common.Bytes.{to_le_bytes}
use tailfeather.Wg.Error.{Error}
use tailfeather.Wg.Crypto.{Key}
use tailfeather.Wg.Crypto.Handshake.{Primitives, IsPrimitives, timestamp_len}
use tailfeather.Wg.Messages.{header, get_u32, type_initiation, type_response}
use tailfeather.Wg.Session.{TransportKeys}
use tailfeather.Wg.Noise.{
  range, Ladder, Initiation, mac1_key, with_macs, initiation_len, response_len, create_initiation,
  consume_initiation, verify_initiation_mac1, create_response, consume_response,
  verify_response_mac1,
}
use tailfeather.Wg.Noise.Exchange.{
  initiation_of, handshake_of, consume_initiation-fields, read_initiation-write_initiation,
  consume_response-fields, read_response-write_response,
}

roomy : (room needed : ℕ) → needed ≤ room → ltb room needed ≡ false
roomy room needed h = ground arith

module _ (c : Primitives) where
  -- An initiation, and what the responder it is for reads in it.
  pub initiation_understood :
      IsPrimitives c
      → (private responder_private ephemeral : Key) (index room : ℕ) (timestamp : List ℕ)
      → index < 2 ^ 32
      → length timestamp ≡ timestamp_len
      → initiation_len ≤ room
      → let responder = c.public_of responder_private in
        (first : List ℕ) × (ladder : Ladder) × (create_initiation c private
            (c.public_of private)
            responder
            index
            ephemeral
            timestamp
            room
          ≡ ok (first, handshake_of c ephemeral ladder index))
        × (verify_initiation_mac1 c (mac1_key c responder) first ≡ ok tt)
        × (consume_initiation c responder_private responder (mac1_key c responder) first
            ≡ ok (initiation_of c private ephemeral index timestamp ladder))
  unfolding create_initiation
  initiation_understood law private responder_private ephemeral index room timestamp h1 h2 h3 =
      let responder = c.public_of responder_private in
      let (sealed, sealed', ladder, wrote, long, long', read) =
        read_initiation-write_initiation c law private responder_private ephemeral index timestamp
          h2 in
      let (verified, consumed) =
        consume_initiation-fields c law responder_private responder (mac1_key c responder) index
          (c.public_of ephemeral) sealed sealed' h1 (law.length_public ephemeral) long long' in
      (
        with_macs c (mac1_key c responder) (
            header type_initiation
            ∷ to_le_bytes 4 index
            ∷ c.public_of ephemeral
            ∷ sealed
            ∷ sealed'
            ∷ []),
        ladder,
        rw (roomy room initiation_len h3) wrote,
        verified,
        consumed ∙ read,
      )

  -- The answer to it, and what the initiator reads in that.
  pub response_understood :
      IsPrimitives c
      → (private ephemeral responder_ephemeral preshared_key : Key) (index responder_index room : ℕ)
        (timestamp : List ℕ) (ladder : Ladder)
      → index < 2 ^ 32
      → responder_index < 2 ^ 32
      → response_len ≤ room
      → (second : List ℕ) × (a : Key) × (b : Key) × (create_response c
            (initiation_of c private ephemeral index timestamp ladder)
            preshared_key
            responder_index
            responder_ephemeral
            room
          ≡ ok (second, record { sending_key = b; receiving_key = a }))
        × (verify_response_mac1 c (mac1_key c (c.public_of private)) second ≡ ok tt)
        × (get_u32 (range 8 4 second) ≡ index)
        × (consume_response c (handshake_of c ephemeral ladder index) private preshared_key second
            ≡ ok (responder_index, record { sending_key = a; receiving_key = b }))
  unfolding create_response
  response_understood law private ephemeral responder_ephemeral preshared_key index responder_index
        room timestamp ladder h1 h2 h3 =
      let public = c.public_of private in
      let (back, a, b, wrote, sixteen, read) =
        read_response-write_response c law private ephemeral responder_ephemeral preshared_key index
          responder_index timestamp ladder in
      let (verified, addressed, received) =
        consume_response-fields c law (handshake_of c ephemeral ladder index) private preshared_key
          (mac1_key c public) (c.public_of responder_ephemeral) back responder_index h2 h1
          (law.length_public responder_ephemeral) sixteen in
      (
        with_macs c (mac1_key c public) (
            header type_response
            ∷ to_le_bytes 4 responder_index
            ∷ to_le_bytes 4 index
            ∷ c.public_of responder_ephemeral
            ∷ back
            ∷ []),
        a,
        b,
        rw (roomy room response_len h3) wrote,
        verified,
        addressed,
        received ∙ read,
      )

  -- The handshake as the two devices run it: an initiation, its answer, and what either side keeps.
  -- The result is what the responder reads, the receiver it was told, and the keys of either side.
  unfoldable pub run_handshake :
      Key
      → Key
      → Key
      → Key
      → Key
      → ℕ
      → ℕ
      → List ℕ
      → ℕ
      → Result Error (Initiation × ℕ × TransportKeys × TransportKeys)
  run_handshake private responder_private ephemeral responder_ephemeral preshared_key index
        responder_index timestamp room =
      let public = c.public_of private in
      let responder = c.public_of responder_private in
      create_initiation c private public responder index ephemeral timestamp room >>= λ started.
      let (first, handshake) = started in
      consume_initiation c responder_private responder (mac1_key c responder) first
      >>= λ initiation.
          create_response c initiation preshared_key responder_index responder_ephemeral room
          >>= λ answered.
              let (second, far) = answered in
              verify_response_mac1 c (mac1_key c public) second >>= λ verified.
              consume_response c handshake private preshared_key second >>= λ finished.
              let (told, near) = finished in ok (initiation, told, near, far)

  -- With room for an initiation, indices of 32 bits and a timestamp of twelve bytes, the handshake
  -- of two parties succeeds at every step, whatever their private keys and the keys they draw, given
  -- the one pre-shared key. The responder reads the initiator's public key, index and timestamp, the
  -- initiator is told the responder's index, and what one side seals under the other opens under.
  pub handshake_agrees :
      IsPrimitives c
      → (private responder_private ephemeral responder_ephemeral preshared_key : Key)
        (index responder_index room : ℕ) (timestamp : List ℕ)
      → index < 2 ^ 32
      → responder_index < 2 ^ 32
      → length timestamp ≡ timestamp_len
      → initiation_len ≤ room
      → (ladder : Ladder) × (a : Key) × (b : Key) × (run_handshake private responder_private
            ephemeral responder_ephemeral preshared_key index responder_index timestamp room
          ≡ ok (
            initiation_of c private ephemeral index timestamp ladder,
            responder_index,
            record { sending_key = a; receiving_key = b },
            record { sending_key = b; receiving_key = a },
          ))
  unfolding run_handshake
  handshake_agrees law private responder_private ephemeral responder_ephemeral preshared_key index
        responder_index room timestamp h1 h2 h3 h4 =
      let (first, ladder, created, checked, consumed) =
        initiation_understood law private responder_private ephemeral index room timestamp h1 h3
          h4 in
      let (second, a, b, answered, verified, addressed, finished) =
        response_understood law private ephemeral responder_ephemeral preshared_key index
          responder_index room timestamp ladder h1 h2 (omega (arith, h4)) in
      (ladder, a, b, rw (created, consumed, answered, verified, finished) refl)

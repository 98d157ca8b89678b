-- ===== src/Noise/Tests.antt =====
-- The record layer's theorems at concrete inputs, under a cipher that leaves the buffer as it is.
use tailfeather.Common.{
  ℕ, ◌≤◌, ◌≡◌, refl, arith, true, List, [], ◌∷◌, length, length-replicate, replicate,
}
use tailfeather.Common.{◌++◌, ◌+◌, some, ok, bytes_eq}
use tailfeather.Common.Bytes.{be32}
use tailfeather.Noise.Early.{
  magic, probe_len, EarlyReader, new_reader, payload, push_back, push, finish,
}
use tailfeather.Noise.Early.Payload.{early_payload_read, other_start_pushed_back}
use tailfeather.Wg.Crypto.{Aead, IsAead}
use tailfeather.Noise.Record.{Session, Cipher, max_message}
use tailfeather.Noise.Record.Stream.{
  carry_all, arrived, no_plaintexts, one_plaintext, carry_all-arrived,
}

abbrev plain : Aead
plain = record {
  encrypt = λ key nonce aad buffer. (buffer, replicate 16 0);
  decrypt = λ key nonce aad buffer tag. (buffer, true);
}

abbrev plain-IsAead : IsAead plain
plain-IsAead = record {
  length-encrypt = λ key nonce aad buffer. refl;
  length_tag = λ key nonce aad buffer. refl;
  decrypt-encrypt = λ key nonce aad buffer. refl;
}

abbrev cipher : Cipher
cipher = record { key = 3 ∷ []; counter = 256 }

abbrev near : Session
near = record { tx = cipher; rx = record { key = 4 ∷ []; counter = 0 } }

abbrev far : Session
far = record { tx = record { key = 4 ∷ []; counter = 0 }; rx = cipher }

buffer : List ℕ
buffer = replicate max_message 0

buffer_long : max_message ≤ length buffer
unfolding buffer
buffer_long = omega (arith, length-replicate {A = ℕ} max_message 0)

carry_all-arrived_example :
    carry_all plain buffer buffer near far ((1 ∷ []) ∷ [] ∷ (2 ∷ 3 ∷ []) ∷ [])
    ≡ arrived ((1 ∷ []) ∷ [] ∷ (2 ∷ 3 ∷ []) ∷ [])
carry_all-arrived_example =
    carry_all-arrived plain buffer buffer plain-IsAead near far ((1 ∷ []) ∷ [] ∷ (2 ∷ 3 ∷ []) ∷ [])
      buffer_long buffer_long refl (omega arith)
      (one_plaintext (omega arith)
        (one_plaintext (omega arith) (one_plaintext (omega arith) no_plaintexts)))

early_payload_read_example :
    (r : EarlyReader) × (push new_reader (magic ++ (be32 2 ++ ((7 ∷ 8 ∷ []) ++ (9 ∷ []))))
      ≡ some (r, ok (9 + 2)))
    × (finish r ≡ ok (payload (7 ∷ 8 ∷ [])))
early_payload_read_example = early_payload_read (7 ∷ 8 ∷ []) (9 ∷ []) (omega arith)

other_start_pushed_back_example :
    (r : EarlyReader) × (push new_reader (replicate 9 4 ++ (1 ∷ [])) ≡ some (r, ok probe_len))
    × (finish r ≡ ok (push_back (replicate 9 4)))
other_start_pushed_back_example =
    other_start_pushed_back (replicate 9 4) (1 ∷ []) refl (unfold bytes_eq in refl)

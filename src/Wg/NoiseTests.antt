-- ===== src/Wg/NoiseTests.antt =====
-- The handshake and the device at concrete inputs, under primitives that are easy to compute: a key
-- is told by its first byte, and nothing is enciphered.
use tailfeather.Common.{ℕ, ◌+◌, ◌≡◌, refl, ap, arith, true}
use tailfeather.Common.{[], ◌∷◌, get_or, replicate, ok}
use tailfeather.Wg.Crypto.{Aead, Key}
use tailfeather.Wg.Crypto.Handshake.{Primitives, IsPrimitives}
use tailfeather.Wg.Noise.{Ladder}
use tailfeather.Wg.Noise.Exchange.{initiation_of}
use tailfeather.Wg.Noise.Agreement.{run_handshake, handshake_agrees}

abbrev pub plain : Aead
plain = record {
  encrypt = λ key nonce aad buffer. (buffer, replicate 16 0);
  decrypt = λ key nonce aad buffer tag. (buffer, true);
}

-- The first byte of a key and zeros.
abbrev pub first_byte : Key → Key
first_byte key = get_or key 0 0 ∷ replicate 31 0

abbrev pub simple : Primitives
simple = record {
  aead = plain;
  blake2s = first_byte;
  blake2s_mac = λ key bytes. get_or key 0 0 ∷ replicate 15 0;
  hmac_blake2s = λ key bytes. first_byte bytes;
  secret_from = λ bytes. bytes;
  public_of = first_byte;
  diffie_hellman = λ secret public. (get_or secret 0 0 + get_or public 0 0) ∷ [];
  was_contributory = λ shared. true;
}

abbrev pub simple-IsPrimitives : IsPrimitives simple
simple-IsPrimitives = record {
  is_aead = record {
    length-encrypt = λ key nonce aad buffer. refl;
    length_tag = λ key nonce aad buffer. refl;
    decrypt-encrypt = λ key nonce aad buffer. refl;
  };
  length_mac = λ key bytes. refl;
  length_public = λ secret. refl;
  exchange = λ a b. ap (λ n. n ∷ []) (omega arith);
  contributory = λ a b. refl;
}

abbrev pub secret : ℕ → Key
secret n = n ∷ replicate 31 9

handshake_agrees_example :
    (ladder : Ladder) × (a : Key) × (b : Key) × (run_handshake simple
        (secret 1)
        (secret 2)
        (secret 3)
        (secret 4)
        (replicate 32 0)
        70_000
        5
        (replicate 12 6)
        148
      ≡ ok (
        initiation_of simple (secret 1) (secret 3) 70_000 (replicate 12 6) ladder,
        5,
        record { sending_key = a; receiving_key = b },
        record { sending_key = b; receiving_key = a },
      ))
handshake_agrees_example =
    handshake_agrees simple simple-IsPrimitives (secret 1) (secret 2) (secret 3) (secret 4)
      (replicate 32 0) 70_000 5 148 (replicate 12 6) (omega arith) (omega arith) refl (omega arith)

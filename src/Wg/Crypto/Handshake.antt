-- ===== src/Wg/Crypto/Handshake.antt =====
-- crates/wg-core/src/crypto.rs, what the handshake uses: hashes, key derivation and the exchange on
-- the curve. BLAKE2s, its keyed form and HMAC over it (the crates blake2 and hmac) and X25519 (the
-- crate x25519-dalek) are parameters.
use tailfeather.Common.{ℕ, zero, suc, ◌+◌, ◌≡◌, refl, ◌∙◌, Bool, true, if◌then◌else◌, ap, bytes_eq}
use tailfeather.Common.{List, [], ◌∷◌, ◌++◌, length, get_or, Result, ok, err}
use tailfeather.Wg.Error.{Error, invalid_public_key}
use tailfeather.Wg.Crypto.{Aead, IsAead, Key}

abbrev pub key_len : ℕ
key_len = 32

abbrev pub mac_len : ℕ
mac_len = 16

abbrev pub timestamp_len : ℕ
timestamp_len = 12

-- `public_of` is `PublicKey::from` of a secret, `secret_from` is `StaticSecret::from` of bytes.
pub record Primitives : Type 0 where
  pub aead : Aead
  pub blake2s : List ℕ → Key
  pub blake2s_mac : Key → List ℕ → List ℕ
  pub hmac_blake2s : Key → List ℕ → Key
  pub secret_from : List ℕ → Key
  pub public_of : Key → Key
  pub diffie_hellman : Key → Key → Key
  pub was_contributory : Key → Bool

-- What the code relies on: lengths, the law of the cipher, that both sides of an exchange get the same
-- secret, and that a public key made of a secret is no low-order point.
pub record IsPrimitives (c : Primitives) : Type 0 where
  pub is_aead : IsAead c.aead
  pub length_mac : (key : Key) (bytes : List ℕ) → length (c.blake2s_mac key bytes) ≡ mac_len
  pub length_public : (secret : Key) → length (c.public_of secret) ≡ key_len
  pub exchange :
      (a b : Key) → c.diffie_hellman a (c.public_of b) ≡ c.diffie_hellman b (c.public_of a)
  pub contributory : (a b : Key) → c.was_contributory (c.diffie_hellman a (c.public_of b)) ≡ true

-- The concatenation of the inputs of a hash.
unfoldable pub concat : List (List ℕ) → List ℕ
concat [] = []
concat (bytes ∷ more) = bytes ++ concat more

-- `ct_eq`: equality, whose time is not modelled.
abbrev pub ct_eq : List ℕ → List ℕ → Bool
ct_eq = bytes_eq

module _ (c : Primitives) where
  unfoldable pub hash : List (List ℕ) → Key
  unfolding concat
  hash inputs = c.blake2s (concat inputs)

  unfoldable pub mac : Key → List (List ℕ) → List ℕ
  unfolding concat
  mac key inputs = c.blake2s_mac key (concat inputs)

  unfoldable pub hmac : Key → List (List ℕ) → Key
  unfolding concat
  hmac key inputs = c.hmac_blake2s key (concat inputs)

  -- The keys from this counter on; `prev` is empty before the first.
  unfoldable pub kdf_from : ℕ → ℕ → Key → List ℕ → List Key
  unfolding hmac
  kdf_from zero counter t0 prev = []
  kdf_from (suc n) counter t0 prev =
      let key = hmac t0 (prev ∷ (counter ∷ []) ∷ []) in key ∷ kdf_from n (counter + 1) t0 key

  unfoldable pub kdf : ℕ → Key → List ℕ → List Key
  unfolding kdf_from hmac
  kdf n chaining_key input = kdf_from n 1 (hmac chaining_key (input ∷ [])) []

  unfoldable pub kdf1 : Key → List ℕ → Key
  unfolding kdf
  kdf1 chaining_key input = get_or (kdf 1 chaining_key input) 0 []

  unfoldable pub kdf2 : Key → List ℕ → Key × Key
  unfolding kdf
  kdf2 chaining_key input =
      let keys = kdf 2 chaining_key input in (get_or keys 0 [], get_or keys 1 [])

  unfoldable pub kdf3 : Key → List ℕ → Key × Key × Key
  unfolding kdf
  kdf3 chaining_key input =
      let keys = kdf 3 chaining_key input in (get_or keys 0 [], get_or keys 1 [], get_or keys 2 [])

  unfoldable pub dh : Key → Key → Result Error Key
  dh secret public =
      let shared = c.diffie_hellman secret public in
      if c.was_contributory shared then ok shared else err invalid_public_key

  pub dh_public :
      IsPrimitives c → (a b : Key) → dh a (c.public_of b) ≡ ok (c.diffie_hellman a (c.public_of b))
  unfolding dh
  dh_public law a b = rw (law.contributory a b) refl

  -- The other side of the same exchange.
  pub dh_exchanged :
      IsPrimitives c → (a b : Key) → dh b (c.public_of a) ≡ ok (c.diffie_hellman a (c.public_of b))
  dh_exchanged law a b = dh_public law b a ∙ ap ok (law.exchange b a)

-- ===== src/Wg/Crypto.antt =====
-- crates/wg-core/src/crypto.rs, the authenticated encryption: the two wrappers over the cipher, and
-- WireGuard's nonce. The cipher itself, from the crate chacha20poly1305, is a parameter. The hashes
-- and the curve are in Wg/Crypto/Handshake.
pub mod Handshake
use tailfeather.Common.{ℕ, ◌≡◌, refl, Bool, true, not, ◌==◌, if◌then◌else◌, ap, ◌^◌, ◌<◌}
use tailfeather.Common.{List, ◌∷◌, length, Result, ok, err, drop, sym, ◌∙◌}
use tailfeather.Common.Bytes.{to_le_bytes, from_le_bytes, from_le_bytes-to_le_bytes}
use tailfeather.Wg.Error.{Error, malformed, decryption}

abbrev pub Key : Type 0
Key = List ℕ

abbrev pub tag_len : ℕ
tag_len = 16

-- `encrypt_in_place_detached` leaves the buffer and the tag; `decrypt_in_place_detached` leaves the
-- buffer and says whether the tag verified.
pub record Aead : Type 0 where
  pub encrypt : Key → List ℕ → List ℕ → List ℕ → List ℕ × List ℕ
  pub decrypt : Key → List ℕ → List ℕ → List ℕ → List ℕ → List ℕ × Bool

-- What the code relies on: lengths, and that opening undoes sealing under the same inputs.
pub record IsAead (c : Aead) : Type 0 where
  pub length-encrypt :
      (key nonce aad buffer : List ℕ) → length (c.encrypt key nonce aad buffer).0 ≡ length buffer
  pub length_tag :
      (key nonce aad buffer : List ℕ) → length (c.encrypt key nonce aad buffer).1 ≡ tag_len
  pub decrypt-encrypt :
      (key nonce aad buffer : List ℕ)
      → c.decrypt key nonce aad
          (c.encrypt key nonce aad buffer).0
          (c.encrypt key nonce aad buffer).1
        ≡ (buffer, true)

module _ (c : Aead) where
  unfoldable pub aead_seal_nonce : Key → List ℕ → List ℕ → List ℕ → List ℕ × List ℕ
  aead_seal_nonce key nonce aad buffer = c.encrypt key nonce aad buffer

  -- The buffer afterwards, and the outcome.
  unfoldable pub aead_open_nonce :
      Key → List ℕ → List ℕ → List ℕ → List ℕ → List ℕ × Result Error (Unit {0})
  aead_open_nonce key nonce aad buffer tag =
      if not (length tag == tag_len)
      then (buffer, err malformed)
      else let (buffer', verified) = c.decrypt key nonce aad buffer tag in
        (buffer', if verified then ok tt else err decryption)

-- Four zero bytes, then the counter, lowest byte first.
unfoldable pub nonce_le : ℕ → List ℕ
nonce_le counter = 0 ∷ 0 ∷ 0 ∷ 0 ∷ to_le_bytes 8 counter

module _ (c : Aead) where
  unfoldable pub aead_seal : Key → ℕ → List ℕ → List ℕ → List ℕ × List ℕ
  aead_seal key counter aad buffer = aead_seal_nonce c key (nonce_le counter) aad buffer

  unfoldable pub aead_open : Key → ℕ → List ℕ → List ℕ → List ℕ → List ℕ × Result Error (Unit {0})
  aead_open key counter aad buffer tag = aead_open_nonce c key (nonce_le counter) aad buffer tag

  pub aead_open_nonce-aead_seal_nonce :
      IsAead c
      → (key nonce aad buffer : List ℕ)
      → let (sealed, tag) = aead_seal_nonce c key nonce aad buffer in
        aead_open_nonce c key nonce aad sealed tag ≡ (buffer, ok tt)
  unfolding aead_seal_nonce aead_open_nonce
  aead_open_nonce-aead_seal_nonce law key nonce aad buffer =
      rw (law.length_tag, law.decrypt-encrypt) refl

  pub aead_open-aead_seal :
      IsAead c
      → (key : Key) (counter : ℕ) (aad buffer : List ℕ)
      → let (sealed, tag) = aead_seal key counter aad buffer in
        aead_open key counter aad sealed tag ≡ (buffer, ok tt)
  unfolding aead_seal aead_open
  aead_open-aead_seal law key counter aad buffer =
      aead_open_nonce-aead_seal_nonce law key (nonce_le counter) aad buffer

-- Distinct counters of 64 bits have distinct nonces.
pub nonce_le-injective : (a b : ℕ) → a < 2 ^ 64 → b < 2 ^ 64 → nonce_le a ≡ nonce_le b → a ≡ b
unfolding nonce_le
nonce_le-injective a b ha hb e =
    sym (from_le_bytes-to_le_bytes 8 a ha)
    ∙ ap (λ l. from_le_bytes (drop 4 l)) e
    ∙ from_le_bytes-to_le_bytes 8 b hb

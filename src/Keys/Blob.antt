-- ===== src/Keys/Blob.antt =====
-- src/store.rs: an identity as a blob, and the identity that a store keeps across restarts. What
-- `StaticSecret` of the crate x25519-dalek keeps of 32 bytes, the random generator and the store are
-- parameters; a secret key is the bytes that `to_bytes` gives.
pub mod Restart
use tailfeather.Common.{ℕ, ◌+◌, ◌*◌, Bool, true, false, not, ◌||◌, ◌==◌, if◌then◌else◌, bytes_eq}
use tailfeather.Common.{
  List, [], ◌∷◌, ◌++◌, length, take, drop, get_or, replicate, Option, none, some, Result, ok, err,
  ◌>>=◌,
}
use tailfeather.Keys.Encoding.{key_len}

abbrev pub blob_len : ℕ
blob_len = 4 + 1 + key_len * 3

-- `b"TSID"`.
abbrev pub magic : List ℕ
magic = b'T' ∷ b'S' ∷ b'I' ∷ b'D' ∷ []

abbrev pub version : ℕ
version = 1

pub data StoreError : Type 0 where
  unrecognised wrong_length : StoreError

pub record Identity : Type 0 where
  pub machine : List ℕ
  pub node : List ℕ
  pub disco : List ℕ

unfoldable pub to_blob : Identity → List ℕ
to_blob i = magic ++ (version ∷ (i.machine ++ (i.node ++ i.disco)))

-- Bytes `from` up to `to` of a slice that is long enough.
abbrev pub slice : ℕ → ℕ → List ℕ → List ℕ
slice from count bytes = take count (drop from bytes)

pub data IdentityError (E : Type 0) : Type 0 where
  store_failed : E → IdentityError E
  format : StoreError → IdentityError E

-- `Store`: `load` writes to the buffer and says how much, `save` may change what is stored.
pub record Store (S E : Type 0) : Type 0 where
  pub load : S → List ℕ → List ℕ × Result E (Option ℕ)
  pub save : S → List ℕ → S × Result E (Unit {0})

module _ (stored : List ℕ → List ℕ) where
  unfoldable pub from_blob : List ℕ → Result StoreError Identity
  unfolding bytes_eq
  from_blob bytes =
      if not (length bytes == blob_len)
      then err wrong_length
      else if not (bytes_eq (take 4 bytes) magic) || not (get_or bytes 4 0 == version)
      then err unrecognised
      else ok (record {
        machine = stored (slice 5 32 bytes);
        node = stored (slice 37 32 bytes);
        disco = stored (slice 69 32 bytes);
      })

  module _ {G : Type 0} (fill_bytes : G → ℕ → G × List ℕ) where
    -- `generate` of a key, and of an identity.
    unfoldable pub generate_key : G → G × List ℕ
    generate_key rng = let (rng', bytes) = fill_bytes rng key_len in (rng', stored bytes)

    unfoldable pub generate : G → G × Identity
    unfolding generate_key
    generate rng =
        let (rng₁, machine) = generate_key rng in
        let (rng₂, node) = generate_key rng₁ in
        let (rng₃, disco) = generate_key rng₂ in
        (rng₃, record { machine = machine; node = node; disco = disco })

    module _ {S E : Type 0} (store : Store S E) where
      -- The identity that was found, or the error of its format.
      unfoldable pub found : Result StoreError Identity → Result (IdentityError E) (Identity × Bool)
      found (ok i) = ok (i, false)
      found (err e) = err (format e)

      -- A new identity, once it has been saved.
      unfoldable pub saved :
          Identity → Result E (Unit {0}) → Result (IdentityError E) (Identity × Bool)
      saved i (ok u) = ok (i, true)
      saved i (err e) = err (store_failed e)

      unfoldable pub after_load :
          S
          → G
          → List ℕ × Result E (Option ℕ)
          → (S × G) × Result (IdentityError E) (Identity × Bool)
      unfolding found saved
      after_load s rng (buffer, err e) = ((s, rng), err (store_failed e))
      after_load s rng (buffer, ok (some len)) = ((s, rng), found (from_blob (take len buffer)))
      after_load s rng (buffer, ok none) =
          let (rng', i) = generate rng in
          let (s', outcome) = store.save s (to_blob i) in ((s', rng'), saved i outcome)

      unfoldable pub load_or_create : S → G → (S × G) × Result (IdentityError E) (Identity × Bool)
      unfolding after_load
      load_or_create s rng = after_load s rng (store.load s (replicate blob_len 0))

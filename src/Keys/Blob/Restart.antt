-- ===== src/Keys/Blob/Restart.antt =====
-- A blob is read back, and an identity survives a restart.
use tailfeather.Common.{ℕ, ◌≡◌, refl, sym, ap, ◌∙◌, arith, true, false, ◌==◌}
use tailfeather.Common.{
  List, ◌++◌, length, length-append, take, drop, drop-drop, replicate, Option, none, some, Result,
  ok, take_front, drop_front, take_short,
}
use tailfeather.Keys.Encoding.{key_len}
use tailfeather.Keys.Blob.{
  blob_len, Identity, to_blob, Store, from_blob, generate_key, generate, found, saved, after_load,
  load_or_create,
}

length-to_blob :
    (i : Identity)
    → length i.machine ≡ key_len
    → length i.node ≡ key_len
    → length i.disco ≡ key_len
    → length (to_blob i) ≡ blob_len
unfolding to_blob
length-to_blob i m n d =
    omega
      (arith, length-append i.machine (i.node ++ i.disco), length-append i.node i.disco, m, n, d)

module _ (stored : List ℕ → List ℕ) where
  -- Keys of 32 bytes that `StaticSecret` keeps as they are.
  pub record IsKept (i : Identity) : Type 0 where
    pub machine_len : length i.machine ≡ key_len
    pub node_len : length i.node ≡ key_len
    pub disco_len : length i.disco ≡ key_len
    pub machine_kept : stored i.machine ≡ i.machine
    pub node_kept : stored i.node ≡ i.node
    pub disco_kept : stored i.disco ≡ i.disco

  -- An identity is read back from its blob.
  pub from_blob-to_blob : (i : Identity) → IsKept i → from_blob stored (to_blob i) ≡ ok i
  unfolding from_blob to_blob
  from_blob-to_blob i k =
      rw long (λ j. ok (record { machine = machine_is j; node = node_is j; disco = disco_is j }))
    where
      long : (length (to_blob i) == blob_len) ≡ true
      long = ground (arith, length-to_blob i k.machine_len k.node_len k.disco_len)

      tail_ : List ℕ
      tail_ = i.machine ++ (i.node ++ i.disco)

      machine_is : stored (take 32 tail_) ≡ i.machine
      machine_is =
          ap stored (take_front 32 i.machine (i.node ++ i.disco) k.machine_len) ∙ k.machine_kept

      node_is : stored (take 32 (drop 32 tail_)) ≡ i.node
      node_is =
          ap (λ l. stored (take 32 l)) (drop_front 32 i.machine (i.node ++ i.disco) k.machine_len)
          ∙ ap stored (take_front 32 i.node i.disco k.node_len)
          ∙ k.node_kept

      disco_is : stored (take 32 (drop 64 tail_)) ≡ i.disco
      disco_is =
          ap (λ l. stored (take 32 l))
            (sym (drop-drop 32 32 tail_)
              ∙ ap (drop 32) (drop_front 32 i.machine (i.node ++ i.disco) k.machine_len)
              ∙ drop_front 32 i.node i.disco k.node_len)
          ∙ ap stored (take_short 32 i.disco (omega (arith, k.disco_len)))
          ∙ k.disco_kept

  module _ {G : Type 0} (fill_bytes : G → ℕ → G × List ℕ) {S E : Type 0} (store : Store S E) where
    -- What the code relies on: the generator fills what it is asked to, `StaticSecret` keeps 32 bytes
    -- and keeps alone what it has kept, and a store gives back the blob that it has taken.
    pub record IsSound : Type 0 where
      pub filled : (g : G) (n : ℕ) → length (fill_bytes g n).1 ≡ n
      pub stored_len : (bytes : List ℕ) → length bytes ≡ key_len → length (stored bytes) ≡ key_len
      pub stored_twice : (bytes : List ℕ) → stored (stored bytes) ≡ stored bytes
      pub load-save :
          (s : S) (blob : List ℕ)
          → length blob ≡ blob_len
          → (store.save s blob).1 ≡ ok tt
          → store.load (store.save s blob).0 (replicate blob_len 0) ≡ (blob, ok (some blob_len))

    generate-IsKept : IsSound → (g : G) → IsKept (generate stored fill_bytes g).1
    unfolding generate generate_key
    generate-IsKept sound g = record {
      machine_len = sound.stored_len _ (sound.filled g key_len);
      node_len = sound.stored_len _ (sound.filled g₁ key_len);
      disco_len = sound.stored_len _ (sound.filled g₂ key_len);
      machine_kept = sound.stored_twice _;
      node_kept = sound.stored_twice _;
      disco_kept = sound.stored_twice _;
    }
      where
        g₁ : G
        g₁ = (fill_bytes g key_len).0

        g₂ : G
        g₂ = (fill_bytes g₁ key_len).0

    created :
        (s : S) (g : G)
        → (store.load s (replicate blob_len 0)).1 ≡ ok none
        → (store.save s (to_blob (generate stored fill_bytes g).1)).1 ≡ ok tt
        → load_or_create stored fill_bytes store s g ≡ (
          (
            (store.save s (to_blob (generate stored fill_bytes g).1)).0,
            (generate stored fill_bytes g).0,
          ),
          ok ((generate stored fill_bytes g).1, true),
        )
    unfolding load_or_create after_load saved
    created s g empty kept =
        ap
          (λ (r : Result E (Option ℕ)).
            after_load stored fill_bytes store s g ((store.load s (replicate blob_len 0)).0, r))
          empty
        ∙ ap
            (λ (r : Result E (Unit {0})). (
              (
                (store.save s (to_blob (generate stored fill_bytes g).1)).0,
                (generate stored fill_bytes g).0,
              ),
              saved stored fill_bytes store (generate stored fill_bytes g).1 r,
            ))
            kept

    found_again :
        (s : S) (g : G) (i : Identity)
        → IsKept i
        → store.load s (replicate blob_len 0) ≡ (to_blob i, ok (some blob_len))
        → load_or_create stored fill_bytes store s g ≡ ((s, g), ok (i, false))
    unfolding load_or_create after_load found
    found_again s g i k loaded =
        ap (after_load stored fill_bytes store s g) loaded
        ∙ ap (λ l. ((s, g), found stored fill_bytes store (from_blob stored l)))
            (take_short blob_len (to_blob i)
              (omega (arith, length-to_blob i k.machine_len k.node_len k.disco_len)))
        ∙ ap (λ r. ((s, g), found stored fill_bytes store r)) (from_blob-to_blob i k)

    -- Where nothing is stored and saving succeeds, a new identity is made and saved; after a restart,
    -- with whatever generator, the same identity is found, it is not new, and nothing changes.
    pub load_or_create_again :
        IsSound
        → (s : S) (g g' : G) → (store.load s (replicate blob_len 0)).1 ≡ ok none
        → (store.save s (to_blob (generate stored fill_bytes g).1)).1 ≡ ok tt
        → let ((s', rng'), first) = load_or_create stored fill_bytes store s g in
          (first ≡ ok ((generate stored fill_bytes g).1, true))
          × (load_or_create stored fill_bytes store s' g'
              ≡ ((s', g'), ok ((generate stored fill_bytes g).1, false)))
    load_or_create_again sound s g g' empty kept = rw (created s g empty kept) (
      refl,
      found_again _ g' i k (
          sound.load-save s (to_blob i) (length-to_blob i k.machine_len k.node_len k.disco_len)
            kept),
    )
      where
        i : Identity
        i = (generate stored fill_bytes g).1

        k : IsKept i
        k = generate-IsKept sound g

-- ===== src/Wg/Noise/Fields.antt =====
-- The fields of a handshake message: where they stand, what is sealed in them, and the check of
-- `mac1`.
use tailfeather.Common.{ℕ, ◌+◌, ◌≡◌, refl, sym, ap, ◌∙◌, arith, ok, false, not, ◌==◌}
use tailfeather.Common.{List, [], ◌∷◌, ◌++◌, length, take, drop, get_or, replicate, append_assoc}
use tailfeather.Common.{length-append, drop-append, take_front, drop_front, drop-drop, take_short}
use tailfeather.Common.{bytes_eq_refl}
use tailfeather.Wg.Crypto.{Key, tag_len, aead_seal, aead_seal_nonce, nonce_le, aead_open-aead_seal}
use tailfeather.Wg.Crypto.Handshake.{Primitives, IsPrimitives, concat, mac, mac_len}
use tailfeather.Wg.Messages.{header}
use tailfeather.Wg.Noise.{range, seal_field, open_field, with_macs, verify_mac1}

abbrev pub total : List (List ℕ) → ℕ
total [] = 0
total (xs ∷ more) = length xs + total more

pub length-concat : (fields : List (List ℕ)) → length (concat fields) ≡ total fields
unfolding concat
length-concat [] = refl
length-concat (xs ∷ more) = omega (arith, length-append xs (concat more), length-concat more)

-- The field behind `before` of the concatenation of the fields.
range-concat :
    (before : List (List ℕ)) (field : List ℕ) (after : List (List ℕ)) (behind : List ℕ) (k : ℕ)
    → length field ≡ k
    → range (length (concat before)) k (concat (before ++ field ∷ after) ++ behind) ≡ field
unfolding concat
range-concat [] field after behind k h =
    ap (take k) (append_assoc field (concat after) behind)
    ∙ take_front k field (concat after ++ behind) h
range-concat (x ∷ before) field after behind k h =
    ap (take k) (
      ap (λ n. drop n ((x ++ concat (before ++ field ∷ after)) ++ behind))
        (length-append x (concat before))
      ∙ ap (drop (length x + length (concat before)))
          (append_assoc x (concat (before ++ field ∷ after)) behind)
      ∙ sym (
          drop-drop (length x) (length (concat before))
            (x ++ (concat (before ++ field ∷ after) ++ behind)))
      ∙ ap (drop (length (concat before)))
          (drop-append x (concat (before ++ field ∷ after) ++ behind)))
    ∙ range-concat before field after behind k h

pub equals_itself : (a b : ℕ) → a ≡ b → not (a == b) ≡ false
equals_itself a b h = ground arith

module _ (c : Primitives) where
  mac1_range :
      IsPrimitives c
      → (covered : ℕ) (key body behind : List ℕ) → length body ≡ covered
      → range covered mac_len (body ++ (mac c key (body ∷ []) ++ behind)) ≡ mac c key (body ∷ [])
  unfolding mac
  mac1_range law covered key body behind h =
      ap (take mac_len) (drop_front covered body (mac c key (body ∷ []) ++ behind) h)
      ∙ take_front mac_len (mac c key (body ∷ [])) behind (law.length_mac key (concat (body ∷ [])))

  length_with_macs :
      IsPrimitives c
      → (covered : ℕ) (key body : List ℕ) → length body ≡ covered
      → length (body ++ (mac c key (body ∷ []) ++ replicate 16 0)) ≡ covered + 32
  unfolding mac
  length_with_macs law covered key body h = omega (
    arith,
    length-append body (mac c key (body ∷ []) ++ replicate 16 0),
    length-append (mac c key (body ∷ [])) (replicate 16 0),
    law.length_mac key (concat (body ∷ [])),
    h,
  )

  -- `mac1` is at its place, over the fields before it.
  verify_mac1_body :
      IsPrimitives c
      → (len covered ty : ℕ) (key body : List ℕ) → length (ty ∷ body) ≡ covered
      → covered + 32 ≡ len
      → verify_mac1 c len ty covered key
          ((ty ∷ body) ++ (mac c key ((ty ∷ body) ∷ []) ++ replicate 16 0))
        ≡ ok tt
  unfolding verify_mac1
  verify_mac1_body law len covered ty key body h whole =
      rw
        (
          equals_itself (length ((ty ∷ body) ++ (mac c key ((ty ∷ body) ∷ []) ++ replicate 16 0)))
              len (length_with_macs law covered key (ty ∷ body) h ∙ whole),
          equals_itself ty ty refl,
          take_front covered (ty ∷ body) (mac c key ((ty ∷ body) ∷ []) ++ replicate 16 0) h,
          mac1_range law covered key (ty ∷ body) (replicate 16 0) h,
          bytes_eq_refl (mac c key ((ty ∷ body) ∷ [])),
        )
        refl

  pub verify_mac1-with_macs :
      IsPrimitives c
      → (len covered ty : ℕ) (key : Key) (more : List (List ℕ))
      → length (concat (header ty ∷ more)) ≡ covered
      → covered + 32 ≡ len
      → verify_mac1 c len ty covered key (with_macs c key (header ty ∷ more)) ≡ ok tt
  unfolding with_macs concat
  verify_mac1-with_macs law len covered ty key more h whole =
      verify_mac1_body law len covered ty key (0 ∷ 0 ∷ 0 ∷ concat more) h whole

  pub type-with_macs :
      (key : Key) (ty : ℕ) (more : List (List ℕ))
      → get_or (with_macs c key (header ty ∷ more)) 0 0 ≡ ty
  unfolding with_macs concat
  type-with_macs key ty more = refl

  pub range-with_macs :
      (key : Key) (before : List (List ℕ)) (field : List ℕ) (after : List (List ℕ)) (from k : ℕ)
      → total before ≡ from
      → length field ≡ k
      → range from k (with_macs c key (before ++ field ∷ after)) ≡ field
  unfolding with_macs
  range-with_macs key before field after from k h full =
      let fields = concat (before ++ field ∷ after) in
      let message = fields ++ (mac c key (fields ∷ []) ++ replicate 16 0) in
      ap (λ n. range n k message) (sym h ∙ sym (length-concat before))
      ∙ range-concat before field after (mac c key (fields ∷ []) ++ replicate 16 0) k full

  -- The whole message: the fields, and sixteen bytes twice.
  pub length-with_macs :
      IsPrimitives c
      → (key : Key) (fields : List (List ℕ)) → length (with_macs c key fields) ≡ total fields + 32
  unfolding with_macs
  length-with_macs law key fields =
      length_with_macs law (total fields) key (concat fields) (length-concat fields)

  pub length-seal_field :
      IsPrimitives c
      → (key aad bytes : List ℕ) → length (seal_field c key aad bytes) ≡ length bytes + tag_len
  unfolding seal_field aead_seal aead_seal_nonce
  length-seal_field law key aad bytes =
      let sealed = c.aead.encrypt key (nonce_le 0) aad bytes in
      omega (
        arith,
        length-append sealed.0 sealed.1,
        law.is_aead.length-encrypt key (nonce_le 0) aad bytes,
        law.is_aead.length_tag key (nonce_le 0) aad bytes,
      )

  sealed_parts :
      IsPrimitives c
      → (key aad bytes : List ℕ) (count : ℕ) → length bytes ≡ count
      → let (body, tag) = aead_seal c.aead key 0 aad bytes in
        (take count (body ++ tag) ≡ body) × (range count tag_len (body ++ tag) ≡ tag)
  unfolding aead_seal aead_seal_nonce
  sealed_parts law key aad bytes count h =
      let sealed = c.aead.encrypt key (nonce_le 0) aad bytes in
      let full = law.is_aead.length-encrypt key (nonce_le 0) aad bytes ∙ h in
      (
        take_front count sealed.0 sealed.1 full,
        ap (take tag_len) (drop_front count sealed.0 sealed.1 full)
            ∙ take_short tag_len sealed.1
                (omega (arith, law.is_aead.length_tag key (nonce_le 0) aad bytes)),
      )

  -- What is sealed in a field is read from it.
  pub open_field-seal_field :
      IsPrimitives c
      → (key aad bytes : List ℕ) (count : ℕ) → length bytes ≡ count
      → open_field c key aad count (seal_field c key aad bytes) ≡ ok bytes
  unfolding seal_field open_field
  open_field-seal_field law key aad bytes count h =
      let (front, back) = sealed_parts law key aad bytes count h in
      rw (front, back, aead_open-aead_seal c.aead law.is_aead key 0 aad bytes) refl

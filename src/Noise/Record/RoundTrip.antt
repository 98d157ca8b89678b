-- ===== src/Noise/Record/RoundTrip.antt =====
-- What one side seals the other opens, and both stay in step.
use tailfeather.Common.{ℕ, ◌+◌, ◌-◌, ◌≤◌, ◌<◌, ◌≡◌, refl, ap, ap₂, ◌∙◌, arith, subst}
use tailfeather.Common.{false, ltb, List, [], ◌∷◌, ◌++◌, length, take, drop}
use tailfeather.Common.{length-append, take-append, drop-append, Result, ok}
use tailfeather.Common.Bytes.{be16}
use tailfeather.Wg.Budget.{tag_len}
use tailfeather.Wg.Error.{Error as WgError}
use tailfeather.Wg.Crypto.{
  Aead, IsAead, aead_seal_nonce, aead_open_nonce, aead_open_nonce-aead_seal_nonce,
}
use tailfeather.Noise.Record.{
  Error, Cipher, Session, nonce, advance, header_len, max_plaintext, max_counter, ciphertext_len,
  record_bytes, seal, finish_open, open_record, result_of,
}

not_ltb : (a b : ℕ) → b ≤ a → ltb a b ≡ false
not_ltb a b h = ground arith

advance_lem :
    (c : Cipher)
    → c.counter < max_counter
    → advance c ≡ (record c { counter = c.counter + 1 }, ok tt)
unfolding advance
advance_lem c h = ground arith

ciphertext_len-be16 : (n : ℕ) → tag_len ≤ n → n ≤ 4093 → ciphertext_len (4 ∷ be16 n) ≡ ok n
unfolding ciphertext_len be16
ciphertext_len-be16 n low high = ground arith

announced :
    (n : ℕ) (xs ys : List ℕ)
    → ciphertext_len (take 3 (((4 ∷ be16 n) ++ xs) ++ ys)) ≡ ciphertext_len (4 ∷ be16 n)
unfolding be16
announced n xs ys = refl

module _ (c : Aead) (law : IsAead c) where
  abbrev body_of : Session → List ℕ → List ℕ
  body_of s plaintext = (aead_seal_nonce c s.tx.key (nonce s.tx) [] plaintext).0

  abbrev tag_of : Session → List ℕ → List ℕ
  tag_of s plaintext = (aead_seal_nonce c s.tx.key (nonce s.tx) [] plaintext).1

  length-body_of :
      (s : Session) (plaintext : List ℕ) → length (body_of s plaintext) ≡ length plaintext
  unfolding aead_seal_nonce
  length-body_of s plaintext = law.length-encrypt s.tx.key (nonce s.tx) [] plaintext

  length-tag_of : (s : Session) (plaintext : List ℕ) → length (tag_of s plaintext) ≡ tag_len
  unfolding aead_seal_nonce
  length-tag_of s plaintext = law.length_tag s.tx.key (nonce s.tx) [] plaintext

  -- A body and a tag of the right length, opened by whoever holds the key and the counter.
  open_parts :
      (r : Session) (body tag out : List ℕ)
      → length tag ≡ tag_len
      → length body ≤ length out
      → open_record c r (body ++ tag) out
        ≡ finish_open c r
            (length body)
            ((aead_open_nonce c r.rx.key (nonce r.rx) [] body tag).0 ++ drop (length body) out)
            (aead_open_nonce c r.rx.key (nonce r.rx) [] body tag).1
  unfolding open_record
  open_parts r body tag out ht room =
      rw
        (
          long,
          len,
          take-append body tag,
          drop-append body tag,
          not_ltb (length out) (length body) room,
        )
        refl
    where
      long : ltb (length (body ++ tag)) tag_len ≡ false
      long = ground (arith, length-append body tag, ht)

      len : length (body ++ tag) - tag_len ≡ length body
      len = omega (arith, length-append body tag, ht)

  abbrev total_of : List ℕ → ℕ
  total_of plaintext = header_len + length plaintext + tag_len

  record_parts :
      (s : Session) (plaintext : List ℕ)
      → record_bytes c s plaintext
        ≡ (4 ∷ be16 (length plaintext + tag_len)) ++ (body_of s plaintext ++ tag_of s plaintext)
  unfolding record_bytes
  record_parts s plaintext = refl

  length-record_bytes :
      (s : Session) (plaintext : List ℕ) → length (record_bytes c s plaintext) ≡ total_of plaintext
  unfolding be16
  length-record_bytes s plaintext = omega (
    arith,
    ap length (record_parts s plaintext),
    length-append (4 ∷ be16 (length plaintext + tag_len))
        (body_of s plaintext ++ tag_of s plaintext),
    length-append (body_of s plaintext) (tag_of s plaintext),
    length-body_of s plaintext,
    length-tag_of s plaintext,
  )

  open_record-record_bytes :
      (s r : Session) (plaintext inbox : List ℕ)
      → r.rx ≡ s.tx
      → s.tx.counter < max_counter
      → length plaintext ≤ length inbox
      → open_record c r (drop 3 (record_bytes c s plaintext)) inbox ≡ (
        record r { rx = record s.tx { counter = s.tx.counter + 1 } },
        plaintext ++ drop (length plaintext) inbox,
        ok (length plaintext),
      )
  unfolding be16 finish_open
  open_record-record_bytes s r plaintext inbox step below room =
      ap (λ l. open_record c r (drop 3 l) inbox) (record_parts s plaintext)
      ∙ open_parts r (body_of s plaintext) (tag_of s plaintext) inbox (length-tag_of s plaintext)
          (omega (arith, length-body_of s plaintext))
      ∙ ap₂
          (λ (k : Cipher) n.
            finish_open c r n
              ((aead_open_nonce c k.key (nonce k) [] (body_of s plaintext) (tag_of s plaintext)).0
                ++ drop n inbox)
              (aead_open_nonce c k.key (nonce k) [] (body_of s plaintext) (tag_of s plaintext)).1)
          step (length-body_of s plaintext)
      ∙ ap
          (λ (o : List ℕ × Result WgError (Unit {0})).
            finish_open c r (length plaintext) (o.0 ++ drop (length plaintext) inbox) o.1)
          (aead_open_nonce-aead_seal_nonce c law s.tx.key (nonce s.tx) [] plaintext)
      ∙ ap
          (λ (p : Cipher × Result Error (Unit {0})). (
            record r { rx = p.0 },
            plaintext ++ drop (length plaintext) inbox,
            result_of p.1 (length plaintext),
          ))
          (ap advance step ∙ advance_lem s.tx below)

  -- A record that one side seals, with a counter below the last and room for it, begins with a header
  -- that announces the ciphertext behind it; the other side, whose receiving cipher is the sender's
  -- sending one, opens this ciphertext to the plaintext. Both ciphers then have the next counter.
  pub open_record-seal :
      (s r : Session) (plaintext out inbox : List ℕ)
      → r.rx ≡ s.tx
      → s.tx.counter < max_counter
      → length plaintext ≤ max_plaintext
      → header_len + length plaintext + tag_len ≤ length out
      → length plaintext ≤ length inbox
      → let total = header_len + length plaintext + tag_len in
        let (s', out', sealed) = seal c s plaintext out in
        let (r', inbox', opened) = open_record c r (drop header_len (take total out')) inbox in
        (sealed ≡ ok total)
        × (ciphertext_len (take header_len out') ≡ ok (length plaintext + tag_len))
        × (opened ≡ ok (length plaintext))
        × (inbox' ≡ plaintext ++ drop (length plaintext) inbox)
        × (s' ≡ record s { tx = record s.tx { counter = s.tx.counter + 1 } })
        × (r' ≡ record r { rx = record s.tx { counter = s.tx.counter + 1 } })
  unfolding seal
  open_record-seal s r plaintext out inbox step below short space room =
      rw
        (
          advance_lem s.tx below,
          not_ltb max_plaintext (length plaintext) short,
          not_ltb (length out) (header_len + length plaintext + tag_len) space,
          taken,
          open_record-record_bytes s r plaintext inbox step below room,
        )
        (refl, front, refl, refl, refl, refl)
    where
      taken :
          take
            (header_len + length plaintext + tag_len)
            (record_bytes c s plaintext ++ drop (header_len + length plaintext + tag_len) out)
          ≡ record_bytes c s plaintext
      taken =
          subst
            (λ n.
              take n
                (record_bytes c s plaintext ++ drop (header_len + length plaintext + tag_len) out)
              ≡ record_bytes c s plaintext)
            (length-record_bytes s plaintext)
            (take-append (record_bytes c s plaintext)
              (drop (header_len + length plaintext + tag_len) out))

      front :
          ciphertext_len (
            take 3
              (record_bytes c s plaintext ++ drop (header_len + length plaintext + tag_len) out))
          ≡ ok (length plaintext + tag_len)
      front =
          ap
            (λ l. ciphertext_len (take 3 (l ++ drop (header_len + length plaintext + tag_len) out)))
            (record_parts s plaintext)
          ∙ announced (length plaintext + tag_len) _ _
          ∙ ciphertext_len-be16 (length plaintext + tag_len) (omega arith) (omega arith)

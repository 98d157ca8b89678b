-- ===== src/Noise/Record/Stream.antt =====
-- A stream of records, each of them sealed by one side and opened by the other in turn.
use tailfeather.Common.{ℕ, ◌+◌, ◌≤◌, ◌<◌, ◌≡◌, refl, ap, ap₂, ◌∙◌, arith}
use tailfeather.Common.{
  List, [], ◌∷◌, ◌++◌, length, take, drop, take-append, Result, ok, err, ◌>>=◌,
}
use tailfeather.Wg.Budget.{tag_len}
use tailfeather.Wg.Crypto.{Aead, IsAead}
use tailfeather.Noise.Record.{
  Error, Session, header_len, max_message, max_plaintext, max_counter, seal, open_record,
}
use tailfeather.Noise.Record.RoundTrip.{open_record-seal}

pub data AllShort : List (List ℕ) → Type 0 where
  no_plaintexts : AllShort []
  one_plaintext :
      {p : List ℕ} {ps : List (List ℕ)} → length p ≤ max_plaintext → AllShort ps → AllShort (p ∷ ps)

abbrev pub arrived : List (List ℕ) → List (Result Error (List ℕ))
arrived [] = []
arrived (p ∷ ps) = ok p ∷ arrived ps

-- Both sides have one buffer each.
module _ (c : Aead) (out inbox : List ℕ) where
  -- What comes out of `open`, given what `seal` left.
  unfoldable pub receive :
      Session → Session × List ℕ × Result Error ℕ → Session × Session × Result Error (List ℕ)
  receive r (s', out', err e) = (s', r, err e)
  receive r (s', out', ok total) =
      let (r', inbox', opened) = open_record c r (drop header_len (take total out')) inbox in
      (s', r', opened >>= λ len. ok (take len inbox'))

  -- Send one plaintext: `seal` it, and `open` what stands behind the header.
  unfoldable pub carry : Session → Session → List ℕ → Session × Session × Result Error (List ℕ)
  unfolding receive
  carry s r plaintext = receive r (seal c s plaintext out)

  -- The plaintexts that arrive.
  unfoldable pub carry_all : Session → Session → List (List ℕ) → List (Result Error (List ℕ))
  unfolding carry
  carry_all s r [] = []
  carry_all s r (p ∷ ps) = let (s', r', got) = carry s r p in got ∷ carry_all s' r' ps

  carry_lem :
      IsAead c
      → (s r : Session) (p : List ℕ) → max_message ≤ length out
      → max_message ≤ length inbox
      → r.rx ≡ s.tx
      → s.tx.counter < max_counter
      → length p ≤ max_plaintext
      → carry s r p ≡ (
        record s { tx = record s.tx { counter = s.tx.counter + 1 } },
        record r { rx = record s.tx { counter = s.tx.counter + 1 } },
        ok p,
      )
  unfolding carry receive
  carry_lem law s r p big wide step below short =
      let (sealed, front, opened, text, s_next, r_next) =
        open_record-seal c law s r p out inbox step below short (omega arith) (omega arith) in
      ap (λ o. receive r ((seal c s p out).0, (seal c s p out).1, o)) sealed
      ∙ ap (λ o. ((seal c s p out).0, result.0, o >>= λ len. ok (take len result.1))) opened
      ∙ ap (λ l. ((seal c s p out).0, result.0, ok (take (length p) l))) text
      ∙ ap₂ (λ a b. (a, b, ok (take (length p) (p ++ drop (length p) inbox)))) s_next r_next
      ∙ ap
          (λ l. (
            record s { tx = record s.tx { counter = s.tx.counter + 1 } },
            record r { rx = record s.tx { counter = s.tx.counter + 1 } },
            ok l,
          ))
          (take-append p (drop (length p) inbox))
    where
      result : Session × List ℕ × Result Error ℕ
      result =
          open_record c r
            (drop header_len (take (header_len + length p + tag_len) (seal c s p out).1)) inbox

  -- From two sides in step, with buffers for the longest message, any number of plaintexts that a
  -- record can hold arrive in order and unchanged, as long as the counters last.
  pub carry_all-arrived :
      IsAead c
      → (s r : Session) (ps : List (List ℕ)) → max_message ≤ length out
      → max_message ≤ length inbox
      → r.rx ≡ s.tx
      → s.tx.counter + length ps ≤ max_counter
      → AllShort ps
      → carry_all s r ps ≡ arrived ps
  unfolding carry_all
  carry_all-arrived law s r [] big wide step below short = refl
  carry_all-arrived law s r (p ∷ ps) big wide step below (one_plaintext small short) =
      ap (λ (o : Session × Session × Result Error (List ℕ)). o.2 ∷ carry_all o.0 o.1 ps)
        (carry_lem law s r p big wide step (omega arith) small)
      ∙ ap (λ l. ok p ∷ l)
          (carry_all-arrived law (record s { tx = record s.tx { counter = s.tx.counter + 1 } })
            (record r { rx = record s.tx { counter = s.tx.counter + 1 } }) ps big wide refl
            (omega arith) short)

-- ===== src/Netmap/Scanner/Loop.antt =====
-- The loop of `push` in crates/ts-netmap/src/scanner.rs as it is written, against the rounds of
-- `settle` at each byte.
use tailfeather.Common.{ℕ, Bool, true, false, if◌then◌else◌, ◌≡◌, refl, sym}
use tailfeather.Common.{List, [], ◌∷◌, ◌++◌, Option, none, some, Result, ok, err, ◌>>=◌}
use mathlib.Core.Bool.{false≢true}
use tailfeather.Common.{
  Result-cases, inl, inr, zero, suc, ◌+◌, ◌*◌, ◌≤◌, length, arith, ◌∙◌, ap, length-append,
}
use tailfeather.Netmap.Error.{Error}
use tailfeather.Netmap.Scanner.Text.{Token, Scanner}
use tailfeather.Netmap.Scanner.Step.{step, settle, push}
use tailfeather.Netmap.Scanner.Progress.{left_after_value, after_value_consumes}

module _ {S : Type 0} (on_token : S → Token → Result Error S) where
  -- The loop of `push` as it is written, over the bytes that are left; `none` if the rounds are used
  -- up before they are.
  unfoldable pub push_loop : ℕ → Scanner → S → List ℕ → Option (Result Error (Scanner × S))
  push_loop rounds sc s [] = some (ok (sc, s))
  push_loop zero sc s (byte ∷ bytes) = none
  push_loop (suc rounds) sc s (byte ∷ bytes) = elim (step on_token sc s byte) [
    | err e ↦ some (err e)
    | ok w ↦ if w.2 then push_loop rounds w.0 w.1 bytes else push_loop rounds w.0 w.1 (byte ∷ bytes)
  ]

  -- What the loop does at a byte, by what its step gives.
  loop_failed :
      (rounds : ℕ) (sc : Scanner) (s : S) (byte : ℕ) (bytes : List ℕ) (e : Error)
      → step on_token sc s byte ≡ err e
      → push_loop (suc rounds) sc s (byte ∷ bytes) ≡ some (err e)
  unfolding push_loop
  loop_failed rounds sc s byte bytes e h = rw (h, push_loop) refl

  loop_stepped :
      (rounds : ℕ) (sc sc' : Scanner) (s s' : S) (byte : ℕ) (bytes : List ℕ) (consumed : Bool)
      → step on_token sc s byte ≡ ok (sc', s', consumed)
      → push_loop (suc rounds) sc s (byte ∷ bytes)
        ≡ push_loop rounds sc' s' (if consumed then bytes else byte ∷ bytes)
  unfolding push_loop
  loop_stepped rounds sc sc' s s' byte bytes true h = rw (h, push_loop) refl
  loop_stepped rounds sc sc' s s' byte bytes false h = rw (h, push_loop) refl

  settle_failed :
      (rounds : ℕ) (sc : Scanner) (s : S) (byte : ℕ) (e : Error)
      → step on_token sc s byte ≡ err e
      → settle on_token (suc rounds) sc s byte ≡ err e
  unfolding settle
  settle_failed rounds sc s byte e h = rw h refl

  settle_stepped :
      (rounds : ℕ) (sc sc' : Scanner) (s s' : S) (byte : ℕ) (consumed : Bool)
      → step on_token sc s byte ≡ ok (sc', s', consumed)
      → settle on_token (suc rounds) sc s byte
        ≡ (if consumed then ok (sc', s', true) else settle on_token rounds sc' s' byte)
  unfolding settle
  settle_stepped rounds sc sc' s s' byte consumed h = rw h refl

  push_next :
      (sc sc' : Scanner) (s s' : S) (byte : ℕ) (bytes : List ℕ) (consumed : Bool)
      → settle on_token 2 sc s byte ≡ ok (sc', s', consumed)
      → push on_token sc s (byte ∷ bytes) ≡ push on_token sc' s' bytes
  unfolding push
  push_next sc sc' s s' byte bytes consumed h = rw h refl

  push_failed :
      (sc : Scanner) (s : S) (byte : ℕ) (bytes : List ℕ) (e : Error)
      → settle on_token 2 sc s byte ≡ err e
      → push on_token sc s (byte ∷ bytes) ≡ err e
  unfolding push
  push_failed sc s byte bytes e h = rw h refl

  -- The byte at the head, where its first round leaves it.
  second_round :
      (rounds : ℕ) (sc sc' : Scanner) (s s' : S) (byte : ℕ) (bytes : List ℕ)
      → step on_token sc s byte ≡ ok (sc', s', false)
      → ((sc1 : Scanner) (s1 : S)
          → push_loop rounds sc1 s1 bytes ≡ some (push on_token sc1 s1 bytes))
      → push_loop (suc rounds) sc' s' (byte ∷ bytes) ≡ some (push on_token sc s (byte ∷ bytes))
  second_round rounds sc sc' s s' byte bytes h rest =
      elim (Result-cases (step on_token sc' s' byte)) [
        | inl ((sc1, s1, true), h') ↦
            loop_stepped rounds sc' sc1 s' s1 byte bytes true h'
            ∙ rest sc1 s1
            ∙ ap some (
                sym (
                  push_next sc sc1 s s1 byte bytes true (
                    settle_stepped 1 sc sc' s s' byte false h
                    ∙ settle_stepped 0 sc' sc1 s' s1 byte true h')))
        | inl ((sc1, s1, false), h') ↦ absurd (
            false≢true (
              after_value_consumes on_token sc' sc1 s' s1 byte false
                (left_after_value on_token sc sc' s s' byte h) h'))
        | inr (e, h') ↦
            loop_failed rounds sc' s' byte bytes e h'
            ∙ ap some (
                sym (
                  push_failed sc s byte bytes e
                    (settle_stepped 1 sc sc' s s' byte false h ∙ settle_failed 0 sc' s' byte e h')))
      ]

  loop_pushes :
      (bytes : List ℕ) (rounds : ℕ) (sc : Scanner) (s : S)
      → 2 * length bytes ≤ rounds
      → push_loop rounds sc s bytes ≡ some (push on_token sc s bytes)
  unfolding push_loop push
  loop_pushes [] rounds sc s h = refl
  loop_pushes (byte ∷ bytes) zero sc s h = absurd (omega (arith, h))
  loop_pushes (byte ∷ bytes) (suc zero) sc s h = absurd (omega (arith, h))
  loop_pushes (byte ∷ bytes) (suc (suc rounds)) sc s h =
      elim (Result-cases (step on_token sc s byte)) [
        | inl ((sc', s', true), h') ↦
            loop_stepped (suc rounds) sc sc' s s' byte bytes true h'
            ∙ loop_pushes bytes (suc rounds) sc' s' (omega (arith, h))
            ∙ ap some (
                sym (
                  push_next sc sc' s s' byte bytes true
                    (settle_stepped 1 sc sc' s s' byte true h')))
        | inl ((sc', s', false), h') ↦
            loop_stepped (suc rounds) sc sc' s s' byte bytes false h'
            ∙ second_round rounds sc sc' s s' byte bytes h'
                (λ sc1 s1. loop_pushes bytes rounds sc1 s1 (omega (arith, h)))
        | inr (e, h') ↦
            loop_failed (suc rounds) sc s byte bytes e h'
            ∙ ap some (sym (push_failed sc s byte bytes e (settle_failed 1 sc s byte e h')))
      ]

  -- `push` of a list in two pieces.
  push-append :
      (xs ys : List ℕ) (sc : Scanner) (s : S)
      → push on_token sc s (xs ++ ys)
        ≡ (push on_token sc s xs >>= λ (sc', s'). push on_token sc' s' ys)
  unfolding push
  push-append [] ys sc s = refl
  push-append (x ∷ xs) ys sc s = elim (Result-cases (settle on_token 2 sc s x)) [
    | inl ((sc', s', consumed), h) ↦ rw (h, push-append xs ys sc' s') refl
    | inr (e, h) ↦ rw h refl
  ]

  -- The loop over some bytes ends within two rounds for each, and gives what `push` gives of them in
  -- two pieces, wherever they are cut: the same tokens go to the consumer, and errors and states agree.
  pub push_loop_ends :
      (xs ys : List ℕ) (rounds : ℕ) (sc : Scanner) (s : S)
      → 2 * length xs + 2 * length ys ≤ rounds
      → push_loop rounds sc s (xs ++ ys)
        ≡ some (push on_token sc s xs >>= λ (sc', s'). push on_token sc' s' ys)
  push_loop_ends xs ys rounds sc s h =
      loop_pushes (xs ++ ys) rounds sc s (omega (arith, h, length-append xs ys))
      ∙ ap some (push-append xs ys sc s)

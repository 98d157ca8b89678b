-- ===== src/Netmap/Scanner/Progress.antt =====
-- Two rounds at a byte consume it.
use tailfeather.Common.{ℕ, Bool, true, false, if◌then◌else◌, ◌≡◌, refl, sym, subst}
use tailfeather.Common.{
  List, [], ◌∷◌, Option, none, some, Result, ok, err, Returns, Returns-ok, Returns-err,
  Returns-bind, Returns-map, Returns-then, Returns-if, Returns-ok_or, Returns-at,
}
use tailfeather.Netmap.Error.{Error, json}
use tailfeather.Netmap.Scanner.Text.{
  Token, Container, Scanner, State, expect_value, in_string, escape, unicode, in_number, in_literal,
  after_value, expect_colon, push_byte,
}
use tailfeather.Netmap.Scanner.Step.{
  literal_of, close_top, close_token, step_value, end_string, step_string, step_escape,
  step_unicode, emit_number, emit_literal, step_number, step_literal, step_after, step_colon,
  step_in, step, settle, Stepped, taken, give,
}

module _ {S : Type 0} (on_token : S → Token → Result Error S) where
  -- The byte was consumed, or the value before it has ended.
  Settles : Scanner × S × Bool → Type 0
  Settles (sc, s, true) = Unit
  Settles (sc, s, false) = sc.state ≡ after_value

  Consumed : Scanner × S × Bool → Type 0
  Consumed (sc, s, consumed) = consumed ≡ true

  done :
      (sc : Scanner) (s : S) → Returns Consumed (let r : Stepped on_token = ok (sc, s, true) in r)
  unfolding Consumed
  done sc s = Returns-ok Consumed _ (sc, s, true) refl refl

  failed : Returns Consumed (let r : Stepped on_token = err json in r)
  failed = Returns-err Consumed _ json refl

  taken-Consumed : (s : S) (r : Result Error Scanner) → Returns Consumed (taken on_token s r)
  taken-Consumed s r = Returns-then Consumed r _ (λ sc e. done sc s)

  give-Consumed :
      (s : S) (token : Token) (sc : Scanner) → Returns Consumed (give on_token s token true sc)
  give-Consumed s token sc = Returns-then Consumed (on_token s token) _ (λ s' e. done sc s')

  close-Consumed :
      (byte : ℕ) (sc : Scanner) (s : S) (stack : List Container)
      → Returns Consumed (close_top on_token byte sc s stack)
  unfolding close_top
  close-Consumed byte sc s [] = failed
  close-Consumed byte sc s (c ∷ rest) =
      Returns-ok_or Consumed (close_token byte c) json _ (λ token e. give-Consumed s token _)

  ruleset rules = (
    Returns-if, Returns-then, Returns-ok_or, done, failed, taken-Consumed, give-Consumed,
    close-Consumed,
  )

  step_value-Consumed :
      (byte : ℕ) (sc : Scanner) (s : S) → Returns Consumed (step_value on_token byte sc s)
  unfolding step_value
  step_value-Consumed byte sc s = search rules depth 20

  end_string-Consumed : (sc : Scanner) (s : S) → Returns Consumed (end_string on_token sc s)
  unfolding end_string
  end_string-Consumed sc s = search rules depth 20

  ended :
      (sc : Scanner) (s : S)
      → sc.state ≡ after_value
      → Returns Settles (let r : Stepped on_token = ok (sc, s, false) in r)
  unfolding Settles
  ended sc s h = Returns-ok Settles _ (sc, s, false) refl h

  step_string-Consumed :
      (byte : ℕ) (sc : Scanner) (s : S) → Returns Consumed (step_string on_token byte sc s)
  unfolding step_string
  step_string-Consumed byte sc s = search (rules, closing sc.pending_surrogate) depth 20
    where
      closing :
          (pending : Option ℕ)
          → Returns Consumed
              (elim pending [ some high ↦ err json | none ↦ end_string on_token sc s ])
      closing (some high) = failed
      closing none = end_string-Consumed sc s

  step_escape-Consumed :
      (byte : ℕ) (sc : Scanner) (s : S) → Returns Consumed (step_escape on_token byte sc s)
  unfolding step_escape
  step_escape-Consumed byte sc s = search rules depth 20

  step_unicode-Consumed :
      (seen byte : ℕ) (sc : Scanner) (s : S)
      → Returns Consumed (step_unicode on_token seen byte sc s)
  unfolding step_unicode
  step_unicode-Consumed seen byte sc s = search rules depth 20

  step_after-Consumed :
      (byte : ℕ) (sc : Scanner) (s : S) → Returns Consumed (step_after on_token byte sc s)
  unfolding step_after
  step_after-Consumed byte sc s = search rules depth 20

  step_colon-Consumed :
      (byte : ℕ) (sc : Scanner) (s : S) → Returns Consumed (step_colon on_token byte sc s)
  unfolding step_colon
  step_colon-Consumed byte sc s = search rules depth 20

  Consumed-Settles : (a : Scanner × S × Bool) → Consumed a → Settles a
  unfolding Consumed Settles
  Consumed-Settles (sc, s, true) h = tt
  Consumed-Settles (sc, s, false) h = cc

  weaken : (r : Stepped on_token) → Returns Consumed r → Returns Settles r
  weaken r h = Returns-map Consumed Settles r Consumed-Settles h

  emit_number-Settles : (sc : Scanner) (s : S) → Returns Settles (emit_number on_token sc s false)
  unfolding emit_number
  emit_number-Settles sc s =
      Returns-if Settles _ _ _ (Returns-then Settles (on_token s _) _ (λ s' e. ended _ s' refl))
        (weaken _ failed)

  emit_literal-Settles : (sc : Scanner) (s : S) → Returns Settles (emit_literal on_token sc s false)
  unfolding emit_literal
  emit_literal-Settles sc s =
      Returns-ok_or Settles (literal_of sc.buffer) json _
        (λ token e. Returns-then Settles (on_token s token) _ (λ s' e'. ended _ s' refl))

  step_number-Settles :
      (byte : ℕ) (sc : Scanner) (s : S) → Returns Settles (step_number on_token byte sc s)
  unfolding step_number
  step_number-Settles byte sc s =
      Returns-if Settles _ _ _ (weaken _ (taken-Consumed s (push_byte byte sc)))
        (emit_number-Settles sc s)

  step_literal-Settles :
      (byte : ℕ) (sc : Scanner) (s : S) → Returns Settles (step_literal on_token byte sc s)
  unfolding step_literal
  step_literal-Settles byte sc s =
      Returns-if Settles _ _ _ (weaken _ (taken-Consumed s (push_byte byte sc)))
        (emit_literal-Settles sc s)

  step_in-Settles :
      (state : State) (byte : ℕ) (sc : Scanner) (s : S)
      → Returns Settles (step_in on_token state byte sc s)
  unfolding step_in
  step_in-Settles expect_value byte sc s = weaken _ (step_value-Consumed byte sc s)
  step_in-Settles in_string byte sc s = weaken _ (step_string-Consumed byte sc s)
  step_in-Settles escape byte sc s = weaken _ (step_escape-Consumed byte sc s)
  step_in-Settles (unicode seen) byte sc s = weaken _ (step_unicode-Consumed seen byte sc s)
  step_in-Settles in_number byte sc s = step_number-Settles byte sc s
  step_in-Settles in_literal byte sc s = step_literal-Settles byte sc s
  step_in-Settles after_value byte sc s = weaken _ (step_after-Consumed byte sc s)
  step_in-Settles expect_colon byte sc s = weaken _ (step_colon-Consumed byte sc s)

  settle-Consumed :
      (sc : Scanner) (s : S) (byte : ℕ) → Returns Consumed (settle on_token 2 sc s byte)
  unfolding settle step step_in Settles Consumed
  settle-Consumed sc s byte =
      Returns-bind Settles Consumed (step on_token sc s byte) _ (step_in-Settles sc.state byte sc s)
        second
    where
      third :
          (a : Scanner × S × Bool)
          → Consumed a
          → Returns {E = Error} Consumed (if a.2 then ok (a.0, a.1, true) else ok (a.0, a.1, false))
      third (sc2, s2, true) h = done sc2 s2
      third (sc2, s2, false) h = Returns-ok Consumed _ (sc2, s2, false) refl h

      second :
          (a : Scanner × S × Bool)
          → Settles a
          → Returns {E = Error} Consumed
              (if a.2 then ok (a.0, a.1, true) else settle on_token 1 a.0 a.1 byte)
      second (sc1, s1, true) h = done sc1 s1
      second (sc1, s1, false) h =
          Returns-bind Consumed Consumed (step_in on_token sc1.state byte sc1 s1) _
            (subst (λ state. Returns Consumed (step_in on_token state byte sc1 s1)) (sym h)
              (step_after-Consumed byte sc1 s1))
            third

  -- Where two rounds of the loop of `push` succeed at a byte, the byte has been consumed: the loop
  -- goes round at most twice.
  pub settle_consumes :
      (sc : Scanner) (s : S) (byte : ℕ) (sc' : Scanner) (s' : S) (consumed : Bool)
      → settle on_token 2 sc s byte ≡ ok (sc', s', consumed)
      → consumed ≡ true
  unfolding Consumed
  settle_consumes sc s byte sc' s' consumed h =
      Returns-at Consumed (settle on_token 2 sc s byte) (sc', s', consumed)
        (settle-Consumed sc s byte) h

  step-Settles : (sc : Scanner) (s : S) (byte : ℕ) → Returns Settles (step on_token sc s byte)
  unfolding step
  step-Settles sc s byte = step_in-Settles sc.state byte sc s

  -- What a first round that leaves the byte leads to.
  step_again :
      (sc : Scanner) (s : S) (byte : ℕ)
      → sc.state ≡ after_value
      → Returns Consumed (step on_token sc s byte)
  unfolding step step_in
  step_again sc s byte h =
      subst (λ state. Returns Consumed (step_in on_token state byte sc s)) (sym h)
        (step_after-Consumed byte sc s)

  waits : (sc : Scanner) (s : S) → Settles (sc, s, false) → sc.state ≡ after_value
  unfolding Settles
  waits sc s h = h

  consumes : (sc : Scanner) (s : S) (consumed : Bool) → Consumed (sc, s, consumed) → consumed ≡ true
  unfolding Consumed
  consumes sc s consumed h = h

  -- A step that leaves its byte has ended a value.
  pub left_after_value :
      (sc sc' : Scanner) (s s' : S) (byte : ℕ)
      → step on_token sc s byte ≡ ok (sc', s', false)
      → sc'.state ≡ after_value
  left_after_value sc sc' s s' byte h =
      waits sc' s'
        (Returns-at Settles (step on_token sc s byte) (sc', s', false) (step-Settles sc s byte) h)

  -- And there the next step does not.
  pub after_value_consumes :
      (sc sc' : Scanner) (s s' : S) (byte : ℕ) (consumed : Bool)
      → sc.state ≡ after_value
      → step on_token sc s byte ≡ ok (sc', s', consumed)
      → consumed ≡ true
  after_value_consumes sc sc' s s' byte consumed e h =
      consumes sc' s' consumed (
        Returns-at Consumed (step on_token sc s byte) (sc', s', consumed) (step_again sc s byte e)
          h)

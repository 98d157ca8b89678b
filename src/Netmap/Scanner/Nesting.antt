-- ===== src/Netmap/Scanner/Nesting.antt =====
-- The brackets among the tokens nest, and a document that ends has closed them all.
use tailfeather.Common.{
  ℕ, zero, suc, ◌%◌, ◌^◌, ◌*◌, ◌+◌, Bool, true, false, if◌then◌else◌, ◌≡◌, refl, sym, ap, ◌∙◌,
  subst,
}
use tailfeather.Common.{
  List, [], ◌∷◌, ◌++◌, Option, none, some, Result, ok, err, ◌>>=◌, Returns, Returns-bind,
  Returns-ok, Returns-err, Returns-then, Returns-if, Returns-ok_or, Returns-at, ltb,
}
use tailfeather.Netmap.Error.{Error, json}
use tailfeather.Netmap.Scanner.Text.{
  Token, Container, Scanner, State, expect_value, in_string, escape, unicode, in_number, in_literal,
  after_value, expect_colon, finish_escape, new_scanner,
}
use tailfeather.Netmap.Scanner.Step.{
  close_top, close_token, step_value, open_container, end_string, step_string, step_escape,
  hex_digit, step_unicode, emit_number, emit_literal, step_number, step_literal, step_after,
  step_colon, step_in, step, settle, push, flush, finish, is_empty, taken, give,
}
use tailfeather.Netmap.Scanner.Brackets.{
  Keeps, Keeps-begin, Keeps-finish_escape, Keeps-push_byte, Keeps-set_expecting_key, Nests, Opens,
  Opens-open_container, bracket_of, kinds, nest, nest-close_token, nest-literal_of, nest_all-append,
  nest_all,
}

-- The consumer that keeps every token.
abbrev pub collect : List Token → Token → Result Error (List Token)
collect tokens token = ok (tokens ++ (token ∷ []))

abbrev Collected : Type 0
Collected = Result Error (Scanner × List Token × Bool)

module _ (sc : Scanner) (tokens : List Token)
    (nested : nest_all [] tokens ≡ some (kinds sc.stack)) where
  kept :
      (sc' : Scanner) (b : Bool)
      → Keeps sc sc'
      → Returns Nests (let r : Collected = ok (sc', tokens, b) in r)
  unfolding Nests Keeps
  kept sc' b h = Returns-ok Nests _ _ refl (nested ∙ (λ i. some (sym h i)))

  failed : Returns Nests (let r : Collected = err json in r)
  failed = Returns-err Nests _ json refl

  gave :
      (token : Token) (b : Bool) (sc' : Scanner)
      → nest (kinds sc.stack) token ≡ some (kinds sc'.stack)
      → Returns Nests (give collect tokens token b sc')
  unfolding Nests
  gave token b sc' h = Returns-ok Nests _ _ refl (nest_all-append tokens [] token ∙ rw nested h)

  taken-Nests :
      (r : Result Error Scanner) → Returns (Keeps sc) r → Returns Nests (taken collect tokens r)
  taken-Nests r h = Returns-bind (Keeps sc) Nests r _ h (λ sc' e. kept sc' true e)

  close-Nests : (byte : ℕ) → Returns Nests (close_top collect byte sc tokens sc.stack)
  unfolding close_top kinds
  close-Nests byte = on_stack sc.stack refl
    where
      on_stack :
          (stack : List Container)
          → sc.stack ≡ stack
          → Returns Nests (close_top collect byte sc tokens stack)
      on_stack [] e = failed
      on_stack (c ∷ rest) e = Returns-ok_or Nests (close_token byte c) json _ (λ token t.
          gave token true
            (record sc {
              stack = rest;
              state = after_value;
              done = if is_empty rest then true else sc.done;
            })
            (ap (λ cs. nest (kinds cs) token) e ∙ nest-close_token byte c (kinds rest) token t))

  next-Nests :
      (r : Result Error Scanner) (f : Scanner → Collected)
      → Returns (Keeps sc) r
      → ((sc' : Scanner) → Keeps sc sc' → Returns Nests (f sc'))
      → Returns Nests (r >>= f)
  next-Nests r f h next = Returns-bind (Keeps sc) Nests r f h next

  ruleset rules = (
    Returns-if, Returns-then, Returns-ok_or, kept, failed, gave, taken-Nests, close-Nests,
    next-Nests, nest-literal_of, Keeps-begin, Keeps-push_byte, Keeps-finish_escape,
    Keeps-set_expecting_key,
  )

  step_escape-Nests : (byte : ℕ) → Returns Nests (step_escape collect byte sc tokens)
  unfolding step_escape Keeps
  step_escape-Nests byte = search rules depth 20

  step_unicode-Nests : (seen byte : ℕ) → Returns Nests (step_unicode collect seen byte sc tokens)
  unfolding step_unicode Keeps
  step_unicode-Nests seen byte = Returns-ok_or Nests (hex_digit byte) json _ (λ digit e.
      Returns-if Nests (ltb seen 3) _ _ (kept _ true refl)
        (taken-Nests (finish_escape (next digit)) (Keeps-finish_escape (next digit))))
    where
      next : ℕ → Scanner
      next digit = record sc { code_point = sc.code_point * 16 % 2 ^ 32 + digit }

  step_number-Nests : (byte : ℕ) → Returns Nests (step_number collect byte sc tokens)
  unfolding step_number emit_number nest
  step_number-Nests byte = search rules depth 20

  step_literal-Nests : (byte : ℕ) → Returns Nests (step_literal collect byte sc tokens)
  unfolding step_literal emit_literal
  step_literal-Nests byte = search rules depth 20

  step_after-Nests : (byte : ℕ) → Returns Nests (step_after collect byte sc tokens)
  unfolding step_after Keeps
  step_after-Nests byte = search rules depth 20

  step_colon-Nests : (byte : ℕ) → Returns Nests (step_colon collect byte sc tokens)
  unfolding step_colon Keeps
  step_colon-Nests byte = search rules depth 20

  open-Nests :
      (c : Container) (token : Token)
      → nest (kinds sc.stack) token ≡ some (bracket_of c ∷ kinds sc.stack)
      → Returns Nests (open_container c sc >>= λ sc'. give collect tokens token true sc')
  unfolding Opens
  open-Nests c token h =
      Returns-bind (Opens c sc) Nests (open_container c sc) _ (Opens-open_container c sc)
        (λ sc' e. gave token true sc' (h ∙ (λ i. some (sym e i))))

  step_value-Nests : (byte : ℕ) → Returns Nests (step_value collect byte sc tokens)
  unfolding step_value Keeps nest bracket_of
  step_value-Nests byte = search (rules, open-Nests) depth 20

  end_string-Nests : Returns Nests (end_string collect sc tokens)
  unfolding end_string Keeps nest
  end_string-Nests =
      Returns-if Nests _ _ _
        (Returns-if Nests _ _ _
          (gave _ true _ (λ i. some (sym (Keeps-set_expecting_key false sc) i)))
          (gave _ true _ refl))
        failed

  step_string-Nests : (byte : ℕ) → Returns Nests (step_string collect byte sc tokens)
  unfolding step_string Keeps
  step_string-Nests byte = search (rules, closing sc.pending_surrogate) depth 20
    where
      closing :
          (pending : Option ℕ)
          → Returns Nests
              (elim pending [ some high ↦ err json | none ↦ end_string collect sc tokens ])
      closing (some high) = failed
      closing none = end_string-Nests

  step_in-Nests : (state : State) (byte : ℕ) → Returns Nests (step_in collect state byte sc tokens)
  unfolding step_in
  step_in-Nests expect_value byte = step_value-Nests byte
  step_in-Nests in_string byte = step_string-Nests byte
  step_in-Nests escape byte = step_escape-Nests byte
  step_in-Nests (unicode seen) byte = step_unicode-Nests seen byte
  step_in-Nests in_number byte = step_number-Nests byte
  step_in-Nests in_literal byte = step_literal-Nests byte
  step_in-Nests after_value byte = step_after-Nests byte
  step_in-Nests expect_colon byte = step_colon-Nests byte

  emit_literal-Nests : (consumed : Bool) → Returns Nests (emit_literal collect sc tokens consumed)
  unfolding emit_literal Keeps
  emit_literal-Nests consumed = search rules depth 20

  flush-Nests : (state : State) → Returns Nests (flush collect state sc tokens)
  unfolding flush emit_number nest Keeps
  flush-Nests in_number = search rules depth 20
  flush-Nests in_literal = emit_literal-Nests true
  flush-Nests expect_value = kept sc true refl
  flush-Nests after_value = kept sc true refl
  flush-Nests in_string = failed
  flush-Nests escape = failed
  flush-Nests (unicode seen) = failed
  flush-Nests expect_colon = failed

settle-Nests :
    (rounds : ℕ) (sc : Scanner) (tokens : List Token) (byte : ℕ)
    → nest_all [] tokens ≡ some (kinds sc.stack)
    → Returns Nests (settle collect rounds sc tokens byte)
unfolding settle step Nests
settle-Nests zero sc tokens byte h = Returns-ok Nests _ (sc, tokens, false) refl h
settle-Nests (suc rounds) sc tokens byte h =
    Returns-bind Nests Nests (step_in collect sc.state byte sc tokens) _
      (step_in-Nests sc tokens h sc.state byte)
      (λ a k.
        Returns-if Nests a.2 _ _ (Returns-ok Nests _ _ refl k) (settle-Nests rounds a.0 a.1 byte k))

NestsAll : Scanner × List Token → Type 0
NestsAll (sc, tokens) = nest_all [] tokens ≡ some (kinds sc.stack)

push-NestsAll :
    (bytes : List ℕ) (sc : Scanner) (tokens : List Token)
    → nest_all [] tokens ≡ some (kinds sc.stack)
    → Returns NestsAll (push collect sc tokens bytes)
unfolding push NestsAll Nests
push-NestsAll [] sc tokens h = Returns-ok NestsAll _ (sc, tokens) refl h
push-NestsAll (byte ∷ bytes) sc tokens h =
    Returns-bind Nests NestsAll (settle collect 2 sc tokens byte) _
      (settle-Nests 2 sc tokens byte h) (λ a k. push-NestsAll bytes a.0 a.1 k)

Closed : Scanner × List Token → Type 0
Closed (sc, tokens) = nest_all [] tokens ≡ some []

finish-Closed :
    (sc : Scanner) (tokens : List Token)
    → nest_all [] tokens ≡ some (kinds sc.stack)
    → Returns Closed (finish collect sc tokens)
unfolding finish Closed Nests kinds
finish-Closed sc tokens h =
    Returns-bind Nests Closed (flush collect sc.state sc tokens) _
      (flush-Nests sc tokens h sc.state) (λ a k. on_stack a a.0.stack refl k)
  where
    on_stack :
        (a : Scanner × List Token × Bool) (stack : List Container)
        → a.0.stack ≡ stack
        → nest_all [] a.1 ≡ some (kinds a.0.stack)
        → Returns {E = Error} Closed (if is_empty a.0.stack then ok (a.0, a.1) else err json)
    on_stack a [] e k =
        subst
          (λ stack. Returns {E = Error} Closed (if is_empty stack then ok (a.0, a.1) else err json))
          (sym e) (Returns-ok Closed _ (a.0, a.1) refl (k ∙ (λ i. some (kinds (e i)))))
    on_stack a (c ∷ rest) e k = rw e (Returns-err Closed _ json refl)

-- Where a whole document is scanned without an error, in bytes of any kind, the brackets among the
-- tokens given to the consumer nest, each closed by one of its kind, and all are closed.
pub scan_nested :
    (bytes : List ℕ) (sc : Scanner) (tokens : List Token)
    → (push collect new_scanner [] bytes >>= λ (sc', tokens'). finish collect sc' tokens')
      ≡ ok (sc, tokens)
    → nest_all [] tokens ≡ some []
unfolding Closed NestsAll new_scanner nest_all kinds
scan_nested bytes sc tokens h =
    Returns-at Closed _ (sc, tokens)
      (Returns-bind NestsAll Closed (push collect new_scanner [] bytes) _
        (push-NestsAll bytes new_scanner [] refl) (λ a k. finish-Closed a.0 a.1 k))
      h

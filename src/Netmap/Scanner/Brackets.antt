-- ===== src/Netmap/Scanner/Brackets.antt =====
-- The brackets that tokens open and close, and what the scanner does to its stack.
use tailfeather.Common.{ℕ, ◌%◌, ◌^◌, Bool, true, false, if◌then◌else◌, ◌≡◌, refl, ◌∙◌, subst}
use tailfeather.Common.{
  List, [], ◌∷◌, ◌++◌, Option, none, some, ok, Returns, Returns-bind, Returns-ok, Returns-err,
  Returns-map, Returns-then, Returns-if, Returns-ok_or, Option-cases, inl, inr,
}
use tailfeather.Netmap.Error.{json, full}
use tailfeather.Netmap.Scanner.Text.{
  Token, start_object, end_object, start_array, end_array, null, key, str, int, bool, Container,
  object, array, Scanner, State, expect_value, in_string, is_high, set_expecting_key, finish_escape,
  push_byte, push_all, scalar_of, from_u32, encode_utf8,
}
use tailfeather.Netmap.Scanner.Step.{literal_of, close_token, open_container, begin}

pub data Bracket : Type 0 where
  brace square : Bracket

unfoldable pub bracket_of : Container → Bracket
bracket_of (object expecting) = brace
bracket_of array = square

-- The open brackets after one token, innermost first.
unfoldable pub nest : List Bracket → Token → Option (List Bracket)
nest opened start_object = some (brace ∷ opened)
nest opened start_array = some (square ∷ opened)
nest (brace ∷ opened) end_object = some opened
nest (square ∷ opened) end_array = some opened
nest [] end_object = none
nest (square ∷ opened) end_object = none
nest [] end_array = none
nest (brace ∷ opened) end_array = none
nest opened null = some opened
nest opened (key text) = some opened
nest opened (str text) = some opened
nest opened (int n) = some opened
nest opened (bool b) = some opened

abbrev pub and_then :
    Option (List Bracket) → (List Bracket → Option (List Bracket)) → Option (List Bracket)
and_then none f = none
and_then (some opened) f = f opened

-- The same after many tokens; `none` where a bracket closes none, or one of another kind.
unfoldable pub nest_all : List Bracket → List Token → Option (List Bracket)
unfolding nest
nest_all opened [] = some opened
nest_all opened (token ∷ tokens) = and_then (nest opened token) (λ opened'. nest_all opened' tokens)

and_then-some : (o : Option (List Bracket)) → and_then o some ≡ o
and_then-some none = refl
and_then-some (some opened) = refl

pub nest_all-append :
    (tokens : List Token) (opened : List Bracket) (token : Token)
    → nest_all opened (tokens ++ (token ∷ []))
      ≡ and_then (nest_all opened tokens) (λ opened'. nest opened' token)
unfolding nest_all
nest_all-append [] opened token = and_then-some (nest opened token)
nest_all-append (t ∷ ts) opened token = elim (Option-cases (nest opened t)) [
  | inl n ↦ rw n refl
  | inr (o, n) ↦ rw n (nest_all-append ts o token)
]

unfoldable pub kinds : List Container → List Bracket
kinds [] = []
kinds (c ∷ cs) = bracket_of c ∷ kinds cs

unfoldable pub Nests : Scanner × List Token × Bool → Type 0
Nests (sc, tokens, consumed) = nest_all [] tokens ≡ some (kinds sc.stack)

-- The scanner has this stack, up to which of an object's strings comes next.
unfoldable pub Keeps : Scanner → Scanner → Type 0
Keeps sc sc' = kinds sc'.stack ≡ kinds sc.stack

pub Keeps-push_byte : (byte : ℕ) (sc : Scanner) → Returns (Keeps sc) (push_byte byte sc)
unfolding push_byte Keeps
Keeps-push_byte byte sc =
    Returns-if (Keeps sc) _ _ _ (Returns-err (Keeps sc) _ full refl)
      (Returns-ok (Keeps sc) _ _ refl refl)

Keeps-push_all : (bytes : List ℕ) (sc : Scanner) → Returns (Keeps sc) (push_all bytes sc)
unfolding push_all Keeps
Keeps-push_all [] sc = Returns-ok (Keeps sc) _ sc refl refl
Keeps-push_all (byte ∷ bytes) sc =
    Returns-bind (Keeps sc) (Keeps sc) (push_byte byte sc) _ (Keeps-push_byte byte sc) (λ sc' h.
      Returns-map (Keeps sc') (Keeps sc) (push_all bytes sc') (λ sc2 h2. h2 ∙ h)
        (Keeps-push_all bytes sc'))

pub Keeps-finish_escape : (sc : Scanner) → Returns (Keeps sc) (finish_escape sc)
unfolding finish_escape Keeps
Keeps-finish_escape sc =
    Returns-if (Keeps sc) (is_high (sc.code_point % 2 ^ 16)) _ _
      (Returns-ok (Keeps sc) _ _ refl refl)
      (Returns-then (Keeps sc) (scalar_of (sc.code_point % 2 ^ 16) sc.pending_surrogate) _
        (λ scalar e. Returns-ok_or (Keeps sc) (from_u32 scalar) json _ (λ character e'.
          Returns-bind (Keeps sc) (Keeps sc) (push_all (encode_utf8 character) _) _
            (Keeps-push_all (encode_utf8 character) (record sc { pending_surrogate = none }))
            (λ sc' h. Returns-ok (Keeps sc) (ok (record sc' { state = in_string })) _ refl h))))

pub Keeps-begin :
    (byte : ℕ) (state : State) (sc : Scanner) → Returns (Keeps sc) (begin byte state sc)
unfolding begin Keeps
Keeps-begin byte state sc =
    Returns-bind (Keeps sc) (Keeps sc) (push_byte byte (record sc { buffer = [] })) _
      (Keeps-push_byte byte (record sc { buffer = [] }))
      (λ sc' h. Returns-ok (Keeps sc) (ok (record sc' { state = state })) _ refl h)

pub Keeps-set_expecting_key :
    (expecting : Bool) (sc : Scanner) → Keeps sc (set_expecting_key expecting sc)
unfolding Keeps set_expecting_key kinds bracket_of
Keeps-set_expecting_key expecting sc = on_stack sc.stack refl
  where
    on_stack :
        (stack : List Container)
        → sc.stack ≡ stack
        → kinds (set_expecting_key expecting sc).stack ≡ kinds sc.stack
    on_stack [] e = rw e refl
    on_stack (object old ∷ rest) e = rw e refl
    on_stack (array ∷ rest) e = rw e refl

-- The token of a chain of tests: the first test's, or one of the rest.
either_token :
    (P : Token → Type 0) (b : Bool) (first : Token) (rest : Option Token) (token : Token)
    → P first
    → (rest ≡ some token → P token)
    → (if b then some first else rest) ≡ some token
    → P token
either_token P true first rest token h others e = let same : first ≡ token = cc in subst P same h
either_token P false first rest token h others e = others e

no_token : (P : Token → Type 0) (token : Token) → none ≡ some token → P token
no_token P token e = subst (λ o. elim o [ none ↦ Unit {0} | some t ↦ P t ]) e tt

pub nest-close_token :
    (byte : ℕ) (c : Container) (opened : List Bracket) (token : Token)
    → close_token byte c ≡ some token
    → nest (bracket_of c ∷ opened) token ≡ some opened
unfolding close_token nest bracket_of
nest-close_token byte (object expecting) opened token h =
    either_token P _ end_object none token refl (no_token P token) h
  where
    P : Token → Type 0
    P t = nest (brace ∷ opened) t ≡ some opened
nest-close_token byte array opened token h =
    either_token P _ end_array none token refl (no_token P token) h
  where
    P : Token → Type 0
    P t = nest (square ∷ opened) t ≡ some opened

pub nest-literal_of :
    (text : List ℕ) (opened : List Bracket) (token : Token)
    → literal_of text ≡ some token
    → nest opened token ≡ some opened
unfolding literal_of nest
nest-literal_of text opened token h =
    either_token P _ (bool true) _ token refl
      (either_token P _ (bool false) _ token refl
        (either_token P _ null none token refl (no_token P token)))
      h
  where
    P : Token → Type 0
    P t = nest opened t ≡ some opened

unfoldable pub Opens : Container → Scanner → Scanner → Type 0
Opens c sc sc' = kinds sc'.stack ≡ bracket_of c ∷ kinds sc.stack

pub Opens-open_container :
    (c : Container) (sc : Scanner) → Returns (Opens c sc) (open_container c sc)
unfolding open_container Opens kinds
Opens-open_container c sc = Returns-if (Opens c sc) _ _ _ (Returns-err (Opens c sc) _ full refl) (
    Returns-ok (Opens c sc) (ok (record sc { stack = c ∷ sc.stack; state = expect_value })) _ refl
      refl)

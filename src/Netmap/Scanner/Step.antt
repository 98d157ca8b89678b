-- ===== src/Netmap/Scanner/Step.antt =====
-- One byte at a time: `step`, and `push` and `finish` over it.
use tailfeather.Common.{
  ℕ, zero, suc, ◌+◌, ◌-◌, ◌*◌, ◌%◌, ◌^◌, Bool, true, false, ◌&&◌, ◌||◌, ltb, leb, ◌==◌,
  if◌then◌else◌, bytes_eq,
}
use tailfeather.Common.{List, [], ◌∷◌, length, Option, none, some, Result, ok, err, ◌>>=◌, ok_or}
use tailfeather.Common.Text.{is_utf8}
use tailfeather.Netmap.Error.{Error, json, full}
use tailfeather.Netmap.Scanner.Text.{
  max_depth, Token, start_object, end_object, start_array, end_array, null, key, str, int, bool, ℤ,
  pos, Container, object, array, State, expect_value, in_string, escape, unicode, in_number,
  in_literal, after_value, expect_colon, Scanner, is_whitespace, is_digit, is_alphabetic, push_byte,
  finish_escape, parse_i64, set_expecting_key, is_key,
}

-- The token of a literal.
unfoldable pub literal_of : List ℕ → Option Token
unfolding bytes_eq
literal_of text =
    if bytes_eq text (b't' ∷ b'r' ∷ b'u' ∷ b'e' ∷ [])
    then some (bool true)
    else if bytes_eq text (b'f' ∷ b'a' ∷ b'l' ∷ b's' ∷ b'e' ∷ [])
    then some (bool false)
    else if bytes_eq text (b'n' ∷ b'u' ∷ b'l' ∷ b'l' ∷ [])
    then some null
    else none

-- The value of a number's text: 0 where it is no integer of 64 bits.
unfoldable pub int_of : List ℕ → ℤ
unfolding parse_i64
int_of text = elim (parse_i64 text) [ some n ↦ n | none ↦ pos 0 ]

-- The byte that a one-letter escape stands for.
unfoldable pub unescape : ℕ → Option ℕ
unescape byte =
    if byte == b'"' || (byte == b'\\' || byte == b'/')
    then some byte
    else if byte == b'b'
    then some 0x08
    else if byte == b'f'
    then some 0x0c
    else if byte == b'n'
    then some 10
    else if byte == b'r'
    then some 13
    else if byte == b't'
    then some 9
    else none

unfoldable pub hex_digit : ℕ → Option ℕ
hex_digit byte =
    if is_digit byte
    then some (byte - b'0')
    else if leb b'a' byte && leb byte b'f'
    then some (byte - b'a' + 10)
    else if leb b'A' byte && leb byte b'F'
    then some (byte - b'A' + 10)
    else none

abbrev pub in_a_number : ℕ → Bool
in_a_number b = is_digit b || (b == b'-' || (b == b'+' || (b == b'.' || (b == b'e' || b == b'E'))))

unfoldable pub open_container : Container → Scanner → Result Error Scanner
open_container c sc =
    if leb max_depth (length sc.stack)
    then err full
    else ok (record sc { stack = c ∷ sc.stack; state = expect_value })

abbrev pub is_empty : List Container → Bool
is_empty [] = true
is_empty (c ∷ rest) = false

-- The token of a bracket that closes this container.
unfoldable pub close_token : ℕ → Container → Option Token
close_token byte (object expecting) = if byte == b'}' then some end_object else none
close_token byte array = if byte == b']' then some end_array else none

-- Begin a number or a literal with this byte.
unfoldable pub begin : ℕ → State → Scanner → Result Error Scanner
unfolding push_byte
begin byte state sc =
    push_byte byte (record sc { buffer = [] }) >>= λ sc'. ok (record sc' { state = state })

module _ {S : Type 0} (on_token : S → Token → Result Error S) where
  -- The scanner and the consumer afterwards, and whether the byte was consumed.
  abbrev pub Stepped : Type 0
  Stepped = Result Error (Scanner × S × Bool)

  -- A scanner that has taken the byte and has no token to give.
  abbrev pub taken : S → Result Error Scanner → Stepped
  taken s r = r >>= λ sc. ok (sc, s, true)

  -- Give a token, then go on from this scanner.
  abbrev pub give : S → Token → Bool → Scanner → Stepped
  give s token consumed sc = on_token s token >>= λ s'. ok (sc, s', consumed)

  unfoldable pub emit_number : Scanner → S → Bool → Stepped
  unfolding int_of
  emit_number sc s consumed =
      if is_utf8 sc.buffer
      then give s (int (int_of sc.buffer)) consumed (record sc { state = after_value })
      else err json

  unfoldable pub emit_literal : Scanner → S → Bool → Stepped
  unfolding literal_of
  emit_literal sc s consumed = ok_or (literal_of sc.buffer) json >>= λ token.
      give s token consumed (record sc { state = after_value })

  -- `close`, once the container is off the stack.
  unfoldable pub close_top : ℕ → Scanner → S → List Container → Stepped
  unfolding close_token
  close_top byte sc s [] = err json
  close_top byte sc s (c ∷ rest) = ok_or (close_token byte c) json >>= λ token.
      give s token true (record sc {
        stack = rest;
        state = after_value;
        done = if is_empty rest then true else sc.done;
      })

  unfoldable pub step_value : ℕ → Scanner → S → Stepped
  unfolding close_top open_container begin
  step_value byte sc s =
      if is_whitespace byte
      then ok (sc, s, true)
      else if byte == b'{'
      then (open_container (object true) sc >>= λ sc'. give s start_object true sc')
      else if byte == b'['
      then (open_container array sc >>= λ sc'. give s start_array true sc')
      else if byte == b'}' || byte == b']'
      then close_top byte sc s sc.stack
      else if byte == b'"'
      then ok (record sc { buffer = []; state = in_string }, s, true)
      else if byte == b'-' || is_digit byte
      then taken s (begin byte in_number sc)
      else if byte == b't' || (byte == b'f' || byte == b'n')
      then taken s (begin byte in_literal sc)
      else err json

  -- The end of a string: a member name, or a value.
  unfoldable pub end_string : Scanner → S → Stepped
  unfolding is_key set_expecting_key
  end_string sc s =
      if is_utf8 sc.buffer
      then if is_key sc.stack
        then give s (key sc.buffer) true
            (record (set_expecting_key false sc) { state = expect_colon })
        else give s (str sc.buffer) true (record sc { state = after_value })
      else err json

  unfoldable pub step_string : ℕ → Scanner → S → Stepped
  unfolding end_string push_byte
  step_string byte sc s =
      if byte == b'"'
      then elim sc.pending_surrogate [ some high ↦ err json | none ↦ end_string sc s ]
      else if byte == b'\\'
      then ok (record sc { state = escape }, s, true)
      else if leb byte 0x1f
      then err json
      else taken s (push_byte byte sc)

  unfoldable pub step_escape : ℕ → Scanner → S → Stepped
  unfolding unescape push_byte
  step_escape byte sc s =
      if byte == b'u'
      then ok (record sc { code_point = 0; state = unicode 0 }, s, true)
      else (ok_or (unescape byte) json >>= λ literal.
          push_byte literal sc >>= λ sc'. ok (record sc' { state = in_string }, s, true))

  -- `code_point << 4 | digit` on a `u32`.
  unfoldable pub step_unicode : ℕ → ℕ → Scanner → S → Stepped
  unfolding hex_digit finish_escape
  step_unicode seen byte sc s = ok_or (hex_digit byte) json >>= λ digit.
      let sc' = record sc { code_point = sc.code_point * 16 % 2 ^ 32 + digit } in
      if ltb seen 3
      then ok (record sc' { state = unicode (seen + 1) }, s, true)
      else taken s (finish_escape sc')

  unfoldable pub step_number : ℕ → Scanner → S → Stepped
  unfolding emit_number push_byte
  step_number byte sc s =
      if in_a_number byte then taken s (push_byte byte sc) else emit_number sc s false

  unfoldable pub step_literal : ℕ → Scanner → S → Stepped
  unfolding emit_literal push_byte
  step_literal byte sc s =
      if is_alphabetic byte then taken s (push_byte byte sc) else emit_literal sc s false

  unfoldable pub step_after : ℕ → Scanner → S → Stepped
  unfolding set_expecting_key close_top
  step_after byte sc s =
      if is_whitespace byte
      then ok (sc, s, true)
      else if byte == b','
      then ok (record (set_expecting_key true sc) { state = expect_value }, s, true)
      else if byte == b'}' || byte == b']'
      then close_top byte sc s sc.stack
      else err json

  unfoldable pub step_colon : ℕ → Scanner → S → Stepped
  step_colon byte sc s =
      if is_whitespace byte
      then ok (sc, s, true)
      else if byte == b':'
      then ok (record sc { state = expect_value }, s, true)
      else err json

  unfoldable pub step_in : State → ℕ → Scanner → S → Stepped
  unfolding step_value step_string step_escape step_unicode step_number step_literal step_after
      step_colon
  step_in expect_value byte sc s = step_value byte sc s
  step_in in_string byte sc s = step_string byte sc s
  step_in escape byte sc s = step_escape byte sc s
  step_in (unicode seen) byte sc s = step_unicode seen byte sc s
  step_in in_number byte sc s = step_number byte sc s
  step_in in_literal byte sc s = step_literal byte sc s
  step_in after_value byte sc s = step_after byte sc s
  step_in expect_colon byte sc s = step_colon byte sc s

  unfoldable pub step : Scanner → S → ℕ → Stepped
  unfolding step_in
  step sc s byte = step_in sc.state byte sc s

  -- Rounds of the loop of `push` at one byte, until it is consumed; two are enough.
  unfoldable pub settle : ℕ → Scanner → S → ℕ → Stepped
  unfolding step
  settle zero sc s byte = ok (sc, s, false)
  settle (suc rounds) sc s byte = step sc s byte >>= λ (sc', s', consumed).
      if consumed then ok (sc', s', true) else settle rounds sc' s' byte

  unfoldable pub push : Scanner → S → List ℕ → Result Error (Scanner × S)
  unfolding settle
  push sc s [] = ok (sc, s)
  push sc s (byte ∷ bytes) = settle 2 sc s byte >>= λ (sc', s', consumed). push sc' s' bytes

  -- What `finish` flushes.
  unfoldable pub flush : State → Scanner → S → Stepped
  unfolding emit_number emit_literal
  flush in_number sc s = emit_number sc s true
  flush in_literal sc s = emit_literal sc s true
  flush expect_value sc s = ok (sc, s, true)
  flush after_value sc s = ok (sc, s, true)
  flush in_string sc s = err json
  flush escape sc s = err json
  flush (unicode seen) sc s = err json
  flush expect_colon sc s = err json

  unfoldable pub finish : Scanner → S → Result Error (Scanner × S)
  unfolding flush
  finish sc s = flush sc.state sc s >>= λ (sc', s', consumed).
      if is_empty sc'.stack then ok (sc', s') else err json

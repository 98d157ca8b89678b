-- ===== src/Netmap/Scanner/Text.antt =====
-- The scanner's data, and the methods that build one token.
use tailfeather.Common.{
  ℕ, ◌+◌, ◌-◌, ◌*◌, ◌/◌, ◌%◌, ◌^◌, Bool, false, ◌&&◌, ◌||◌, ltb, leb, ◌==◌, if◌then◌else◌,
}
use tailfeather.Common.{
  List, [], ◌∷◌, ◌++◌, length, Option, none, some, Result, ok, err, ◌>>=◌, ok_or,
}
use tailfeather.Netmap.Error.{Error, json, full}

abbrev pub max_depth : ℕ
max_depth = 16

-- `MAX_STRING` of lib.rs.
abbrev pub max_string : ℕ
max_string = 256

-- A 64-bit integer: `negsuc n` is -(n + 1).
pub data ℤ : Type 0 where
  pos : ℕ → ℤ
  negsuc : ℕ → ℤ

pub data Token : Type 0 where
  start_object end_object start_array end_array null : Token
  key : List ℕ → Token
  str : List ℕ → Token
  int : ℤ → Token
  bool : Bool → Token

-- An object with its `expecting_key`, or an array.
pub data Container : Type 0 where
  object : Bool → Container
  array : Container

pub data State : Type 0 where
  expect_value in_string escape in_number in_literal after_value expect_colon : State
  unicode : ℕ → State

-- The stack has its top first.
pub record Scanner : Type 0 where
  pub state : State
  pub stack : List Container
  pub buffer : List ℕ
  pub code_point : ℕ
  pub pending_surrogate : Option ℕ
  pub done : Bool

unfoldable pub new_scanner : Scanner
new_scanner = record {
  state = expect_value;
  stack = [];
  buffer = [];
  code_point = 0;
  pending_surrogate = none;
  done = false;
}

abbrev pub is_done : Scanner → Bool
is_done sc = sc.done

-- `u8::is_ascii_whitespace`.
abbrev pub is_whitespace : ℕ → Bool
is_whitespace b = b == 32 || (b == 9 || (b == 10 || (b == 12 || b == 13)))

abbrev pub is_digit : ℕ → Bool
is_digit b = leb b'0' b && leb b b'9'

-- `u8::is_ascii_alphabetic`.
abbrev pub is_alphabetic : ℕ → Bool
is_alphabetic b = leb b'A' b && leb b b'Z' || leb b'a' b && leb b b'z'

unfoldable pub push_byte : ℕ → Scanner → Result Error Scanner
push_byte byte sc =
    if leb max_string (length sc.buffer)
    then err full
    else ok (record sc { buffer = sc.buffer ++ (byte ∷ []) })

unfoldable pub push_all : List ℕ → Scanner → Result Error Scanner
unfolding push_byte
push_all [] sc = ok sc
push_all (byte ∷ bytes) sc = push_byte byte sc >>= λ sc'. push_all bytes sc'

-- `char::encode_utf8`.
unfoldable pub encode_utf8 : ℕ → List ℕ
encode_utf8 c =
    if ltb c 0x80
    then c ∷ []
    else if ltb c 0x800
    then (0xc0 + c / 64) ∷ (0x80 + c % 64) ∷ []
    else if ltb c 0x10000
    then (0xe0 + c / 4096) ∷ (0x80 + c / 64 % 64) ∷ (0x80 + c % 64) ∷ []
    else (0xf0 + c / 262144) ∷ (0x80 + c / 4096 % 64) ∷ (0x80 + c / 64 % 64) ∷ (0x80 + c % 64) ∷ []

-- `char::from_u32`.
unfoldable pub from_u32 : ℕ → Option ℕ
from_u32 n = if ltb n 0xd800 || leb 0xe000 n && ltb n 0x110000 then some n else none

abbrev pub is_high : ℕ → Bool
is_high v = leb 0xd800 v && ltb v 0xdc00

abbrev pub is_low : ℕ → Bool
is_low v = leb 0xdc00 v && ltb v 0xe000

-- The character of an escape, and the scanner with no surrogate pending.
unfoldable pub scalar_of : ℕ → Option ℕ → Result Error ℕ
scalar_of v pending =
    if is_low v
    then elim pending [
      | some high ↦ ok (0x10000 + (high - 0xd800) * 1024 + (v - 0xdc00))
      | none ↦ err json
    ]
    else elim pending [ some high ↦ err json | none ↦ ok v ]

unfoldable pub finish_escape : Scanner → Result Error Scanner
unfolding scalar_of from_u32 encode_utf8 push_all
finish_escape sc =
    let v = sc.code_point % 2 ^ 16 in
    if is_high v
    then ok (record sc { pending_surrogate = some v; state = in_string })
    else scalar_of v sc.pending_surrogate >>= λ scalar.
        ok_or (from_u32 scalar) json >>= λ character.
        push_all (encode_utf8 character) (record sc { pending_surrogate = none }) >>= λ sc'.
        ok (record sc' { state = in_string })

-- The value of digits, `none` for none of them or for another byte.
unfoldable pub digits_from : ℕ → List ℕ → Option ℕ
digits_from n [] = some n
digits_from n (b ∷ bs) =
    let rest = digits_from (n * 10 + (b - b'0')) bs in if is_digit b then rest else none

unfoldable pub digits : List ℕ → Option ℕ
unfolding digits_from
digits [] = none
digits (b ∷ bs) = digits_from 0 (b ∷ bs)

abbrev pub non_negative : ℕ → Option ℤ
non_negative n = if ltb n (2 ^ 63) then some (pos n) else none

abbrev pub negative : ℕ → Option ℤ
negative n = if n == 0 then some (pos 0) else if leb n (2 ^ 63) then some (negsuc (n - 1)) else none

abbrev pub option_then : Option ℕ → (ℕ → Option ℤ) → Option ℤ
option_then none f = none
option_then (some n) f = f n

-- `str::parse::<i64>`: a sign that may be left out, digits, and no overflow.
unfoldable pub parse_i64 : List ℕ → Option ℤ
unfolding digits
parse_i64 [] = none
parse_i64 (b ∷ bs) =
    if b == b'-'
    then option_then (digits bs) negative
    else if b == b'+'
    then option_then (digits bs) non_negative
    else option_then (digits (b ∷ bs)) non_negative

unfoldable pub set_expecting_key : Bool → Scanner → Scanner
set_expecting_key expecting sc = elim sc.stack [
  | [] ↦ sc
  | c ∷ rest ↦ record sc {
    stack = (elim c [ object old ↦ object expecting | array ↦ array ]) ∷ rest;
  }
]

-- Whether a string that ends now is a member name.
unfoldable pub is_key : List Container → Bool
is_key [] = false
is_key (array ∷ rest) = false
is_key (object expecting ∷ rest) = expecting

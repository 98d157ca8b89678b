-- ===== src/Netmap/Tests.antt =====
-- The theorems of the scanner at concrete documents.
use tailfeather.Common.{ℕ, true, false, ◌≡◌, refl, List, [], ◌∷◌, ◌++◌, none, some, ok, ◌>>=◌}
use tailfeather.Common.Text.{is_utf8}
use tailfeather.Netmap.Scanner.Text.{
  Token, int, str, pos, Scanner, in_number, after_value, expect_value, new_scanner, array,
}
use tailfeather.Netmap.Scanner.Step.{settle, push, finish}
use tailfeather.Netmap.Scanner.Progress.{settle_consumes}
use tailfeather.Netmap.Scanner.Loop.{push_loop, push_loop_ends}
use tailfeather.Common.{some}
use tailfeather.Netmap.Scanner.Nesting.{collect, scan_nested}
use tailfeather.Netmap.Scanner.Brackets.{nest_all}
use tailfeather.Common.{length, arith, Option}
use tailfeather.Common.Bytes.{to_le_bytes}
use tailfeather.Netmap.Frame.{FrameReader, new_reader, drive}
use tailfeather.Netmap.Frame.Header.{reading, IsValid, new_reader-IsValid}
use tailfeather.Netmap.Frame.Refines.{drive_refines}
use tailfeather.Netmap.Frame.Responses.{framed, given_out, drive-framed}
use tailfeather.Netmap.Frame.Stream.{Reading, in_header, stream}

-- A scanner in the number 12 of an array.
abbrev in_twelve : Scanner
in_twelve = record {
  state = in_number;
  stack = array ∷ [];
  buffer = b'1' ∷ b'2' ∷ [];
  code_point = 0;
  pending_surrogate = none;
  done = false;
}

settle_consumes_example : true ≡ true
unfolding settle is_utf8
settle_consumes_example =
    settle_consumes collect in_twelve [] b',' (record in_twelve { state = expect_value })
      (int (pos 12) ∷ []) true refl

-- `[1` and `2]`.
push_loop_ends_example :
    push_loop collect 8 new_scanner [] ((b'[' ∷ b'1' ∷ []) ++ (b'2' ∷ b']' ∷ []))
    ≡ some (
        push collect new_scanner [] (b'[' ∷ b'1' ∷ []) >>= λ (sc', s').
        push collect sc' s' (b'2' ∷ b']' ∷ []))
push_loop_ends_example =
    push_loop_ends collect (b'[' ∷ b'1' ∷ []) (b'2' ∷ b']' ∷ []) 8 new_scanner [] (omega arith)

-- `{"a":[1]}`.
abbrev document : List ℕ
document = b'{' ∷ b'"' ∷ b'a' ∷ b'"' ∷ b':' ∷ b'[' ∷ b'1' ∷ b']' ∷ b'}' ∷ []

abbrev document_tokens : List Token
document_tokens =
    Token.start_object
    ∷ Token.key (b'a' ∷ [])
    ∷ Token.start_array
    ∷ int (pos 1)
    ∷ Token.end_array
    ∷ Token.end_object
    ∷ []

scan_nested_example : nest_all [] document_tokens ≡ some []
unfolding push finish new_scanner is_utf8
scan_nested_example =
    scan_nested document
      (record new_scanner { state = after_value; buffer = b'1' ∷ []; done = true }) document_tokens
      refl

-- `"\ud83dx\ude00"`: the halves of a surrogate pair on two sides of a letter are one character after it.
abbrev split_pair : List ℕ
split_pair =
    b'"' ∷ b'\\' ∷ b'u' ∷ b'd' ∷ b'8' ∷ b'3' ∷ b'd' ∷ b'x' ∷ b'\\' ∷ b'u' ∷ b'd' ∷ b'e' ∷ b'0'
    ∷ b'0' ∷ b'"' ∷ []

split_pair_scans :
    (push collect new_scanner [] split_pair >>= λ (sc', s'). ok s')
    ≡ ok (str (b'x' ∷ 0xf0 ∷ 0x9f ∷ 0x98 ∷ 0x80 ∷ []) ∷ [])
unfolding push new_scanner is_utf8
split_pair_scans = refl

-- Three bytes of a length, and the fourth with a response of one byte.
drive_refines_example :
    let d : FrameReader × List (Option ℕ) = drive 12 new_reader (1 ∷ 0 ∷ 0 ∷ []) in
    let answer : Reading × List (Option ℕ) = (reading d.0, d.1) in
    (answer ≡ stream (reading new_reader) (1 ∷ 0 ∷ 0 ∷ [])) × IsValid d.0
unfolding IsValid
drive_refines_example =
    drive_refines 12 new_reader (1 ∷ 0 ∷ 0 ∷ []) (new_reader-IsValid) (omega arith)

-- A response of two bytes, and an empty one.
abbrev responses : List (List ℕ)
responses = (7 ∷ 8 ∷ []) ∷ [] ∷ []

framed_length : length (framed responses) ≡ 10
unfolding framed to_le_bytes
framed_length = refl

drive-framed_example :
    ((drive 22 new_reader (framed responses)).1 ≡ given_out responses)
    × (reading (drive 22 new_reader (framed responses)).0 ≡ in_header [])
drive-framed_example =
    drive-framed 22 responses (omega arith, (omega arith, tt)) (omega (arith, framed_length))

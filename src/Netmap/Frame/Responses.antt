-- ===== src/Netmap/Frame/Responses.antt =====
-- Whole responses come out of the reader as the server put them in.
use tailfeather.Common.{ℕ, ◌+◌, ◌-◌, ◌*◌, ◌^◌, ◌<◌, ◌≡◌, refl, ap, ◌∙◌, arith}
use tailfeather.Common.{List, [], ◌∷◌, ◌++◌, length, map, All, Option, none, some}
use tailfeather.Common.Bytes.{to_le_bytes, length-to_le_bytes, from_le_bytes-to_le_bytes}
use tailfeather.Netmap.Frame.{new_reader, drive}
use tailfeather.Netmap.Frame.Header.{reading, IsValid}
use tailfeather.Netmap.Frame.Refines.{drive_refines}
use tailfeather.Netmap.Frame.Stream.{
  Reading, in_header, in_body, after_header-full, prepend, prepend-prepend, stream,
  stream-in_header, stream-in_body, stream_end,
}

-- The stream of these responses: each behind its length, in four bytes, the lowest first.
unfoldable pub framed : List (List ℕ) → List ℕ
framed [] = []
framed (response ∷ responses) = to_le_bytes 4 (length response) ++ (response ++ framed responses)

-- What is given out of them: the bytes of each, and its end.
pub given_out : List (List ℕ) → List (Option ℕ)
given_out [] = []
given_out (response ∷ responses) = (map some response ++ (none ∷ [])) ++ given_out responses

abbrev pub IsShort : List ℕ → Type 0
IsShort response = length response < 2 ^ 32

stream-response :
    (response rest : List ℕ)
    → IsShort response
    → stream (in_header []) (to_le_bytes 4 (length response) ++ (response ++ rest))
      ≡ prepend (map some response ++ (none ∷ [])) (stream (in_header []) rest)
stream-response response rest short =
    stream-in_header [] (to_le_bytes 4 n) (response ++ rest) (omega arith) (omega (arith, four))
    ∙ ap (λ rd. stream rd (response ++ rest)) (after_header-full (to_le_bytes 4 n) four)
    ∙ ap (λ k. stream (in_body k) (response ++ rest)) (from_le_bytes-to_le_bytes 4 n short)
    ∙ stream-in_body n response rest (omega arith)
    ∙ ap (λ k. prepend (map some response) (stream (in_body k) rest))
        (let e : n - n ≡ 0 = omega arith in e)
    ∙ ap (prepend (map some response)) (stream_end rest)
    ∙ prepend-prepend (map some response) (none ∷ []) (stream (in_header []) rest)
  where
    n : ℕ
    n = length response

    four : length (to_le_bytes 4 n) ≡ 4
    four = length-to_le_bytes 4 n

stream-framed :
    (responses : List (List ℕ))
    → All IsShort responses
    → stream (in_header []) (framed responses) ≡ (in_header [], given_out responses)
unfolding framed given_out stream prepend
stream-framed [] short = refl
stream-framed (response ∷ responses) (short, others) =
    stream-response response (framed responses) short
    ∙ ap (prepend (map some response ++ (none ∷ []))) (stream-framed responses others)

-- Responses shorter than 2^32 bytes, framed one behind the other, come out of a new reader byte by
-- byte and each with its end, and the reader then stands at the start of a length.
pub drive-framed :
    (rounds : ℕ) (responses : List (List ℕ))
    → All IsShort responses
    → 2 * length (framed responses) + 1 < rounds
    → ((drive rounds new_reader (framed responses)).1 ≡ given_out responses)
      × (reading (drive rounds new_reader (framed responses)).0 ≡ in_header [])
unfolding new_reader reading IsValid
drive-framed rounds responses short enough = (ap (λ p. p.1) says, ap (λ p. p.0) says)
  where
    says :
        let answer : Reading × List (Option ℕ) = (
          reading (drive rounds new_reader (framed responses)).0,
          (drive rounds new_reader (framed responses)).1,
        ) in
        answer ≡ (in_header [], given_out responses)
    says =
        (drive_refines rounds new_reader (framed responses) (refl, omega arith) enough).0
        ∙ stream-framed responses short

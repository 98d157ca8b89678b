-- ===== src/Netmap/Frame/Round.antt =====
-- One round of the loop says what the stream says.
use tailfeather.Common.{
  ℕ, zero, suc, ◌+◌, ◌-◌, ◌*◌, min, ◌≤◌, ◌<◌, ◌≡◌, refl, sym, ap, ◌∙◌, arith, Bool, true, false,
  not, ◌==◌, if◌then◌else◌, Bool-cases, ◌⊎◌, inl, inr, ==→eq,
}
use tailfeather.Common.{
  List, [], ◌∷◌, ◌++◌, length, take, drop, map, length-append, length-take, length-drop,
  take-append-drop, Option, none, some,
}
use tailfeather.Netmap.Frame.{
  FrameReader, Chunk, filled, next_body, next, is_complete, finish_response, handle,
}
use tailfeather.Netmap.Frame.Stream.{
  in_header, in_body, after_header, after_header-short, prepend, stream, stream-in_header,
  stream_end, stream-in_body, prepend-prepend,
}
use tailfeather.Netmap.Frame.Header.{reading, IsValid, filled_lem}

-- One where the end of a response is still to be given out.
unfoldable pub waits : FrameReader → ℕ
waits r = elim r.remaining [ none ↦ 0 | some n ↦ if n == 0 then 1 else 0 ]

pub waits_small : (r : FrameReader) → waits r ≤ 1
unfolding waits
waits_small r =
    elim r.remaining as (λ o. elim o [ none ↦ 0 | some n ↦ if n == 0 then 1 else 0 ] ≤ 1) [
      | none ↦ omega arith
      | some n ↦ ground arith
    ]

-- What a round leaves: what it gives out stands before what the stream says from there, and what is
-- left of the input and of a response is less, unless the round is the last.
unfoldable pub IsHandled :
    FrameReader → List ℕ → List ℕ → List (Option ℕ) × FrameReader × Bool → Type 0
IsHandled r input rest (out, r', goes_on) =
    IsValid r'
    × (stream (reading r) input ≡ prepend out (stream (reading r') rest))
    × (((goes_on ≡ true) × (2 * length rest + waits r' < 2 * length input + waits r))
        ⊎ ((goes_on ≡ false) × (stream (reading r') rest ≡ (reading r', []))))

stream_still :
    (bytes rest : List ℕ) → length rest ≡ 0 → stream (in_header bytes) rest ≡ (in_header bytes, [])
unfolding stream
stream_still bytes [] h = refl
stream_still bytes (x ∷ rest) h = absurd (omega (arith, h))

-- A round within the length of a response.
header_round :
    (header : List ℕ) (count : ℕ) (input : List ℕ) (n : ℕ)
    → length header ≡ 4
    → count < 4
    → n ≡ min (length input) (4 - count)
    → let r : FrameReader = record { header = header; header_filled = count; remaining = none } in
      IsHandled r input (drop n input) ([], filled r (take n input), not (n == 0))
unfolding IsHandled reading waits prepend
header_round header count input n is_4 short e = (f.1, says, last (Bool-cases (n == 0)))
  where
    r : FrameReader
    r = record { header = header; header_filled = count; remaining = none }

    bytes : List ℕ
    bytes = take n input

    rest : List ℕ
    rest = drop n input

    r' : FrameReader
    r' = filled r bytes

    come : length bytes ≡ n
    come = omega (arith, length-take n input, e)

    f : (reading r' ≡ after_header (take count header ++ bytes)) × IsValid r'
    f = filled_lem header count bytes is_4 short (omega (arith, come, e))

    front : length (take count header) ≡ count
    front = omega (arith, length-take count header, is_4, short)

    says : stream (in_header (take count header)) input ≡ prepend [] (stream (reading r') rest)
    says =
        ap (stream (in_header (take count header))) (sym (take-append-drop n input))
        ∙ stream-in_header (take count header) bytes rest (omega (arith, front))
            (omega (arith, front, come, e))
        ∙ ap (λ rd. stream rd rest) (sym f.0)

    last :
        ((n == 0) ≡ true) ⊎ ((n == 0) ≡ false)
        → ((not (n == 0) ≡ true) × (2 * length rest + waits r' < 2 * length input + waits r))
          ⊎ ((not (n == 0) ≡ false) × (stream (reading r') rest ≡ (reading r', [])))
    last (inl z) = inr (
      ap not z,
      ap (λ rd. stream rd rest) q ∙ stream_still _ rest none_left ∙ ap (λ rd. (rd, [])) (sym q),
    )
      where
        none_left : length rest ≡ 0
        none_left = omega (arith, length-drop n input, ==→eq n 0 z, e, short)

        q : reading r' ≡ in_header (take count header ++ bytes)
        q =
            f.0
            ∙ after_header-short _
                (omega (arith, length-append (take count header) bytes, front, come, ==→eq n 0 z))
    last (inr z) = inl (ap not z, omega (arith, waits_small r', length-drop n input, some_come, e))
      where
        some_come : 0 < n
        some_come = ground (arith, z)

stream_pause : (more : ℕ) → stream (in_body (suc more)) [] ≡ (in_body (suc more), [])
unfolding stream
stream_pause more = refl

-- A round within a response.
body_round :
    (header : List ℕ) (count : ℕ) (remaining : ℕ) (input : List ℕ)
    → length header ≡ 4
    → count < 1
    → let r : FrameReader = record {
      header = header;
      header_filled = count;
      remaining = some remaining;
    } in
      let answer : FrameReader × Chunk × ℕ = next_body r remaining input in
      IsHandled r input (drop answer.2 input) (handle answer)
unfolding IsHandled IsValid reading waits prepend next_body handle is_complete finish_response
body_round header (suc count) remaining input is_4 short = absurd (omega (arith, short))
body_round header zero zero input is_4 short =
    ((is_4, omega arith), stream_end input, inl (refl, omega arith))
body_round header zero (suc more) [] is_4 short =
    ((is_4, omega arith), refl, inr (refl, stream_pause more))
body_round header zero (suc more) (b ∷ tail) is_4 short = choose (is_complete r') refl
  where
    input : List ℕ
    input = b ∷ tail

    n : ℕ
    n = min (length input) (suc more)

    r : FrameReader
    r = record { header = header; header_filled = 0; remaining = some (suc more) }

    r' : FrameReader
    r' = record { header = header; header_filled = 0; remaining = some (suc more - n) }

    bytes : List ℕ
    bytes = take n input

    rest : List ℕ
    rest = drop n input

    come : length bytes ≡ n
    come = omega (arith, length-take n input)

    left : length rest ≡ length input - n
    left = length-drop n input

    says :
        stream (in_body (suc more)) input
        ≡ prepend (map some bytes) (stream (in_body (suc more - n)) rest)
    says =
        ap (stream (in_body (suc more))) (sym (take-append-drop n input))
        ∙ stream-in_body (suc more) bytes rest (omega (arith, come))
        ∙ ap (λ k. prepend (map some bytes) (stream (in_body (suc more - k)) rest)) come

    choose :
        (b : Bool)
        → is_complete r' ≡ b
        → IsHandled r input rest (
            if b
            then (map some bytes ++ (none ∷ []), finish_response r', true)
            else (map some bytes, r', true))
    choose true e = ((is_4, omega arith), ended, inl (refl, omega (arith, left)))
      where
        ended :
            stream (in_body (suc more)) input
            ≡ prepend (map some bytes ++ (none ∷ [])) (stream (in_header []) rest)
        ended =
            says
            ∙ ap (λ k. prepend (map some bytes) (stream (in_body k) rest))
                (==→eq (suc more - n) 0 e)
            ∙ ap (prepend (map some bytes)) (stream_end rest)
            ∙ prepend-prepend (map some bytes) (none ∷ []) (stream (in_header []) rest)
    choose false e = ((is_4, omega arith), says, inl (refl, omega (arith, waits_small r', left)))

pub next-IsHandled :
    (r : FrameReader) (input : List ℕ)
    → IsValid r
    → IsHandled r input (drop (next r input).2 input) (handle (next r input))
unfolding next handle IsValid
next-IsHandled r input valid = on_remaining r.remaining valid.1
  where
    on_remaining :
        (o : Option ℕ)
        → r.header_filled < elim o [ none ↦ 4 | some n ↦ 1 ]
        → let r' : FrameReader = record r { remaining = o } in
          IsHandled r' input (drop (next r' input).2 input) (handle (next r' input))
    on_remaining none short = header_round r.header r.header_filled input _ valid.0 short refl
    on_remaining (some n) short = body_round r.header r.header_filled n input valid.0 short

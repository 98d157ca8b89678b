-- ===== src/Netmap/Frame/Stream.antt =====
-- The stream of map responses read a byte at a time, to which the reader is compared.
use tailfeather.Common.{
  ℕ, zero, suc, ◌+◌, ◌-◌, ◌≤◌, ◌<◌, ◌≡◌, refl, sym, ap, ◌∙◌, arith, ◌==◌, if◌then◌else◌,
}
use tailfeather.Common.{
  List, [], ◌∷◌, ◌++◌, length, map, length-append, append_assoc, append-nil, Option, none, some,
}
use tailfeather.Common.Bytes.{from_le_bytes}

-- Bytes of a length that have come, or how much of a response is still to come.
pub data Reading : Type 0 where
  in_header : List ℕ → Reading
  in_body : ℕ → Reading

-- The reading once these bytes of a length have come.
unfoldable pub after_header : List ℕ → Reading
after_header bytes = if length bytes == 4 then in_body (from_le_bytes bytes) else in_header bytes

unfoldable pub prepend : List (Option ℕ) → Reading × List (Option ℕ) → Reading × List (Option ℕ)
prepend out (reading, later) = (reading, out ++ later)

-- What the stream says, from a reading on: where no byte of a response remains, the response ends.
unfoldable pub stream : Reading → List ℕ → Reading × List (Option ℕ)
unfolding after_header prepend
stream (in_header bytes) [] = (in_header bytes, [])
stream (in_header bytes) (b ∷ input) = stream (after_header (bytes ++ (b ∷ []))) input
stream (in_body zero) [] = (in_header [], none ∷ [])
stream (in_body zero) (b ∷ input) = prepend (none ∷ []) (stream (in_header (b ∷ [])) input)
stream (in_body (suc more)) [] = (in_body (suc more), [])
stream (in_body (suc more)) (b ∷ input) = prepend (some b ∷ []) (stream (in_body more) input)

prepend-nil : (p : Reading × List (Option ℕ)) → prepend [] p ≡ p
unfolding prepend
prepend-nil p = refl

pub prepend-prepend :
    (xs ys : List (Option ℕ)) (p : Reading × List (Option ℕ))
    → prepend xs (prepend ys p) ≡ prepend (xs ++ ys) p
unfolding prepend
prepend-prepend xs ys (reading, later) = λ i. (reading, sym (append_assoc xs ys later) i)

pub after_header-short : (bytes : List ℕ) → length bytes < 4 → after_header bytes ≡ in_header bytes
unfolding after_header
after_header-short bytes h = ground arith

pub after_header-full :
    (bytes : List ℕ) → length bytes ≡ 4 → after_header bytes ≡ in_body (from_le_bytes bytes)
unfolding after_header
after_header-full bytes h = rw h refl

pub stream-in_header :
    (bytes xs ys : List ℕ)
    → length bytes < 4
    → length bytes + length xs ≤ 4
    → stream (in_header bytes) (xs ++ ys) ≡ stream (after_header (bytes ++ xs)) ys
unfolding stream
stream-in_header bytes [] ys small fits =
    ap (λ r. stream r ys)
      (sym (after_header-short bytes small) ∙ ap after_header (sym (append-nil bytes)))
stream-in_header bytes (x ∷ []) ys small fits = refl
stream-in_header bytes (x ∷ y ∷ xs) ys small fits =
    ap (λ r. stream r (y ∷ (xs ++ ys)))
      (after_header-short (bytes ++ (x ∷ [])) (omega (arith, longer)))
    ∙ stream-in_header (bytes ++ (x ∷ [])) (y ∷ xs) ys (omega (arith, longer))
        (omega (arith, longer))
    ∙ ap (λ l. stream (after_header l) ys) (append_assoc bytes (x ∷ []) (y ∷ xs))
  where
    longer : length (bytes ++ (x ∷ [])) ≡ length bytes + 1
    longer = length-append bytes (x ∷ [])

pub stream_end :
    (ys : List ℕ) → stream (in_body 0) ys ≡ prepend (none ∷ []) (stream (in_header []) ys)
unfolding stream prepend after_header
stream_end [] = refl
stream_end (y ∷ ys) = refl

pub stream-in_body :
    (n : ℕ) (xs ys : List ℕ)
    → length xs ≤ n
    → stream (in_body n) (xs ++ ys) ≡ prepend (map some xs) (stream (in_body (n - length xs)) ys)
unfolding stream
stream-in_body n [] ys fits =
    ap (λ k. stream (in_body k) ys) whole ∙ sym (prepend-nil (stream (in_body (n - 0)) ys))
  where
    whole : n ≡ n - 0
    whole = omega arith
stream-in_body zero (x ∷ xs) ys fits = absurd (omega (arith, fits))
stream-in_body (suc n) (x ∷ xs) ys fits =
    ap (prepend (some x ∷ [])) (stream-in_body n xs ys (omega (arith, fits)))
    ∙ prepend-prepend (some x ∷ []) (map some xs) (stream (in_body (n - length xs)) ys)
    ∙ ap (λ k. prepend (map some (x ∷ xs)) (stream (in_body k) ys)) one_less
  where
    one_less : n - length xs ≡ suc n - suc (length xs)
    one_less = omega arith

-- The stream may come in any pieces.
pub stream-append :
    (reading : Reading) (xs ys : List ℕ)
    → stream reading (xs ++ ys) ≡ prepend (stream reading xs).1 (stream (stream reading xs).0 ys)
unfolding stream
stream-append (in_header bytes) [] ys = sym (prepend-nil (stream (in_header bytes) ys))
stream-append (in_header bytes) (x ∷ xs) ys = stream-append (after_header (bytes ++ (x ∷ []))) xs ys
stream-append (in_body zero) [] ys = stream_end ys
stream-append (in_body zero) (x ∷ xs) ys =
    ap (prepend (none ∷ [])) (stream-append (in_header (x ∷ [])) xs ys)
    ∙ prepend-prepend (none ∷ []) (stream (in_header (x ∷ [])) xs).1 _
stream-append (in_body (suc n)) [] ys = sym (prepend-nil (stream (in_body (suc n)) ys))
stream-append (in_body (suc n)) (x ∷ xs) ys =
    ap (prepend (some x ∷ [])) (stream-append (in_body n) xs ys)
    ∙ prepend-prepend (some x ∷ []) (stream (in_body n) xs).1 _

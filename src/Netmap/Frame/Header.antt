-- ===== src/Netmap/Frame/Header.antt =====
-- What the copies to the header of a reader leave in it.
use tailfeather.Common.{
  ℕ, zero, suc, ◌+◌, ◌≤◌, ◌<◌, ◌≡◌, refl, sym, ap, ◌∙◌, arith, Bool, true, false, ltb,
  if◌then◌else◌, ltb→lt, ltb_false→le,
}
use tailfeather.Common.{
  List, [], ◌∷◌, ◌++◌, length, take, drop, length-append, length-take, take_front, take_short, none,
  some,
}
use tailfeather.Common.Bytes.{write_at, write_at-zero, from_le_bytes}
use tailfeather.Netmap.Frame.{FrameReader, new_reader, header_len, filled}
use tailfeather.Netmap.Frame.Stream.{
  Reading, in_header, in_body, after_header, after_header-short, after_header-full,
}

-- `write_at` within the buffer.
take-write_at :
    (out : List ℕ) (at : ℕ) (src : List ℕ) (k : ℕ)
    → k ≡ at + length src
    → k ≤ length out
    → take k (write_at out at src) ≡ take at out ++ src
unfolding write_at
take-write_at out zero src k e fits =
    ap (take k) (write_at-zero out src (omega (arith, e, fits)))
    ∙ take_front k src (drop (length src) out) (omega (arith, e))
take-write_at [] (suc at) src k e fits = absurd (omega (arith, e, fits))
take-write_at (x ∷ out) (suc at) src zero e fits = absurd (omega (arith, e))
take-write_at (x ∷ out) (suc at) src (suc k) e fits =
    ap (λ l. x ∷ l) (take-write_at out at src k (omega (arith, e)) (omega (arith, fits)))

pub length-write_at :
    (out : List ℕ) (at : ℕ) (src : List ℕ) → length (write_at out at src) ≡ length out
unfolding write_at
length-write_at [] at src = refl
length-write_at (x ∷ out) zero [] = refl
length-write_at (x ∷ out) zero (s ∷ src) = ap suc (length-write_at out zero src)
length-write_at (x ∷ out) (suc at) src = ap suc (length-write_at out at src)

-- The reading that a reader stands for.
unfoldable pub reading : FrameReader → Reading
reading r = elim r.remaining [
  | none ↦ in_header (take r.header_filled r.header)
  | some n ↦ in_body n
]

-- A reader between two calls: the header is four bytes long and not full, and empty in a response.
unfoldable pub IsValid : FrameReader → Type 0
IsValid r = (length r.header ≡ 4) × (r.header_filled < elim r.remaining [ none ↦ 4 | some n ↦ 1 ])

pub new_reader-IsValid : IsValid new_reader
unfolding IsValid new_reader
new_reader-IsValid = (refl, omega arith)

pub filled_lem :
    (header : List ℕ) (count : ℕ) (bytes : List ℕ)
    → length header ≡ 4
    → count < 4
    → count + length bytes ≤ 4
    → let r = filled (record { header = header; header_filled = count; remaining = none }) bytes in
      (reading r ≡ after_header (take count header ++ bytes)) × IsValid r
unfolding filled reading IsValid
filled_lem header count bytes is_4 short fits = choose (ltb (count + length bytes) header_len) refl
  where
    header' : List ℕ
    header' = write_at header count bytes

    is_4' : length header' ≡ 4
    is_4' = length-write_at header count bytes ∙ is_4

    front : take (count + length bytes) header' ≡ take count header ++ bytes
    front = take-write_at header count bytes (count + length bytes) refl (omega (arith, is_4, fits))

    come : length (take count header ++ bytes) ≡ count + length bytes
    come =
        omega
          (arith, length-append (take count header) bytes, length-take count header, is_4, short)

    choose :
        (b : Bool)
        → ltb (count + length bytes) header_len ≡ b
        → let r : FrameReader =
            if b
            then record { header = header'; header_filled = count + length bytes; remaining = none }
            else record {
              header = header';
              header_filled = 0;
              remaining = some (from_le_bytes header');
            } in
          (reading r ≡ after_header (take count header ++ bytes)) × IsValid r
    choose true e = (
      ap in_header front ∙ sym (after_header-short _ (omega (arith, come, ltb→lt _ _ e))),
      (is_4', ltb→lt _ _ e),
    )
    choose false e = (
      ap (λ l. in_body (from_le_bytes l)) whole
          ∙ sym (after_header-full _ (omega (arith, come, full))),
      (is_4', omega arith),
    )
      where
        full : count + length bytes ≡ 4
        full = omega (arith, ltb_false→le _ _ e, fits)

        whole : header' ≡ take count header ++ bytes
        whole = sym (take_short (count + length bytes) header' (omega (arith, is_4', full))) ∙ front

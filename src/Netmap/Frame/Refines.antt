-- ===== src/Netmap/Frame/Refines.antt =====
-- The reader and its loop say what the stream says.
use tailfeather.Common.{
  ℕ, zero, suc, ◌+◌, ◌*◌, ◌<◌, ◌≡◌, refl, sym, ap, ◌∙◌, arith, Bool, true, false, if◌then◌else◌,
  test_absurd, ◌⊎◌, inl, inr,
}
use tailfeather.Common.{List, [], ◌++◌, length, drop, length-append, append-nil, Option}
use tailfeather.Netmap.Frame.{FrameReader, next, handle, drive}
use tailfeather.Netmap.Frame.Stream.{prepend, stream, stream-append}
use tailfeather.Netmap.Frame.Header.{reading, IsValid}
use tailfeather.Netmap.Frame.Round.{waits, waits_small, IsHandled, next-IsHandled}

-- What the loop is to answer.
Says : FrameReader → List ℕ → FrameReader × List (Option ℕ) → Type 0
Says r input (r2, out) = ((reading r2, out) ≡ stream (reading r) input) × IsValid r2

drive-Says :
    (rounds : ℕ) (r : FrameReader) (input : List ℕ)
    → IsValid r
    → 2 * length input + waits r < rounds
    → Says r input (drive rounds r input)
unfolding drive Says IsHandled prepend
drive-Says zero r input valid enough = absurd (omega (arith, enough))
drive-Says (suc rounds) r input valid enough =
    on_flag (λ less. drive-Says rounds r' rest handled.0 (omega (arith, less, enough))) goes_on
      handled.2
  where
    out : List (Option ℕ)
    out = (handle (next r input)).0

    r' : FrameReader
    r' = (handle (next r input)).1

    goes_on : Bool
    goes_on = (handle (next r input)).2

    rest : List ℕ
    rest = drop (next r input).2 input

    later : FrameReader × List (Option ℕ)
    later = drive rounds r' rest

    handled : IsHandled r input rest (out, r', goes_on)
    handled = next-IsHandled r input valid

    on_flag :
        (2 * length rest + waits r' < 2 * length input + waits r → Says r' rest later)
        → (g : Bool)
        → ((g ≡ true) × (2 * length rest + waits r' < 2 * length input + waits r))
          ⊎ ((g ≡ false) × (stream (reading r') rest ≡ (reading r', [])))
        → Says r input (if g then (later.0, out ++ later.1) else (r', out))
    on_flag again true (inr (g, pause)) = test_absurd true refl g
    on_flag again false (inl (g, less)) = test_absurd false g refl
    on_flag again true (inl (g, less)) =
        (ap (prepend out) (again less).0 ∙ sym handled.1, (again less).1)
    on_flag again false (inr (g, pause)) = (
      (λ i. (reading r', sym (append-nil out) i)) ∙ ap (prepend out) (sym pause) ∙ sym handled.1,
      handled.0,
    )

-- The loop over a chunk, with two rounds for each of its bytes and two more, gives out what the
-- stream says from where the reader stands, and leaves the reader where the stream does.
pub drive_refines :
    (rounds : ℕ) (r : FrameReader) (input : List ℕ)
    → IsValid r
    → 2 * length input + 1 < rounds
    → ((reading (drive rounds r input).0, (drive rounds r input).1) ≡ stream (reading r) input)
      × IsValid (drive rounds r input).0
unfolding Says
drive_refines rounds r input valid enough =
    drive-Says rounds r input valid (omega (arith, enough, waits_small r))

-- A chunk that comes in two pieces gives out the same, in the same order, as the whole chunk.
pub drive-append :
    (rounds : ℕ) (r : FrameReader) (xs ys : List ℕ)
    → IsValid r
    → 2 * length (xs ++ ys) + 1 < rounds
    → (drive rounds r xs).1 ++ (drive rounds (drive rounds r xs).0 ys).1
      ≡ (drive rounds r (xs ++ ys)).1
unfolding prepend
drive-append rounds r xs ys valid enough =
    ap (λ o. first.1 ++ o) (ap (λ p. p.1) second_says.0)
    ∙ (λ i. (first_says.0 i).1 ++ (stream (first_says.0 i).0 ys).1)
    ∙ ap (λ p. p.1) (sym (stream-append (reading r) xs ys))
    ∙ ap (λ p. p.1) (sym whole_says.0)
  where
    sizes : length (xs ++ ys) ≡ length xs + length ys
    sizes = length-append xs ys

    first : FrameReader × List (Option ℕ)
    first = drive rounds r xs

    first_says : ((reading first.0, first.1) ≡ stream (reading r) xs) × IsValid first.0
    first_says = drive_refines rounds r xs valid (omega (arith, sizes, enough))

    second_says :
        ((reading (drive rounds first.0 ys).0, (drive rounds first.0 ys).1)
          ≡ stream (reading first.0) ys)
        × IsValid (drive rounds first.0 ys).0
    second_says = drive_refines rounds first.0 ys first_says.1 (omega (arith, sizes, enough))

    whole_says :
        ((reading (drive rounds r (xs ++ ys)).0, (drive rounds r (xs ++ ys)).1)
          ≡ stream (reading r) (xs ++ ys))
        × IsValid (drive rounds r (xs ++ ys)).0
    whole_says = drive_refines rounds r (xs ++ ys) valid enough

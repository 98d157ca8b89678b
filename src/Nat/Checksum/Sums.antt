-- ===== src/Nat/Checksum/Sums.antt =====
-- Three rounds fold a sum to sixteen bits and keep it modulo 2^16 - 1.
use tailfeather.Common.{ℕ, suc, ◌+◌, ◌*◌, ◌/◌, ◌%◌, ◌^◌, ◌≤◌, ◌<◌, ◌≡◌, ap, ◌∙◌, arith, All}
use tailfeather.Common.{List, [], ◌∷◌, length}
use tailfeather.Common.Bytes.{from_be16, IsByte}
use tailfeather.Nat.Checksum.{complement, add_words, fold, add_complements, adjust_checksum}

fold_small : (rounds sum : ℕ) → sum < 2 ^ 16 → fold (suc rounds) sum ≡ sum
unfolding fold
fold_small rounds sum h = ground arith

folded : (sum : ℕ) → (sum % 2 ^ 16 + sum / 2 ^ 16) % 0xffff ≡ sum % 0xffff
folded sum = omega arith

fold_lem : (sum : ℕ) → sum < 2 ^ 32 → (fold 3 sum < 2 ^ 16) × (fold 3 sum % 0xffff ≡ sum % 0xffff)
unfolding fold
fold_lem sum h = (ground arith, ground (arith, folded sum, folded (sum % 2 ^ 16 + sum / 2 ^ 16)))

-- The sum of the 16-bit words of these bytes; an odd byte at the end is left out.
unfoldable pub words : List ℕ → ℕ
words [] = 0
words (a ∷ []) = 0
words (a ∷ b ∷ rest) = from_be16 a b + words rest

pairs : List ℕ → ℕ
pairs [] = 0
pairs (a ∷ []) = 0
pairs (a ∷ b ∷ rest) = suc (pairs rest)

words_small : (bytes : List ℕ) → All IsByte bytes → words bytes ≤ 0xffff * pairs bytes
unfolding words pairs
words_small [] h = omega arith
words_small (a ∷ []) h = omega arith
words_small (a ∷ b ∷ rest) (ha, (hb, h)) = omega (arith, words_small rest h)

pairs_small : (bytes : List ℕ) → 2 * pairs bytes ≤ length bytes
unfolding pairs
pairs_small [] = omega arith
pairs_small (a ∷ []) = omega arith
pairs_small (a ∷ b ∷ rest) = omega (arith, pairs_small rest)

add_words_lem :
    (sum : ℕ) (bytes : List ℕ)
    → All IsByte bytes
    → sum + 0xffff * pairs bytes < 2 ^ 32
    → add_words sum bytes ≡ sum + words bytes
unfolding add_words words pairs
add_words_lem sum [] h small = omega arith
add_words_lem sum (a ∷ []) h small = omega arith
add_words_lem sum (a ∷ b ∷ rest) (ha, (hb, h)) small =
    ap (λ (n : ℕ). add_words n rest) fits
    ∙ omega (arith, add_words_lem (sum + from_be16 a b) rest h (omega arith))
  where
    fits : (sum + from_be16 a b) % 2 ^ 32 ≡ sum + from_be16 a b
    fits = omega arith

add_complements_lem :
    (sum : ℕ) (bytes : List ℕ)
    → All IsByte bytes
    → sum + 0xffff * pairs bytes < 2 ^ 32
    → add_complements sum bytes + words bytes ≡ sum + 0xffff * pairs bytes
unfolding add_complements words pairs
add_complements_lem sum [] h small = omega arith
add_complements_lem sum (a ∷ []) h small = omega arith
add_complements_lem sum (a ∷ b ∷ rest) (ha, (hb, h)) small = omega (
  arith,
  ap (λ (n : ℕ). add_complements n rest) fits,
  add_complements_lem (sum + complement (from_be16 a b)) rest h (omega arith),
)
  where
    fits : (sum + complement (from_be16 a b)) % 2 ^ 32 ≡ sum + complement (from_be16 a b)
    fits = omega arith

-- What the sums say together.
congruent :
    (f a middle new old start pairs others : ℕ)
    → f % 0xffff ≡ a % 0xffff
    → a ≡ middle + new
    → middle + old ≡ start + 0xffff * pairs
    → start % 0xffff ≡ (others + old) % 0xffff
    → f % 0xffff ≡ (others + new) % 0xffff
congruent f a middle new old start pairs others h1 h2 h3 h4 = omega arith

twice : (f : ℕ) → f < 2 ^ 16 → complement (complement (f % 2 ^ 16)) ≡ f
twice f h = omega arith

-- Where a checksum is right for data, adjusting it for bytes of the data that are replaced gives one
-- that is right for the new data: both modulo 2^16 - 1, the data's other words being `others`.
pub adjust_checksum_lem :
    (old_sum others : ℕ) (old new : List ℕ)
    → old_sum < 2 ^ 16
    → All IsByte old
    → All IsByte new
    → length old ≤ 2 ^ 15
    → length new ≤ 2 ^ 15
    → complement old_sum % 0xffff ≡ (others + words old) % 0xffff
    → complement (adjust_checksum old_sum old new) % 0xffff ≡ (others + words new) % 0xffff
unfolding adjust_checksum
adjust_checksum_lem old_sum others old new small is_old is_new short_old short_new right =
    ap (λ n. n % 0xffff) (twice (fold 3 (add_words middle new)) result.0)
    ∙ congruent (fold 3 (add_words middle new)) (add_words middle new) middle (words new)
        (words old) start (pairs old) others result.1 added removed right
  where
    start : ℕ
    start = complement old_sum

    middle : ℕ
    middle = add_complements start old

    removed : middle + words old ≡ start + 0xffff * pairs old
    removed = add_complements_lem start old is_old (omega (arith, pairs_small old))

    added : add_words middle new ≡ middle + words new
    added =
        add_words_lem middle new is_new (omega (arith, removed, pairs_small old, pairs_small new))

    result :
        (fold 3 (add_words middle new) < 2 ^ 16)
        × (fold 3 (add_words middle new) % 0xffff ≡ add_words middle new % 0xffff)
    result =
        fold_lem (add_words middle new)
          (omega (arith, added, removed, pairs_small old, pairs_small new, words_small new is_new))

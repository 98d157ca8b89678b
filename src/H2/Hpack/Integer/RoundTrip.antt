-- ===== src/H2/Hpack/Integer/RoundTrip.antt =====
-- What `encode_integer` writes, and that `decode_integer` reads it back.
use Prim.Native.Nat.{bit_and}
use tailfeather.Common.{ℕ, zero, suc, ◌+◌, ◌*◌, ◌/◌, ◌%◌, ◌^◌, ◌≤◌, ◌<◌, ◌≡◌, ap, ◌∙◌, arith}
use tailfeather.Common.{leb, if◌then◌else◌, Bool-cases, inl, inr}
use tailfeather.Common.{List, [], ◌∷◌, ◌++◌, ok}
use tailfeather.Common.Bits.{bit, bit_and-pow, bit_and_mask}
use native.Mathlib.Nat.{pow-suc, div-add-mod, pow-le-pow_right, mod-eq_of_lt}
use native.Mathlib.Decide.{dec_le}
use native.Mathlib.Numerals.{towards_suc}
use tailfeather.H2.Hpack.Integer.{decode_more}

-- The groups of seven bits of a number below 128 ^ (k + 1), lowest first, each but the last with
-- the top bit set.
unfoldable pub groups : ℕ → ℕ → List ℕ
groups zero n = n ∷ []
groups (suc k) n =
    let rest = groups k (n / 128) in if leb 128 n then (n % 128 + 128) ∷ rest else n ∷ []

pub low_seven : (b : ℕ) → bit_and b 0x7f ≡ b % 128
low_seven b = bit_and_mask 7 b

pub top_bit : (b : ℕ) → bit_and b 0x80 ≡ b / 128 % 2 * 128
unfolding bit
top_bit b = bit_and-pow b 7 ∙ omega arith

shift_group : (s : ℕ) → 2 ^ (s + 7) ≡ 128 * 2 ^ s
shift_group s = simp towards_suc (omega arith)

-- A number that fills a group and still fits 64 bits leaves room for the next group.
next_shift : (n s : ℕ) → 128 ≤ n → n * 2 ^ s < 2 ^ 64 → s + 7 ≤ 63
next_shift n s big fits = elim (dec_le (s + 7) 63) [
  | yes h ↦ h
  | no far ↦ absurd (
      omega (
        arith,
        shift_group s,
        pow-le-pow_right {n = 2} (omega arith) {i = 64} {j = s + 7} (omega arith),
        le_mul (2 ^ s) 128 n big,
      ))
]
  where
    le_mul : (p a b : ℕ) → a ≤ b → a * p ≤ b * p
    le_mul p a b h = grind arith

last_group :
    (w value shift : ℕ) (rest : List ℕ)
    → w < 128
    → shift ≤ 63
    → value + w * 2 ^ shift < 2 ^ 64
    → decode_more (w ∷ rest) value shift ≡ ok (value + w * 2 ^ shift, rest)
unfolding decode_more
last_group w value shift rest hw hs fits =
    rw
      (
        low_seven w,
        top_bit w,
        mod-eq_of_lt hw,
        mod-eq_of_lt {n = w * 2 ^ shift} {m = 2 ^ 64} (omega arith),
      )
      (ground arith)

pub inner_group :
    (g value shift : ℕ) (rest : List ℕ)
    → g < 128
    → shift ≤ 63
    → value + g * 2 ^ shift < 2 ^ 64
    → decode_more ((g + 128) ∷ rest) value shift
      ≡ decode_more rest (value + g * 2 ^ shift) (shift + 7)
unfolding decode_more
inner_group g value shift rest hg hs fits =
    rw
      (
        low_seven (g + 128),
        top_bit (g + 128),
        small,
        mod-eq_of_lt {n = g * 2 ^ shift} {m = 2 ^ 64} (omega arith),
      )
      (ground arith)
  where
    small : (g + 128) % 128 ≡ g
    small = omega arith

-- The lowest group of `n` and the rest, both at `s`.
split_groups : (n s : ℕ) → n * 2 ^ s ≡ n % 128 * 2 ^ s + n / 128 * 2 ^ (s + 7)
split_groups n s = omega (
  arith,
  ap (λ (t : ℕ). t * 2 ^ s) (div-add-mod n 128),
  ap (λ (t : ℕ). n / 128 * t) (shift_group s),
)

pub decode_more-groups :
    (k n value shift : ℕ) (rest : List ℕ)
    → n < 128 ^ suc k
    → shift ≤ 63
    → value + n * 2 ^ shift < 2 ^ 64
    → decode_more (groups k n ++ rest) value shift ≡ ok (value + n * 2 ^ shift, rest)
unfolding groups
decode_more-groups zero n value shift rest hn hs fits = last_group n value shift rest hn hs fits
decode_more-groups (suc k) n value shift rest hn hs fits = elim (Bool-cases (leb 128 n)) [
  | inr small ↦ rw small (last_group n value shift rest (ground arith) hs fits)
  | inl big ↦ rw big (
      inner_group (n % 128) value shift (groups k (n / 128) ++ rest) (omega arith) hs
        (omega (arith, split_groups n shift))
      ∙ decode_more-groups k (n / 128) (value + n % 128 * 2 ^ shift) (shift + 7) rest
          (omega (arith, pow-suc 128 (suc k))) (next_shift n shift (ground arith) (omega arith))
          (omega (arith, split_groups n shift))
      ∙ ap (λ v. ok (v, rest)) (omega (arith, split_groups n shift)))
]

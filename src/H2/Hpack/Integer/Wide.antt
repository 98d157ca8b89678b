-- ===== src/H2/Hpack/Integer/Wide.antt =====
-- Integers that do not fit 64 bits: which are refused, and which are not.
use tailfeather.Common.{ℕ, zero, suc, ◌+◌, ◌-◌, ◌*◌, ◌%◌, ◌^◌, ◌≤◌, ◌<◌, ◌≡◌, ap, ◌∙◌, arith}
use tailfeather.Common.{List, [], ◌∷◌, ◌++◌, length, ok, ltb}
use Prim.Native.Nat.{bit_and}
use tailfeather.Common.{replicate, false}
use tailfeather.Common.Bits.{bit_and_mask}
use native.Mathlib.Nat.{pow-le-pow_right, one-le-pow, mod-eq_of_lt}
use tailfeather.H2.Hpack.Integer.{decode_more, decode_integer}
use tailfeather.H2.Hpack.Integer.RoundTrip.{low_seven, top_bit, inner_group}

decode_more_bounds :
    (input : List ℕ) (value shift v : ℕ) (rest : List ℕ)
    → decode_more input value shift ≡ ok (v, rest)
    → (v < 2 ^ 64)
      × (value ≤ v)
      × (length rest < length input)
      × (7 * length input + shift ≤ 7 * length rest + 70)
unfolding decode_more
decode_more_bounds [] value shift v rest e = cc
decode_more_bounds (byte ∷ bytes) value shift v rest e = ground (
  arith,
  decode_more_bounds bytes (value + bit_and byte 0x7f * 2 ^ shift % 2 ^ 64) (shift + 7) v rest,
)

-- What `decode_integer` returns is a `u64`, and it takes at least one byte and at most eleven.
pub decode_integer_bounds :
    (input : List ℕ) (p v : ℕ) (rest : List ℕ)
    → p ≤ 8
    → decode_integer input p ≡ ok (v, rest)
    → (v < 2 ^ 64) × (length rest < length input) × (length input ≤ length rest + 11)
unfolding decode_integer
decode_integer_bounds [] p v rest hp e = cc
decode_integer_bounds (first ∷ bytes) p v rest hp e = ground (
  arith,
  pow-le-pow_right {n = 2} (omega arith) {i = p} {j = 8} hp,
  decode_more_bounds bytes (2 ^ p - 1) 0 v rest,
)

-- Groups of zeros move the shift on.
zero_groups :
    (k value shift : ℕ) (rest : List ℕ)
    → shift + 7 * k ≤ 63
    → value < 2 ^ 64
    → decode_more (replicate k 0x80 ++ rest) value shift ≡ decode_more rest value (shift + 7 * k)
zero_groups zero value shift rest h fits = ap (decode_more rest value) (omega arith)
zero_groups (suc k) value shift rest h fits =
    inner_group 0 value shift (replicate k 0x80 ++ rest) (omega arith) (omega arith) (omega arith)
    ∙ ap (λ v. decode_more (replicate k 0x80 ++ rest) v (shift + 7)) (omega arith)
    ∙ zero_groups k value (shift + 7) rest (omega arith) fits
    ∙ ap (decode_more rest value) (omega arith)

top_group :
    (g value : ℕ) (rest : List ℕ)
    → g < 128
    → value < 2 ^ 63
    → decode_more (g ∷ rest) value 63 ≡ ok (value + g % 2 * 2 ^ 63, rest)
unfolding decode_more
top_group g value rest hg hv = rw (low_seven g, top_bit g, mod-eq_of_lt hg, shifted) (ground arith)
  where
    shifted : g * 2 ^ 63 % 2 ^ 64 ≡ g % 2 * 2 ^ 63
    shifted = omega arith

-- The tenth group is shifted by 63 places, where all but its lowest bit is lost before the addition
-- is checked: an encoding of `2 ^ p - 1 + g * 2 ^ 63` is read as `2 ^ p - 1 + g % 2 * 2 ^ 63`, for
-- every prefix length `p` from 1 to 8 and every last group `g`, not refused as too large.
pub tenth_group_truncated :
    (p g : ℕ) (rest : List ℕ)
    → 1 ≤ p
    → p ≤ 8
    → g < 128
    → decode_integer ((2 ^ p - 1) ∷ (replicate 9 0x80 ++ (g ∷ rest))) p
      ≡ ok (2 ^ p - 1 + g % 2 * 2 ^ 63, rest)
unfolding decode_integer
tenth_group_truncated p g rest lo hi hg =
    rw
      (
        bit_and_mask p,
        mod-eq_of_lt {n = 2 ^ p - 1} {m = 2 ^ p} (omega (arith, one-le-pow p 2)),
        same (2 ^ p - 1),
      )
      (zero_groups 9 (2 ^ p - 1) 0 (g ∷ rest) (omega arith) (omega (arith, small))
        ∙ top_group g (2 ^ p - 1) rest hg (omega (arith, small)))
  where
    small : 2 ^ p ≤ 256
    small = pow-le-pow_right {n = 2} (omega arith) {i = p} {j = 8} hi

    same : (n : ℕ) → ltb n n ≡ false
    same n = ground arith

-- ===== src/Common/Bits.antt =====
-- Machine words bit by bit: what `|`, `&`, `!` and `<<` of a numeral do to each bit.
use Prim.Native.Nat.{ℕ, zero, suc, ◌+◌, ◌-◌, ◌*◌, ◌/◌, ◌%◌, ◌^◌, ◌≤◌, ◌<◌, min, max}
use Prim.Native.Nat.{bit_and, bit_or, bitwise, digits, bit_and-bitwise, bit_or-bitwise}
use mathlib.Core.Path.{◌≡◌, refl, ap, ◌∙◌}
use mathlib.Core.Logic.{◌≢◌}
use mathlib.Core.Bool.{Bool, true, ◌&&◌}
use native.Mathlib.Nat.{
  pow-suc, one-le-pow, mul-add-mod_self_left, mod-eq_of_lt, mod-lt, div-add-mod,
}
use native.Mathlib.Omega.{arith}

-- Bit `k` of `x`.
unfoldable pub bit : ℕ → ℕ → ℕ
bit x zero = x % 2
bit x (suc k) = bit (x / 2) k

-- The native operations recur on fuel; any fuel from the left operand on gives one result.
module _ (right : ℕ → ℕ) (op : ℕ → ℕ → ℕ) where
  enough_fuel : (f g x y : ℕ) → x ≤ f → x ≤ g → digits right op f x y ≡ digits right op g x y
  enough_fuel zero zero x y hf hg = refl
  enough_fuel zero (suc g) zero y hf hg = refl
  enough_fuel zero (suc g) (suc x) y hf hg = elim hf [ ]
  enough_fuel (suc f) zero zero y hf hg = refl
  enough_fuel (suc f) zero (suc x) y hf hg = elim hg [ ]
  enough_fuel (suc f) (suc g) zero y hf hg = refl
  enough_fuel (suc f) (suc g) (suc x) y hf hg =
      rw (enough_fuel f g (suc x / 2) (y / 2) (omega arith) (omega arith))

  bitwise_halves :
      (x y : ℕ)
      → bitwise right op (suc x) y
        ≡ bitwise right op (suc x / 2) (y / 2) * 2 + op (suc x % 2) (y % 2)
  bitwise_halves x y =
      omega (arith, enough_fuel x (suc x / 2) (suc x / 2) (y / 2) (omega arith) (omega arith))

pub bit_or_halves : (x y : ℕ) → bit_or x y ≡ bit_or (x / 2) (y / 2) * 2 + max (x % 2) (y % 2)
bit_or_halves zero y = simp bit_or-bitwise (omega arith)
bit_or_halves (suc x) y = simp bit_or-bitwise (bitwise_halves (λ r. r) max x y)

pub bit_and_halves : (x y : ℕ) → bit_and x y ≡ bit_and (x / 2) (y / 2) * 2 + min (x % 2) (y % 2)
bit_and_halves zero y = simp bit_and-bitwise (omega arith)
bit_and_halves (suc x) y = simp bit_and-bitwise (bitwise_halves (λ r. 0) min x y)

pub bit-le-one : (x k : ℕ) → bit x k ≤ 1
unfolding bit
bit-le-one x zero = omega arith
bit-le-one x (suc k) = bit-le-one (x / 2) k

pub bit-bit_or : (x y k : ℕ) → bit (bit_or x y) k ≡ max (bit x k) (bit y k)
unfolding bit
bit-bit_or x y zero = omega (arith, bit_or_halves x y)
bit-bit_or x y (suc k) =
    ap (λ v. bit v k) (omega (arith, bit_or_halves x y)) ∙ bit-bit_or (x / 2) (y / 2) k

pub bit-bit_and : (x y k : ℕ) → bit (bit_and x y) k ≡ min (bit x k) (bit y k)
unfolding bit
bit-bit_and x y zero = omega (arith, bit_and_halves x y)
bit-bit_and x y (suc k) =
    ap (λ v. bit v k) (omega (arith, bit_and_halves x y)) ∙ bit-bit_and (x / 2) (y / 2) k

bit-zero : (k : ℕ) → bit 0 k ≡ 0
unfolding bit
bit-zero zero = refl
bit-zero (suc k) = bit-zero k

halve_pow : (k : ℕ) → 2 ^ suc k / 2 ≡ 2 ^ k
halve_pow k = omega (arith, pow-suc 2 k)

-- The mask `1 << i` has bit `i` and no other.
pub bit-pow_self : (i : ℕ) → bit (2 ^ i) i ≡ 1
unfolding bit
bit-pow_self zero = refl
bit-pow_self (suc i) = rw (halve_pow i) (bit-pow_self i)

pub bit-pow_ne : (i k : ℕ) → i ≢ k → bit (2 ^ i) k ≡ 0
unfolding bit
bit-pow_ne zero zero h = absurd (h refl)
bit-pow_ne zero (suc k) h = bit-zero k
bit-pow_ne (suc i) zero h = omega (arith, pow-suc 2 i)
bit-pow_ne (suc i) (suc k) h = rw (halve_pow i) (bit-pow_ne i k (λ e. h (ap suc e)))

-- `!m` on a word of `w` bits.
pub bit-complement : (w m k : ℕ) → m < 2 ^ w → k < w → bit (2 ^ w - 1 - m) k ≡ 1 - bit m k
unfolding bit
bit-complement zero m k hm hk = elim hk [ ]
bit-complement (suc w) m zero hm hk = omega (arith, pow-suc 2 w)
bit-complement (suc w) m (suc k) hm hk =
    ap (λ v. bit v k) half ∙ bit-complement w (m / 2) k (omega (arith, pow-suc 2 w)) (omega arith)
  where
    half : (2 ^ suc w - 1 - m) / 2 ≡ 2 ^ w - 1 - m / 2
    half = omega (arith, pow-suc 2 w)

pub zero-bit_and : (y : ℕ) → bit_and 0 y ≡ 0
zero-bit_and y = bit_and-bitwise 0 y

bit_and-zero_fuel : (n x : ℕ) → x ≤ n → bit_and x 0 ≡ 0
bit_and-zero_fuel n zero h = refl
bit_and-zero_fuel zero (suc x) h = elim h [ ]
bit_and-zero_fuel (suc n) (suc x) h =
    omega (arith, bit_and_halves (suc x) 0, bit_and-zero_fuel n (suc x / 2) (omega arith))

pub bit_and-zero : (x : ℕ) → bit_and x 0 ≡ 0
bit_and-zero x = bit_and-zero_fuel x x (omega arith)

-- `x & (1 << k)` is bit `k`, in place.
pub bit_and-pow : (x k : ℕ) → bit_and x (2 ^ k) ≡ bit x k * 2 ^ k
unfolding bit
bit_and-pow x zero = omega (arith, bit_and_halves x 1, bit_and-zero (x / 2))
bit_and-pow x (suc k) = omega (
  arith,
  bit_and_halves x (2 ^ suc k),
  pow-suc 2 k,
  ap (λ v. bit_and (x / 2) v) (halve_pow k),
  bit_and-pow (x / 2) k,
  ap (λ (t : ℕ). bit (x / 2) k * t) (pow-suc 2 k),
)

mod_double : (p x : ℕ) → 0 < p → x % (p * 2) ≡ x / 2 % p * 2 + x % 2
mod_double p x h =
    ap (λ v. v % (p * 2)) parts
    ∙ mul-add-mod_self_left (p * 2) (x / 2 / p) (x / 2 % p * 2 + x % 2)
    ∙ mod-eq_of_lt (omega (arith, mod-lt (x / 2) h))
  where
    parts : x ≡ p * 2 * (x / 2 / p) + (x / 2 % p * 2 + x % 2)
    parts = omega (arith, div-add-mod (x / 2) p)

-- `x & ((1 << k) - 1)` is the remainder by `1 << k`.
pub bit_and_mask : (k x : ℕ) → bit_and x (2 ^ k - 1) ≡ x % 2 ^ k
bit_and_mask zero x = omega (arith, bit_and-zero x)
bit_and_mask (suc k) x = omega (
  arith,
  one-le-pow k 2,
  pow-suc 2 k,
  bit_and_halves x (2 ^ suc k - 1),
  ap (λ v. bit_and (x / 2) v) half,
  bit_and_mask k (x / 2),
  mod_halves,
)
  where
    half : (2 ^ suc k - 1) / 2 ≡ 2 ^ k - 1
    half = omega (arith, pow-suc 2 k, one-le-pow k 2)

    mod_halves : x % 2 ^ suc k ≡ x / 2 % 2 ^ k * 2 + x % 2
    mod_halves = rw pow-suc (mod_double (2 ^ k) x (one-le-pow k 2 (omega arith)))

bit_or-zero_fuel : (n x : ℕ) → x ≤ n → bit_or x 0 ≡ x
bit_or-zero_fuel n zero h = refl
bit_or-zero_fuel zero (suc x) h = elim h [ ]
bit_or-zero_fuel (suc n) (suc x) h =
    omega (arith, bit_or_halves (suc x) 0, bit_or-zero_fuel n (suc x / 2) (omega arith))

-- Flags above a field of `k` bits, or-ed with a value that fits the field, are a sum.
pub bit_or_disjoint :
    (k high low : ℕ) → low < 2 ^ k → bit_or (high * 2 ^ k) low ≡ high * 2 ^ k + low
bit_or_disjoint zero high low h = ground (arith, bit_or-zero_fuel high high)
bit_or_disjoint (suc k) high low h = omega (
  arith,
  pow-suc 2 k,
  ap (λ (t : ℕ). high * t) (pow-suc 2 k),
  bit_or_halves (high * 2 ^ suc k) low,
  ap (λ v. bit_or v (low / 2)) half,
  bit_or_disjoint k high (low / 2) (omega (arith, pow-suc 2 k)),
)
  where
    half : high * 2 ^ suc k / 2 ≡ high * 2 ^ k
    half = omega (arith, ap (λ (t : ℕ). high * t) (pow-suc 2 k))

-- Over a small range a law is checked at every value.
unfoldable pub all_below : ℕ → (ℕ → Bool) → Bool
all_below zero p = true
all_below (suc n) p = p n && all_below n p

pub all_below_sound : (n : ℕ) (p : ℕ → Bool) (x : ℕ) → all_below n p ≡ true → x < n → p x ≡ true
unfolding all_below
all_below_sound zero p x h lt = elim lt [ ]
all_below_sound (suc n) p x h lt = ground (arith, all_below_sound n p x)

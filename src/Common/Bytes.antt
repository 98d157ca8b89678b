-- ===== src/Common/Bytes.antt =====
-- Numbers as bytes: Rust's `to_le_bytes`, `to_be_bytes`, `from_le_bytes` and `from_be_bytes`.
use tailfeather.Common.{ℕ, zero, suc, ◌+◌, ◌*◌, ◌/◌, ◌%◌, ◌^◌, ◌<◌, ◌≡◌, refl, ap, ◌∙◌, arith}
use tailfeather.Common.{
  List, [], ◌∷◌, ◌++◌, length, drop, All, ◌≤◌, ltb, if◌then◌else◌, Result, ok, err,
}
use native.Mathlib.Nat.{pow-suc}

abbrev pub IsByte : ℕ → Type 0
IsByte b = b < 256

-- The `w` bytes of `n`, lowest first.
unfoldable pub to_le_bytes : ℕ → ℕ → List ℕ
to_le_bytes zero n = []
to_le_bytes (suc w) n = n % 256 ∷ to_le_bytes w (n / 256)

unfoldable pub from_le_bytes : List ℕ → ℕ
from_le_bytes [] = 0
from_le_bytes (b ∷ bs) = b + 256 * from_le_bytes bs

pub length-to_le_bytes : (w n : ℕ) → length (to_le_bytes w n) ≡ w
unfolding to_le_bytes
length-to_le_bytes zero n = refl
length-to_le_bytes (suc w) n = ap suc (length-to_le_bytes w (n / 256))

pub from_le_bytes-to_le_bytes : (w n : ℕ) → n < 256 ^ w → from_le_bytes (to_le_bytes w n) ≡ n
unfolding to_le_bytes from_le_bytes
from_le_bytes-to_le_bytes zero n h = omega arith
from_le_bytes-to_le_bytes (suc w) n h =
    omega
      (arith, pow-suc 256 w, from_le_bytes-to_le_bytes w (n / 256) (omega (arith, pow-suc 256 w)))

pub to_le_bytes-IsByte : (w n : ℕ) → All IsByte (to_le_bytes w n)
unfolding to_le_bytes
to_le_bytes-IsByte zero n = tt
to_le_bytes-IsByte (suc w) n = (omega arith, to_le_bytes-IsByte w (n / 256))

-- `u16::to_be_bytes` and back.
unfoldable pub be16 : ℕ → List ℕ
be16 n = n / 256 % 256 ∷ n % 256 ∷ []

abbrev pub from_be16 : ℕ → ℕ → ℕ
from_be16 a b = a * 256 + b

-- `u32::to_be_bytes` and back.
unfoldable pub be32 : ℕ → List ℕ
be32 n = n / 256 ^ 3 % 256 ∷ n / 256 ^ 2 % 256 ∷ n / 256 % 256 ∷ n % 256 ∷ []

abbrev pub from_be32 : ℕ → ℕ → ℕ → ℕ → ℕ
from_be32 a b c d = a * 256 ^ 3 + b * 256 ^ 2 + c * 256 + d

-- `&mut out[at..at + n]` overwritten by `src`, which is `n` bytes long.
unfoldable pub write_at : List ℕ → ℕ → List ℕ → List ℕ
write_at [] at src = []
write_at (x ∷ out) zero [] = x ∷ out
write_at (x ∷ out) zero (s ∷ src) = s ∷ write_at out zero src
write_at (x ∷ out) (suc at) src = x ∷ write_at out at src

pub from_be16-be16 : (n : ℕ) → n < 2 ^ 16 → from_be16 (n / 256 % 256) (n % 256) ≡ n
from_be16-be16 n h = omega arith

pub from_be32-be32 :
    (n : ℕ)
    → n < 2 ^ 32
    → from_be32 (n / 256 ^ 3 % 256) (n / 256 ^ 2 % 256) (n / 256 % 256) (n % 256) ≡ n
from_be32-be32 n h = omega arith

-- `out.get_mut(..len).ok_or(e)?`, then all of these `len` bytes written; the buffer afterwards.
abbrev pub put_front {ℓ} : {E : Type ℓ} → E → List ℕ → List ℕ → List ℕ × Result E ℕ
put_front e bytes out =
    if ltb (length out) (length bytes)
    then (out, err e)
    else (bytes ++ drop (length bytes) out, ok (length bytes))

pub put_front_fits {ℓ} :
    {E : Type ℓ} (e : E) (bytes out : List ℕ) (n : ℕ)
    → length bytes ≡ n
    → n ≤ length out
    → put_front e bytes out ≡ (bytes ++ drop n out, ok n)
put_front_fits e bytes out n is h =
    ground (arith, is) ∙ ap (λ (k : ℕ). (bytes ++ drop k out, ok k)) is

pub IsByte-be16 : (n : ℕ) → All IsByte (be16 n)
unfolding be16
IsByte-be16 n = omega arith

pub write_at-zero :
    (out src : List ℕ) → length src ≤ length out → write_at out 0 src ≡ src ++ drop (length src) out
unfolding write_at
write_at-zero [] [] h = refl
write_at-zero [] (s ∷ src) h = absurd (omega arith)
write_at-zero (x ∷ out) [] h = refl
write_at-zero (x ∷ out) (s ∷ src) h = ap (λ l. s ∷ l) (write_at-zero out src (omega arith))

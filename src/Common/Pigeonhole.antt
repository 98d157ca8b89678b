-- ===== src/Common/Pigeonhole.antt =====
-- More numbers than a list has entries: one of them is not in the list.
use Prim.Native.Nat.{ℕ, zero, suc, ◌<◌}
use mathlib.Core.Path.{◌≡◌, sym, ap, ◌∙◌}
use mathlib.Core.Logic.{◌≢◌, ◌⊎◌, inl, inr}
use mathlib.Core.List.{List, [], ◌∷◌}
use native.Mathlib.Omega.{arith}
use tailfeather.Common.Tests.{◌==◌, if◌then◌else◌, Bool-cases, ==→eq}
use tailfeather.Common.Lists.{length, All}

eq_or_ne : (a b : ℕ) → (a ≡ b) ⊎ (a ≢ b)
eq_or_ne a b = elim (Bool-cases (a == b)) [
  | inl h ↦ inl (==→eq a b h)
  | inr h ↦ inr (λ e. absurd (ground (arith, h, e)))
]

-- The value x among the first n, if it is there.
locate : (f : ℕ → ℕ) (x n : ℕ) → ((k : ℕ) × (k < n) × (f k ≡ x)) ⊎ ((k : ℕ) → k < n → f k ≢ x)
locate f x zero = inr (λ k small e. absurd (omega (arith, small)))
locate f x (suc n) = elim (eq_or_ne (f n) x) [
  | inl e ↦ inl (n, omega arith, e)
  | inr ne ↦ elim (locate f x n) [
    | inl (k, small, e) ↦ inl (k, omega (arith, small), e)
    | inr absent ↦ inr (λ k small. elim (eq_or_ne k n) [
      | inl same ↦ λ e. ne (ap f (sym same) ∙ e)
      | inr differs ↦ absent k (omega (arith, small, differs))
    ])
  ]
]

-- The indices below m, with m in the place of k.
moved : ℕ → ℕ → ℕ → ℕ
moved k m i = if i == k then m else i

moved-lt : (k m i : ℕ) → i < m → moved k m i < suc m
unfolding moved
moved-lt k m i small = ground arith

moved-ne : (k m i : ℕ) → i < m → moved k m i ≢ k
unfolding moved
moved-ne k m i small = ground arith

moved-injective : (k m i j : ℕ) → i < m → j < m → moved k m i ≡ moved k m j → i ≡ j
unfolding moved
moved-injective k m i j small small' e = ground arith

-- Distinct among the first of this many.
abbrev pub IsDistinctBelow : (ℕ → ℕ) → ℕ → Type 0
IsDistinctBelow f n = (i j : ℕ) → i < n → j < n → f i ≡ f j → i ≡ j

pub pigeonhole :
    (l : List ℕ) (f : ℕ → ℕ) (n : ℕ)
    → length l < n
    → IsDistinctBelow f n
    → (k : ℕ) × (k < n) × All (λ x. x ≢ f k) l
pigeonhole [] f n more distinct = (0, omega (arith, more), tt)
pigeonhole (x ∷ l) f zero more distinct = absurd (omega (arith, more))
pigeonhole (x ∷ l) f (suc m) more distinct = elim (locate f x (suc m)) [
  | inl (k, small, at_k) ↦
      let (i, within, free) =
        pigeonhole l (λ i. f (moved k m i)) m (omega (arith, more))
          (λ i j small_i small_j e. moved-injective k m i j small_i small_j (
            distinct (moved k m i) (moved k m j) (moved-lt k m i small_i) (moved-lt k m j small_j)
              e)) in
      (
        moved k m i,
        moved-lt k m i within,
        (
          (λ e.
              moved-ne k m i within
                (distinct (moved k m i) k (moved-lt k m i within) small (sym e ∙ sym at_k))),
          free,
        ),
      )
  | inr absent ↦
      let (i, within, free) = pigeonhole l f (suc m) (omega (arith, more)) distinct in
      (i, within, ((λ e. absent i within (sym e)), free))
]

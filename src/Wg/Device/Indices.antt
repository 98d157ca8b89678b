-- ===== src/Wg/Device/Indices.antt =====
-- The session indices that a device of crates/wg-core/src/lib.rs allocates.
use tailfeather.Common.{ℕ, zero, suc, ◌*◌, ◌≡◌, ◌≢◌, ◌<◌, ◌≤◌, refl, arith, false, ◌==◌, ==→eq}
use tailfeather.Common.{
  Option, none, some, List, [], ◌∷◌, ◌++◌, length, length-append, All, Bool-cases, inl, inr,
}
use tailfeather.Common.Bytes.{from_le_bytes}
use tailfeather.Common.Pigeonhole.{pigeonhole}
use tailfeather.Wg.Session.{Session}
use tailfeather.Wg.Device.{Peer}
use tailfeather.Wg.Device.Handshakes.{has_index, is_taken, allocate_index}

-- The indices of the sessions in a table, current and previous.
abbrev pub index_of : Option Session → List ℕ
index_of none = []
index_of (some s) = s.local_index ∷ []

abbrev pub session_indices : List Peer → List ℕ
session_indices [] = []
session_indices (p ∷ ps) = index_of p.current ++ (index_of p.previous ++ session_indices ps)

All-append : (P : ℕ → Type 0) (xs ys : List ℕ) → All P xs → All P ys → All P (xs ++ ys)
All-append P [] ys hx hy = hy
All-append P (x ∷ xs) ys hx hy = (hx.0, All-append P xs ys hx.1 hy)

All-front : (P : ℕ → Type 0) (xs ys : List ℕ) → All P (xs ++ ys) → All P xs
All-front P [] ys h = tt
All-front P (x ∷ xs) ys h = (h.0, All-front P xs ys h.1)

All-back : (P : ℕ → Type 0) (xs ys : List ℕ) → All P (xs ++ ys) → All P ys
All-back P [] ys h = h
All-back P (x ∷ xs) ys h = All-back P xs ys h.1

length-index_of : (o : Option Session) → length (index_of o) ≤ 1
length-index_of none = omega arith
length-index_of (some s) = omega arith

length-session_indices : (ps : List Peer) → length (session_indices ps) ≤ 2 * length ps
length-session_indices [] = omega arith
length-session_indices (p ∷ ps) = omega (
  arith,
  length-append (index_of p.current) (index_of p.previous ++ session_indices ps),
  length-append (index_of p.previous) (session_indices ps),
  length-index_of p.current,
  length-index_of p.previous,
  length-session_indices ps,
)

-- The test of a session, and of the table, against those indices.
has_index-free :
    (o : Option Session) (k : ℕ) → has_index o k ≡ false → All (λ x. x ≢ k) (index_of o)
has_index-free none k h = tt
has_index-free (some s) k h = ((λ e. absurd (ground (arith, h, e))), tt)

free-has_index :
    (o : Option Session) (k : ℕ) → All (λ x. x ≢ k) (index_of o) → has_index o k ≡ false
free-has_index none k h = refl
free-has_index (some s) k h = elim (Bool-cases (s.local_index == k)) [
  | inl e ↦ absurd (h.0 (==→eq s.local_index k e))
  | inr e ↦ e
]

is_taken-free :
    (ps : List Peer) (k : ℕ) → is_taken ps k ≡ false → All (λ x. x ≢ k) (session_indices ps)
unfolding is_taken
is_taken-free [] k h = tt
is_taken-free (p ∷ ps) k h =
    All-append (λ x. x ≢ k) (index_of p.current) (index_of p.previous ++ session_indices ps)
      (has_index-free p.current k (ground (arith, h)))
      (All-append (λ x. x ≢ k) (index_of p.previous) (session_indices ps)
        (has_index-free p.previous k (ground (arith, h))) (is_taken-free ps k (ground (arith, h))))

free-is_taken :
    (ps : List Peer) (k : ℕ) → All (λ x. x ≢ k) (session_indices ps) → is_taken ps k ≡ false
unfolding is_taken
free-is_taken [] k h = refl
free-is_taken (p ∷ ps) k h =
    let back =
      All-back (λ x. x ≢ k) (index_of p.current) (index_of p.previous ++ session_indices ps) h in
    rw
      (
        free-has_index p.current k (
            All-front (λ x. x ≢ k) (index_of p.current) (index_of p.previous ++ session_indices ps)
              h),
        free-has_index p.previous k
            (All-front (λ x. x ≢ k) (index_of p.previous) (session_indices ps) back),
        free-is_taken ps k (All-back (λ x. x ≢ k) (index_of p.previous) (session_indices ps) back),
      )
      refl

module _ {R : Type 0} (fill_bytes : R → ℕ → List ℕ × R) where
  -- The candidate of this number that the generator draws.
  abbrev pub candidate : R → ℕ → ℕ
  candidate rng zero = from_le_bytes (fill_bytes rng 4).0
  candidate rng (suc n) = candidate (fill_bytes rng 4).1 n

  -- The loop ends by the first candidate that passes its test.
  free_found :
      (ps : List Peer) (rng : R) (n fuel : ℕ)
      → n < fuel
      → is_taken ps (candidate rng n) ≡ false
      → (index : ℕ) × (rng' : R) × (allocate_index fill_bytes fuel ps rng ≡ some (index, rng'))
        × (is_taken ps index ≡ false)
  unfolding allocate_index
  free_found ps rng n zero enough h = absurd (omega (arith, enough))
  free_found ps rng zero (suc fuel) enough h = (candidate rng 0, (fill_bytes rng 4).1, rw h refl, h)
  free_found ps rng (suc n) (suc fuel) enough h =
      elim (Bool-cases (is_taken ps (candidate rng 0))) [
        | inl taken ↦
            let (index, rng', done, free) =
              free_found ps (fill_bytes rng 4).1 n fuel (omega (arith, enough)) h in
            (index, rng', rw taken done, free)
        | inr free ↦ (candidate rng 0, (fill_bytes rng 4).1, rw free refl, free)
      ]

  -- If the generator draws different candidates, one more of them than twice the number of peers is
  -- enough: the loop ends, and with an index that no session in the table has, current or previous.
  pub allocate_index_finishes :
      (ps : List Peer) (rng : R) (fuel : ℕ)
      → 2 * length ps < fuel
      → ((i j : ℕ) → i < fuel → j < fuel → candidate rng i ≡ candidate rng j → i ≡ j)
      → (index : ℕ) × (rng' : R) × (allocate_index fill_bytes fuel ps rng ≡ some (index, rng'))
        × All (λ taken. taken ≢ index) (session_indices ps)
  allocate_index_finishes ps rng fuel enough distinct =
      let (k, within, free) =
        pigeonhole (session_indices ps) (candidate rng) fuel
          (omega (arith, enough, length-session_indices ps)) distinct in
      let (index, rng', done, passed) =
        free_found ps rng k fuel within (free-is_taken ps (candidate rng k) free) in
      (index, rng', done, is_taken-free ps index passed)

-- ===== src/Wg/Device/Table.antt =====
-- The table of peers of a device: lookups after writes, and what `position` finds in it.
use tailfeather.Common.{ℕ, zero, suc, ◌+◌, ◌≡◌, ◌≢◌, refl, ap, ◌∙◌, arith, Bool, true, false, ◌<◌}
use tailfeather.Common.{none, some, List, [], ◌∷◌, length, get_elem?, set, get_elem?-set_self}
use tailfeather.Wg.Device.{Peer, position}

pub get_elem?-lt {ℓ} :
    {A : Type ℓ} (xs : List A) (i : ℕ) (x : A) → get_elem? xs i ≡ some x → i < length xs
get_elem?-lt [] i x h = cc
get_elem?-lt (y ∷ xs) zero x h = omega arith
get_elem?-lt (y ∷ xs) (suc i) x h = omega (arith, get_elem?-lt xs i x h)

-- An entry that is there can be replaced.
pub get_elem?-set {ℓ} :
    {A : Type ℓ} (xs : List A) (i : ℕ) (x y : A)
    → get_elem? xs i ≡ some x
    → get_elem? (set xs i y) i ≡ some y
get_elem?-set xs i x y h = get_elem?-set_self xs i y (get_elem?-lt xs i x h)

-- The only entry that passes the test is found.
pub position-only :
    (test : Peer → Bool) (ps : List Peer) (i k : ℕ) (p : Peer)
    → get_elem? ps k ≡ some p
    → test p ≡ true
    → ((j : ℕ) (o : Peer) → get_elem? ps j ≡ some o → j ≢ k → test o ≡ false)
    → position test ps i ≡ some (i + k)
unfolding position
position-only test [] i k p h passes others = cc
position-only test (q ∷ ps) i zero p h passes others =
    let same = ap (λ o. elim o [ none ↦ q | some x ↦ x ]) h in
    rw (ap test same ∙ passes) (ap some (omega arith))
position-only test (q ∷ ps) i (suc k) p h passes others =
    rw (others 0 q refl (λ e. absurd (omega (arith, e)))) (
      position-only test ps (i + 1) k p h passes
        (λ j o at ne. others (suc j) o at (λ e. ne (omega (arith, e))))
      ∙ ap some (omega arith))

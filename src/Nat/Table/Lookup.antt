-- ===== src/Nat/Table/Lookup.antt =====
-- What the searches of the table find.
use tailfeather.Common.{
  ℕ, zero, suc, ◌≤◌, ◌<◌, ◌≡◌, refl, arith, Bool, true, false, leb, if◌then◌else◌, leb→le,
  leb_false→lt, test_absurd,
}
use tailfeather.Common.{[], ◌∷◌, length, get_or, Option, none, some}
use tailfeather.Nat.Table.{
  next_index, next_key, older, Flow, Flows, is_idle, last_used, position, oldest_idle,
}

-- What a search over the slots may answer, where `P` holds of the index it finds.
abbrev pub Found : (ℕ → Type 0) → (Unit {0} → Type 0) → Option ℕ → Type 0
Found P Q (some i) = P i
Found P Q none = Q tt

-- The first slot that passes the test, or every slot fails it.
abbrev pub IsPosition : (Option Flow → Bool) → Flows → Option ℕ → Type 0
IsPosition test flows (some i) = (i < length flows) × (test (get_or flows i none) ≡ true)
IsPosition test flows none = (i : ℕ) → i < length flows → test (get_or flows i none) ≡ false

pub position_lem :
    (test : Option Flow → Bool) (flows : Flows) → IsPosition test flows (position test flows)
unfolding position
position_lem test [] = λ i small. absurd (omega (arith, small))
position_lem test (slot ∷ rest) =
    first (test slot) refl (position test rest) (position_lem test rest)
  where
    first :
        (b : Bool)
        → test slot ≡ b
        → (later : Option ℕ) → IsPosition test rest later
        → IsPosition test (slot ∷ rest) (if b then some 0 else next_index later)
    first true e later h = (omega arith, e)
    first false e (some i) h = (omega (arith, h.0), h.1)
    first false e none h = at
      where
        at : (i : ℕ) → i < suc (length rest) → test (get_or (slot ∷ rest) i none) ≡ false
        at zero small = e
        at (suc i) small = h i (omega (arith, small))

-- The first of the idle slots used least recently, or none is idle.
abbrev pub IsOldest : ℕ → ℕ → Flows → Option (ℕ × ℕ) → Type 0
IsOldest idle now flows (some (i, key)) =
    (i < length flows)
    × (is_idle idle now (get_or flows i none) ≡ true)
    × (last_used (get_or flows i none) ≡ key)
    × ((j : ℕ)
        → j < length flows
        → is_idle idle now (get_or flows j none) ≡ true
        → key ≤ last_used (get_or flows j none))
IsOldest idle now flows none =
    (j : ℕ) → j < length flows → is_idle idle now (get_or flows j none) ≡ false

pub oldest_idle_lem :
    (idle now : ℕ) (flows : Flows) → IsOldest idle now flows (oldest_idle idle now flows)
unfolding oldest_idle
oldest_idle_lem idle now [] = λ j small. absurd (omega (arith, small))
oldest_idle_lem idle now (slot ∷ rest) =
    first (is_idle idle now slot) refl (oldest_idle idle now rest) (oldest_idle_lem idle now rest)
  where
    first :
        (b : Bool)
        → is_idle idle now slot ≡ b
        → (later : Option (ℕ × ℕ)) → IsOldest idle now rest later
        → IsOldest idle now
            (slot ∷ rest)
            (if b then older (last_used slot) later else next_key later)
    first true e none h = (omega arith, e, refl, at)
      where
        at :
            (j : ℕ)
            → j < suc (length rest)
            → is_idle idle now (get_or (slot ∷ rest) j none) ≡ true
            → last_used slot ≤ last_used (get_or (slot ∷ rest) j none)
        at zero small idle_j = omega arith
        at (suc j) small idle_j = test_absurd _ idle_j (h j (omega (arith, small)))
    first true e (some (i, key)) h = choose (leb (last_used slot) key) refl
      where
        choose :
            (b : Bool)
            → leb (last_used slot) key ≡ b
            → IsOldest idle now
                (slot ∷ rest)
                (if b then some (0, last_used slot) else some (suc i, key))
        choose true k = (omega arith, e, refl, at)
          where
            at :
                (j : ℕ)
                → j < suc (length rest)
                → is_idle idle now (get_or (slot ∷ rest) j none) ≡ true
                → last_used slot ≤ last_used (get_or (slot ∷ rest) j none)
            at zero small idle_j = omega arith
            at (suc j) small idle_j =
                omega (arith, leb→le _ _ k, h.3 j (omega (arith, small)) idle_j)
        choose false k = (omega (arith, h.0), h.1, h.2, at)
          where
            at :
                (j : ℕ)
                → j < suc (length rest)
                → is_idle idle now (get_or (slot ∷ rest) j none) ≡ true
                → key ≤ last_used (get_or (slot ∷ rest) j none)
            at zero small idle_j = omega (arith, leb_false→lt _ _ k)
            at (suc j) small idle_j = h.3 j (omega (arith, small)) idle_j
    first false e none h = at
      where
        at :
            (j : ℕ) → j < suc (length rest) → is_idle idle now (get_or (slot ∷ rest) j none) ≡ false
        at zero small = e
        at (suc j) small = h j (omega (arith, small))
    first false e (some (i, key)) (small, idle_i, is_key, least) =
        (omega (arith, small), idle_i, is_key, at)
      where
        at :
            (j : ℕ)
            → j < suc (length rest)
            → is_idle idle now (get_or (slot ∷ rest) j none) ≡ true
            → key ≤ last_used (get_or (slot ∷ rest) j none)
        at zero small_j idle_j = test_absurd _ idle_j e
        at (suc j) small_j idle_j = least j (omega (arith, small_j)) idle_j

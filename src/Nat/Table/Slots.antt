-- ===== src/Nat/Table/Slots.antt =====
-- What `slot_for` does to a table.
use tailfeather.Common.{
  ℕ, zero, suc, ◌-◌, ◌≤◌, ◌<◌, ◌≡◌, ◌≢◌, refl, sym, ap, subst, ◌∙◌, arith, Bool, true, false, leb,
  leb→le, le→leb, leb_false→lt, ◌&&◌, ◌==◌, ==→eq, ==_refl, bytes_eq, bytes_eq_sound, bytes_eq_refl,
  Bool-cases, test_absurd, Option-cases, inl, inr, ◌⊎◌, if◌then◌else◌,
}
use tailfeather.Common.{
  List, [], ◌∷◌, length, set, get_or, length-set, get_or-set_self, get_or-set_ne, Option, none,
  some,
}
use tailfeather.Nat.Table.{
  Flow, Flows, matches, holds, is_free, is_idle, last_used, position, oldest_idle, victim, touch,
  slot_for, get,
}
pub mod Distinct
use tailfeather.Nat.Table.Lookup.{position_lem, oldest_idle_lem, IsPosition, IsOldest}
use tailfeather.Nat.Table.Touch.{matches-eq, length-touch, get_or-touch_other, get_or-touch}

-- Why this slot may be given to the flow asked for: it holds it, or none does and the slot is free,
-- or none does, none is free, and the slot is the idle one used least recently.
data Allowed (idle : ℕ) (flows : Flows) (asked : Flow) (i : ℕ) : Type 0 where
  held : holds asked (get_or flows i none) ≡ true → Allowed idle flows asked i
  free :
      IsPosition (holds asked) flows none
      → is_free (get_or flows i none) ≡ true
      → Allowed idle flows asked i
  oldest :
      IsPosition (holds asked) flows none
      → IsPosition is_free flows none
      → (key : ℕ) → IsOldest idle asked.last_used_ms flows (some (i, key))
      → Allowed idle flows asked i

-- What a call of `slot_for` leaves.
IsOutcome : ℕ → Flows → Flow → Flows × Option ℕ → Type 0
IsOutcome idle flows asked (flows', some i) =
    (i < length flows)
    × (get_or flows' i none ≡ some asked)
    × (length flows' ≡ length flows)
    × ((j : ℕ) → j ≢ i → get_or flows' j none ≡ get_or flows j none)
    × Allowed idle flows asked i
IsOutcome idle flows asked (flows', none) =
    (flows' ≡ flows)
    × IsPosition (holds asked) flows none
    × IsPosition is_free flows none
    × IsOldest idle asked.last_used_ms flows none

-- A search that found nothing, at any index.
misses :
    (test : Option Flow → Bool) (flows : Flows)
    → test none ≡ false
    → IsPosition test flows none
    → (j : ℕ) → test (get_or flows j none) ≡ false
misses test [] empty h j = empty
misses test (slot ∷ rest) empty h zero = h 0 (omega arith)
misses test (slot ∷ rest) empty h (suc j) =
    misses test rest empty (λ i small. h (suc i) (omega (arith, small))) j

outcome :
    (idle : ℕ) (flows : Flows) (asked : Flow)
    → IsOutcome idle flows asked (slot_for idle flows asked)
unfolding slot_for victim IsOutcome
outcome idle flows asked = found (position (holds asked) flows) (position_lem (holds asked) flows)
  where
    now : ℕ
    now = asked.last_used_ms

    put :
        (i : ℕ)
        → i < length flows
        → Allowed idle flows asked i
        → IsOutcome idle flows asked (set flows i (some asked), some i)
    put i small allowed = (
      small,
      get_or-set_self flows i (some asked) none small,
      length-set flows i (some asked),
      (λ j h. get_or-set_ne flows i j (some asked) none (λ e. h (sym e))),
      allowed,
    )

    idle_slot :
        IsPosition (holds asked) flows none
        → IsPosition is_free flows none
        → (o : Option (ℕ × ℕ)) → IsOldest idle now flows o
        → IsOutcome idle flows asked
            (elim (let v : Option ℕ = elim o [ some (i, key) ↦ some i | none ↦ none ] in v) [
              | some i ↦ (set flows i (some asked), some i)
              | none ↦ (flows, none)
            ])
    idle_slot absent full none h = (refl, absent, full, h)
    idle_slot absent full (some (i, key)) h = put i h.0 (oldest absent full key h)

    free_slot :
        IsPosition (holds asked) flows none
        → (o : Option ℕ) → IsPosition is_free flows o
        → IsOutcome idle flows asked
            (elim (let v : Option ℕ = elim o [
              | some i ↦ some i
              | none ↦ elim (oldest_idle idle now flows) [ some (i, key) ↦ some i | none ↦ none ]
            ] in
              v) [ some i ↦ (set flows i (some asked), some i) | none ↦ (flows, none) ])
    free_slot absent none h =
        idle_slot absent h (oldest_idle idle now flows) (oldest_idle_lem idle now flows)
    free_slot absent (some i) h = put i h.0 (free absent h.1)

    found :
        (o : Option ℕ)
        → IsPosition (holds asked) flows o
        → IsOutcome idle flows asked (elim o [
          | some i ↦ (touch flows i now, some i)
          | none ↦ elim (victim idle now flows) [
            | some i ↦ (set flows i (some asked), some i)
            | none ↦ (flows, none)
          ]
        ])
    found none h = free_slot h (position is_free flows) (position_lem is_free flows)
    found (some i) h = (
      h.0,
      get_or-touch flows i asked h.1,
      length-touch flows i now,
      (λ j differs. get_or-touch_other flows i j now differs),
      held h.1,
    )

IsOutcome-at :
    (idle : ℕ) (flows : Flows) (asked : Flow) (r : Flows × Option ℕ)
    → slot_for idle flows asked ≡ r
    → IsOutcome idle flows asked r
IsOutcome-at idle flows asked r e = subst (IsOutcome idle flows asked) e (outcome idle flows asked)

same_or_not : (j i : ℕ) → (j ≡ i) ⊎ (j ≢ i)
same_or_not j i = elim (Bool-cases (j == i)) [
  | inl e ↦ inl (==→eq j i e)
  | inr n ↦ inr (λ q. test_absurd (j == i) (subst (λ k. (j == k) ≡ true) q (==_refl j)) n)
]

map_inr : {A B C : Type 0} → (B → C) → A ⊎ B → A ⊎ C
map_inr f (inl a) = inl a
map_inr f (inr b) = inr (f b)

-- Where no slot is free and none holds the flow asked for, each holds another.
taken :
    (flows : Flows) (asked : Flow)
    → IsPosition (holds asked) flows none
    → IsPosition is_free flows none
    → (j : ℕ) → j < length flows
    → (g : Flow) × (get_or flows j none ≡ some g) × (matches asked g ≡ false)
taken flows asked absent full j small = by_slot (get_or flows j none) refl
  where
    by_slot :
        (slot : Option Flow)
        → get_or flows j none ≡ slot
        → (g : Flow) × (get_or flows j none ≡ some g) × (matches asked g ≡ false)
    by_slot none at_j = test_absurd _ (ap is_free at_j) (full j small)
    by_slot (some g) at_j = (g, at_j, ap (holds asked) (sym at_j) ∙ absent j small)

module _ (idle : ℕ) (flows flows' : Flows) (asked : Flow) where
  -- A slot that `slot_for` gives lies in the table and holds the flow asked for afterwards, with now
  -- as its time of use, and no other slot has changed.
  pub slot_for_holds :
      (i j : ℕ)
      → slot_for idle flows asked ≡ (flows', some i)
      → (i < length flows)
        × (get flows' i ≡ some asked)
        × (length flows' ≡ length flows)
        × ((j ≡ i) ⊎ (get flows' j ≡ get flows j))
  unfolding get IsOutcome
  slot_for_holds i j e = (o.0, o.1, o.2, map_inr (o.3 j) (same_or_not j i))
    where
      o : IsOutcome idle flows asked (flows', some i)
      o = IsOutcome-at idle flows asked (flows', some i) e

  -- A flow that `slot_for` drops for another has been idle for the timeout, and it is dropped only if
  -- every slot of the table is taken, by another flow than the one asked for, which has been used
  -- within the timeout or not longer ago than the one dropped.
  pub slot_for_spares :
      (i j : ℕ) (f : Flow)
      → slot_for idle flows asked ≡ (flows', some i)
      → get flows i ≡ some f
      → matches asked f ≡ false
      → j < length flows
      → (idle ≤ asked.last_used_ms - f.last_used_ms)
        × ((g : Flow) × (get flows j ≡ some g)
            × (matches asked g ≡ false)
            × ((asked.last_used_ms - g.last_used_ms < idle) ⊎ (f.last_used_ms ≤ g.last_used_ms)))
  unfolding get IsOutcome
  slot_for_spares i j f e at_i differs small = why o.4
    where
      now : ℕ
      now = asked.last_used_ms

      o : IsOutcome idle flows asked (flows', some i)
      o = IsOutcome-at idle flows asked (flows', some i) e

      why :
          Allowed idle flows asked i
          → (idle ≤ now - f.last_used_ms)
            × ((g : Flow) × (get_or flows j none ≡ some g)
                × (matches asked g ≡ false)
                × ((now - g.last_used_ms < idle) ⊎ (f.last_used_ms ≤ g.last_used_ms)))
      why (held h) = test_absurd _ (ap (holds asked) (sym at_i) ∙ h) differs
      why (free absent h) = test_absurd _ (ap is_free (sym at_i) ∙ h) refl
      why (oldest absent full key (within, i_idle, is_key, least)) =
          let (g, at_j, other) = taken flows asked absent full j small in
          (
            leb→le _ _ (ap (is_idle idle now) (sym at_i) ∙ i_idle),
            (
              g,
              at_j,
              other,
              elim (Bool-cases (leb idle (now - g.last_used_ms))) [
                | inl g_idle ↦ inr (
                    omega (
                      arith,
                      ap last_used (sym at_i) ∙ is_key,
                      ap last_used at_j,
                      least j small (ap (is_idle idle now) at_j ∙ g_idle),
                    ))
                | inr g_live ↦ inl (leb_false→lt _ _ g_live)
              ],
            ),
          )

  -- Where `slot_for` refuses, the table is unchanged and every slot of it holds another flow that has
  -- been used within the timeout.
  pub slot_for_refuses :
      (j : ℕ)
      → slot_for idle flows asked ≡ (flows', none)
      → j < length flows
      → (flows' ≡ flows)
        × ((f : Flow) × (get flows j ≡ some f)
            × (matches asked f ≡ false)
            × (asked.last_used_ms - f.last_used_ms < idle))
  unfolding get IsOutcome
  slot_for_refuses j e small =
      let (f, at_j, other) = taken flows asked o.1 o.2 j small in
      (o.0, (f, at_j, other, leb_false→lt _ _ (ap (is_idle idle now) (sym at_j) ∙ o.3 j small)))
    where
      now : ℕ
      now = asked.last_used_ms

      o : IsOutcome idle flows asked (flows', none)
      o = IsOutcome-at idle flows asked (flows', none) e

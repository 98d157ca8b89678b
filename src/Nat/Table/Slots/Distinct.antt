-- ===== src/Nat/Table/Slots/Distinct.antt =====
-- No two slots of a table hold the same flow.
use tailfeather.Common.{
  ℕ, zero, suc, ◌≡◌, ◌≢◌, refl, sym, ap, subst, ◌∙◌, Bool, true, false, ==_refl, bytes_eq_refl,
  Bool-cases, test_absurd, inl, inr, ◌⊎◌,
}
use tailfeather.Common.{replicate, get_or, Option, none, some}
use tailfeather.Nat.Table.{Flow, Flows, matches, holds, slot_for, new_table, slots}
use tailfeather.Nat.Table.Touch.{matches-eq}
use tailfeather.Nat.Table.Slots.{
  misses, IsOutcome-at, IsOutcome, Allowed, held, free, oldest, same_or_not,
}

-- Two slots hold the same flow.
clash : Option Flow → Option Flow → Bool
clash none other = false
clash (some f) other = holds f other

unfoldable pub IsDistinct : Flows → Type 0
unfolding clash
IsDistinct flows = (i j : ℕ) → (i ≡ j) ⊎ (clash (get_or flows i none) (get_or flows j none) ≡ false)

matches_refl : (f : Flow) → matches f f ≡ true
unfolding matches
matches_refl f =
    rw
      (
        bytes_eq_refl f.client_ip,
        ==_refl f.client_port,
        bytes_eq_refl f.server_ip,
        ==_refl f.server_port,
      )
      refl

-- Flows that agree but for the time of use match the same flows.
matches_left : (asked f g : Flow) → matches asked f ≡ true → matches asked g ≡ matches f g
unfolding matches
matches_left asked f g h = ap (λ a. matches a g) (sym (matches-eq asked f h))

matches_right : (asked f g : Flow) → matches asked f ≡ true → matches g asked ≡ matches g f
unfolding matches
matches_right asked f g h = ap (λ a. matches g a) (sym (matches-eq asked f h))

matches_sym : (f g : Flow) → matches f g ≡ false → matches g f ≡ false
matches_sym f g h = elim (Bool-cases (matches g f)) [
  | inl e ↦ test_absurd (matches f g) (matches_right g f f e ∙ matches_refl f) h
  | inr n ↦ n
]

held_clash :
    (flows : Flows) (asked f : Flow) (i : ℕ)
    → IsDistinct flows
    → get_or flows i none ≡ some f
    → matches asked f ≡ true
    → (j : ℕ) → j ≢ i
    → (holds asked (get_or flows j none) ≡ false)
      × (clash (get_or flows j none) (some asked) ≡ false)
unfolding clash IsDistinct
held_clash flows asked f i distinct at_i h j differs = (
  left (get_or flows j none)
      (ap (λ s. clash s (get_or flows j none)) (sym at_i) ∙ apart i j (λ e. differs (sym e))),
  right (get_or flows j none)
      (ap (λ s. clash (get_or flows j none) s) (sym at_i) ∙ apart j i differs),
)
  where
    apart : (m n : ℕ) → m ≢ n → clash (get_or flows m none) (get_or flows n none) ≡ false
    apart m n ne = elim (distinct m n) [ inl e ↦ absurd (ne e) | inr c ↦ c ]

    left : (o : Option Flow) → holds f o ≡ false → holds asked o ≡ false
    left none e = refl
    left (some g) e = matches_left asked f g h ∙ e

    right : (o : Option Flow) → clash o (some f) ≡ false → clash o (some asked) ≡ false
    right none e = refl
    right (some g) e = matches_right asked f g h ∙ e

absent_clash :
    (asked : Flow) (o : Option Flow)
    → holds asked o ≡ false
    → (holds asked o ≡ false) × (clash o (some asked) ≡ false)
unfolding clash
absent_clash asked none h = (refl, refl)
absent_clash asked (some g) h = (h, matches_sym asked g h)

-- A slot that is given has no clash with any other.
Allowed-clash :
    (idle : ℕ) (flows : Flows) (asked : Flow) (i : ℕ)
    → IsDistinct flows
    → Allowed idle flows asked i
    → (j : ℕ) → j ≢ i
    → (holds asked (get_or flows j none) ≡ false)
      × (clash (get_or flows j none) (some asked) ≡ false)
Allowed-clash idle flows asked i distinct (held h) j differs = holder (get_or flows i none) refl h
  where
    holder :
        (o : Option Flow)
        → get_or flows i none ≡ o
        → holds asked o ≡ true
        → (holds asked (get_or flows j none) ≡ false)
          × (clash (get_or flows j none) (some asked) ≡ false)
    holder none e t = test_absurd _ t refl
    holder (some f) e t = held_clash flows asked f i distinct e t j differs
Allowed-clash idle flows asked i distinct (free absent h) j differs =
    absent_clash asked (get_or flows j none) (misses (holds asked) flows refl absent j)
Allowed-clash idle flows asked i distinct (oldest absent full key h) j differs =
    absent_clash asked (get_or flows j none) (misses (holds asked) flows refl absent j)

-- `slot_for` never lets two slots hold the same flow.
pub slot_for-IsDistinct :
    (idle : ℕ) (flows : Flows) (asked : Flow)
    → IsDistinct flows
    → IsDistinct (slot_for idle flows asked).0
unfolding IsOutcome clash IsDistinct
slot_for-IsDistinct idle flows asked distinct =
    after (slot_for idle flows asked) (IsOutcome-at idle flows asked _ refl)
  where
    after : (r : Flows × Option ℕ) → IsOutcome idle flows asked r → IsDistinct r.0
    after (flows', none) o = subst IsDistinct (sym o.0) distinct
    after (flows', some k) o = λ i j. pair i j (same_or_not i k) (same_or_not j k)
      where
        pair :
            (i j : ℕ)
            → (i ≡ k) ⊎ (i ≢ k)
            → (j ≡ k) ⊎ (j ≢ k)
            → (i ≡ j) ⊎ (clash (get_or flows' i none) (get_or flows' j none) ≡ false)
        pair i j (inl p) (inl q) = inl (p ∙ sym q)
        pair i j (inl p) (inr q) = inr (
            (λ t. clash (get_or flows' (p t) none) (o.3 j q t))
            ∙ ap (λ s. clash s (get_or flows j none)) o.1
            ∙ (Allowed-clash idle flows asked k distinct o.4 j q).0)
        pair i j (inr p) (inl q) = inr (
            (λ t. clash (o.3 i p t) (get_or flows' (q t) none))
            ∙ ap (λ s. clash (get_or flows i none) s) o.1
            ∙ (Allowed-clash idle flows asked k distinct o.4 i p).1)
        pair i j (inr p) (inr q) = elim (distinct i j) [
          | inl e ↦ inl e
          | inr c ↦ inr ((λ t. clash (o.3 i p t) (o.3 j q t)) ∙ c)
        ]

empty_slot : (n i : ℕ) → get_or (let slots : Flows = replicate n none in slots) i none ≡ none
empty_slot zero i = refl
empty_slot (suc n) zero = refl
empty_slot (suc n) (suc i) = empty_slot n i

pub new_table-IsDistinct : IsDistinct new_table
unfolding IsDistinct clash new_table
new_table-IsDistinct i j = inr (ap (λ s. clash s (get_or new_table j none)) (empty_slot slots i))

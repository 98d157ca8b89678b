-- ===== src/Common/Results.antt =====
-- Rust's `Result`, and the operator that `?` stands for.
use mathlib.Core.Path.{◌≡◌, refl, sym, ap, subst}
use mathlib.Core.Logic.{◌⊎◌, inl, inr}
use mathlib.Core.Bool.{Bool, true, false}
use mathlib.Core.Option.{Option, none, some}
use tailfeather.Common.Tests.{if◌then◌else◌}

pub data Result {ℓ κ} (E : Type κ) (A : Type ℓ) : Type (ℓ ⊔ κ) where
  ok : A → Result E A
  err : E → Result E A

infixl 5 ◌>>=◌
abbrev pub ◌>>=◌ {ℓ κ μ} :
    {E : Type μ} {A : Type ℓ} {B : Type κ} → Result E A → (A → Result E B) → Result E B
ok a >>= f = f a
err e >>= f = err e

-- `o.ok_or(e)`.
abbrev pub ok_or {ℓ κ} : {E : Type κ} {A : Type ℓ} → Option A → E → Result E A
ok_or none e = err e
ok_or (some a) e = ok a

-- `if b { return Err(e) }`.
abbrev pub guard_not : {E : Type 0} → Bool → E → Result E (Unit {0})
guard_not true e = err e
guard_not false e = ok tt

pub Result-cases {ℓ κ} :
    {E : Type κ} {A : Type ℓ} (r : Result E A) → ((a : A) × (r ≡ ok a)) ⊎ ((e : E) × (r ≡ err e))
Result-cases (ok a) = inl (a, refl)
Result-cases (err e) = inr (e, refl)

-- Where a chain succeeds, its first part does.
pub bind-ok {ℓ κ μ} :
    {E : Type μ} {A : Type ℓ} {B : Type κ} (r : Result E A) (f : A → Result E B) (b : B)
    → (r >>= f) ≡ ok b
    → (a : A) × (r ≡ ok a) × (f a ≡ ok b)
bind-ok (ok a) f b h = (a, refl, h)
bind-ok (err e) f b h = cc

-- Where a checked result is good, the check has passed.
pub unless-ok {ℓ κ} :
    {E : Type κ} {A : Type ℓ} (b : Bool) (e : E) (r : Result E A) (a : A)
    → (if b then err e else r) ≡ ok a
    → r ≡ ok a
unless-ok true e r a h = cc
unless-ok false e r a h = h

pub when-ok {ℓ κ} :
    {E : Type κ} {A : Type ℓ} (b : Bool) (e : E) (r : Result E A) (a : A)
    → (if b then r else err e) ≡ ok a
    → r ≡ ok a
when-ok true e r a h = h
when-ok false e r a h = cc

pub ok_inj {ℓ κ} :
    {E : Type κ} {A : Type ℓ} {a b : A} → (let r : Result E A = ok a in r) ≡ ok b → a ≡ b
ok_inj {a = a} h = ap (λ r. elim r [ ok x ↦ x | err e ↦ a ]) h

-- What holds of the value, where there is one.
unfoldable pub Returns {ℓ κ μ} : {E : Type κ} {A : Type ℓ} → (A → Type μ) → Result E A → Type μ
Returns P (ok a) = P a
Returns P (err e) = Unit

pub Returns-ok {ℓ κ μ} :
    {E : Type κ} {A : Type ℓ} (P : A → Type μ) (r : Result E A) (a : A)
    → r ≡ ok a
    → P a
    → Returns P r
unfolding Returns
Returns-ok P r a e h = subst (Returns P) (sym e) h

pub Returns-err {ℓ κ μ} :
    {E : Type κ} {A : Type ℓ} (P : A → Type μ) (r : Result E A) (e : E) → r ≡ err e → Returns P r
unfolding Returns
Returns-err P r e h = subst (Returns P) (sym h) tt

pub Returns-bind {ℓ κ μ ν ρ} :
    {E : Type κ} {A : Type ℓ} {B : Type μ} (P : A → Type ν) (Q : B → Type ρ) (r : Result E A)
    (f : A → Result E B)
    → Returns P r
    → ((a : A) → P a → Returns Q (f a))
    → Returns Q (r >>= f)
unfolding Returns
Returns-bind P Q (ok a) f h next = next a h
Returns-bind P Q (err e) f h next = tt

pub Returns-then {ℓ κ μ ρ} :
    {E : Type κ} {A : Type ℓ} {B : Type μ} (Q : B → Type ρ) (r : Result E A) (f : A → Result E B)
    → ((a : A) → r ≡ ok a → Returns Q (f a))
    → Returns Q (r >>= f)
unfolding Returns
Returns-then Q (ok a) f next = next a refl
Returns-then Q (err e) f next = tt

pub Returns-if {ℓ κ μ} :
    {E : Type κ} {A : Type ℓ} (P : A → Type μ) (b : Bool) (r s : Result E A)
    → Returns P r
    → Returns P s
    → Returns P (if b then r else s)
Returns-if P true r s hr hs = hr
Returns-if P false r s hr hs = hs

pub Returns-ok_or {ℓ κ μ ν} :
    {E : Type κ} {A : Type ℓ} {B : Type μ} (Q : B → Type ν) (o : Option A) (e : E)
    (f : A → Result E B)
    → ((a : A) → o ≡ some a → Returns Q (f a))
    → Returns Q (ok_or o e >>= f)
unfolding Returns
Returns-ok_or Q none e f next = tt
Returns-ok_or Q (some a) e f next = next a refl

pub Returns-at {ℓ κ μ} :
    {E : Type κ} {A : Type ℓ} (P : A → Type μ) (r : Result E A) (a : A)
    → Returns P r
    → r ≡ ok a
    → P a
unfolding Returns
Returns-at P r a h e = subst (Returns P) e h

pub Returns-map {ℓ κ μ ν} :
    {E : Type κ} {A : Type ℓ} (P : A → Type μ) (Q : A → Type ν) (r : Result E A)
    → ((a : A) → P a → Q a)
    → Returns P r
    → Returns Q r
unfolding Returns
Returns-map P Q (ok a) f h = f a h
Returns-map P Q (err e) f h = tt

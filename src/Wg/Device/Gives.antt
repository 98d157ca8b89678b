-- ===== src/Wg/Device/Gives.antt =====
-- Chains of steps in a device of crates/wg-core/src/lib.rs that draw, fail or give a value: what the
-- value satisfies, a step at a time.
use tailfeather.Common.{◌≡◌, refl, subst, Bool, true, false, Option, none, some, Result, ok, err}
use tailfeather.Wg.Error.{Error}
use tailfeather.Wg.Device.{Device}

-- What holds of the state and the value where an operation that draws gives one.
module _ {R W : Type 0} (P : Device → W → Type 0) where
  unfoldable pub Gives : Option (Device × R × Result Error W) → Type 0
  Gives none = Unit
  Gives (some (d, rng, err e)) = Unit
  Gives (some (d, rng, ok w)) = P d w

  pub Gives-result :
      {A : Type 0} (d : Device) (rng : R) (r : Result Error A)
      (f : A → Option (Device × R × Result Error W))
      → ((a : A) → r ≡ ok a → Gives (f a))
      → Gives (elim r [ err e ↦ some (d, rng, err e) | ok a ↦ f a ])
  unfolding Gives
  Gives-result d rng (err e) f next = tt
  Gives-result d rng (ok a) f next = next a refl

  pub Gives-option :
      {A : Type 0} (d : Device) (rng : R) (e : Error) (o : Option A)
      (f : A → Option (Device × R × Result Error W))
      → ((a : A) → o ≡ some a → Gives (f a))
      → Gives (elim o [ none ↦ some (d, rng, err e) | some a ↦ f a ])
  unfolding Gives
  Gives-option d rng e none f next = tt
  Gives-option d rng e (some a) f next = next a refl

  pub Gives-bool :
      (d : Device) (rng : R) (e : Error) (b : Bool) (o : Option (Device × R × Result Error W))
      → Gives o
      → Gives (elim b [ false ↦ some (d, rng, err e) | true ↦ o ])
  unfolding Gives
  Gives-bool d rng e false o next = tt
  Gives-bool d rng e true o next = next

  pub Gives-unless :
      (d : Device) (rng : R) (e : Error) (b : Bool) (o : Option (Device × R × Result Error W))
      → Gives o
      → Gives (elim b [ true ↦ some (d, rng, err e) | false ↦ o ])
  unfolding Gives
  Gives-unless d rng e true o next = tt
  Gives-unless d rng e false o next = next

  pub Gives-drawn :
      {A : Type 0} (o : Option A) (f : A → Option (Device × R × Result Error W))
      → ((a : A) → Gives (f a))
      → Gives (elim o [ none ↦ none | some a ↦ f a ])
  unfolding Gives
  Gives-drawn none f next = tt
  Gives-drawn (some a) f next = next a

  pub Gives-sent :
      {A : Type 0} (d : Device) (rng : R) (r : Result Error A) (f : A → Device × W)
      → ((a : A) → P (f a).0 (f a).1)
      → let sent : Device × Result Error W = elim r [
        | err e ↦ (d, err e)
        | ok a ↦ ((f a).0, ok (f a).1)
      ] in
        Gives (some (sent.0, rng, sent.1))
  unfolding Gives
  Gives-sent d rng (err e) f next = tt
  Gives-sent d rng (ok a) f next = next a

  pub Gives-at :
      (o : Option (Device × R × Result Error W)) (d : Device) (rng : R) (w : W)
      → Gives o
      → o ≡ some (d, rng, ok w)
      → P d w
  unfolding Gives
  Gives-at o d rng w h e = subst Gives e h

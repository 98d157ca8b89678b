-- ===== src/Wg/Timers/Bucket.antt =====
-- The token bucket over whole histories of calls: how many handshakes it lets through, and when.
use tailfeather.Common.{ℕ, ◌+◌, ◌-◌, ◌*◌, ◌/◌, ◌≤◌, ◌≡◌, refl, arith, true, false}
use tailfeather.Common.{List, [], ◌∷◌, All, none, some, Option, if◌then◌else◌, Bool-cases, inl, inr}
use tailfeather.Wg.Timers.{
  HandshakeBudget, Instant, new_budget, refill, take, handshake_burst, handshake_rate_limit_ms,
}

-- How many of the calls of `take` at these instants are granted, and the budget they leave.
unfoldable pub granted : HandshakeBudget → List Instant → ℕ × HandshakeBudget
granted b [] = (0, b)
granted b (t ∷ ts) =
    let (b', yes_) = take b t in let (n, b'') = granted b' ts in ((if yes_ then n + 1 else n), b'')

-- With `m` refills since `t0`, no later than `end`: tokens in hand.
record Paid (t0 end m : ℕ) (b : HandshakeBudget) : Type 0 where
  bounded : b.tokens ≤ handshake_burst
  stamp : b.last_refill ≡ some (t0 + m * handshake_rate_limit_ms)
  early : t0 + m * handshake_rate_limit_ms ≤ end

-- One refill earns `e` tokens at most, and moves the stamp on by `e` intervals.
refill-Paid :
    (t0 end m t : ℕ) (b : HandshakeBudget)
    → Paid t0 end m b
    → t ≤ end
    → let e = (t - (t0 + m * handshake_rate_limit_ms)) / handshake_rate_limit_ms in
      Paid t0 end (m + e) (refill b t) × ((refill b t).tokens ≤ b.tokens + e)
unfolding refill
refill-Paid t0 end m t b p h = ground (arith, p.stamp)

take-Paid :
    (t0 end m t : ℕ) (b : HandshakeBudget)
    → Paid t0 end m b
    → t ≤ end
    → (e : ℕ) × Paid t0 end (m + e) (take b t).0
      × ((take b t).0.tokens + (if (take b t).1 then 1 else 0) ≤ b.tokens + e)
unfolding take
take-Paid t0 end m t b p h =
    let e = (t - (t0 + m * handshake_rate_limit_ms)) / handshake_rate_limit_ms in
    (e, ground (arith, refill-Paid t0 end m t b p h), ground (arith, refill-Paid t0 end m t b p h))

granted-Paid :
    (t0 end m : ℕ) (b : HandshakeBudget) (ts : List Instant)
    → Paid t0 end m b
    → All (λ t. t ≤ end) ts
    → (granted b ts).0 + m ≤ b.tokens + (end - t0) / handshake_rate_limit_ms
unfolding granted
granted-Paid t0 end m b [] p h = omega arith
granted-Paid t0 end m b (t ∷ ts) p (le, h) =
    let (e, q, r) = take-Paid t0 end m t b p le in
    ground (arith, r, granted-Paid t0 end (m + e) (take b t).0 ts q h)

-- The first call stamps the bucket.
first-Paid :
    (t0 end : ℕ)
    → t0 ≤ end
    → Paid t0 end 0 (take new_budget t0).0
      × ((take new_budget t0).0.tokens + (if (take new_budget t0).1 then 1 else 0)
          ≤ handshake_burst)
unfolding take new_budget
first-Paid t0 end h = ground arith

-- Over any history of calls of `take` on a new budget, the first at `t0` and none later than `end`,
-- in any order of the clock, at most `HANDSHAKE_BURST` calls and one more for each whole
-- `HANDSHAKE_RATE_LIMIT_MS` between `t0` and `end` are granted.
pub granted_bound :
    (t0 end : ℕ) (ts : List Instant)
    → t0 ≤ end
    → All (λ t. t ≤ end) ts
    → (granted new_budget (t0 ∷ ts)).0 ≤ handshake_burst + (end - t0) / handshake_rate_limit_ms
unfolding granted
granted_bound t0 end ts le h =
    let (p, q) = first-Paid t0 end le in
    ground (arith, q, granted-Paid t0 end 0 (take new_budget t0).0 ts p h)

-- The stamp, if there is one, is not in the future of `t`.
abbrev pub NotAfter : Option Instant → Instant → Type 0
NotAfter none t = Unit
NotAfter (some last) t = last ≤ t

abbrev stamp_or_zero : Option Instant → Instant
stamp_or_zero none = 0
stamp_or_zero (some last) = last

-- What a refusal at `t` leaves: no token, and a stamp less than an interval back.
record Empty (t last : ℕ) (b : HandshakeBudget) : Type 0 where
  none_left : b.tokens ≡ 0
  stamped : b.last_refill ≡ some last
  past : last ≤ t

refused-Empty :
    (b : HandshakeBudget) (t : Instant)
    → NotAfter b.last_refill t
    → (take b t).1 ≡ false
    → Empty t (stamp_or_zero (take b t).0.last_refill) (take b t).0
unfolding take
refused-Empty b t past h = ground arith

-- A refused poll of an empty bucket changes nothing, so it does not put the next token off.
refused_again :
    (b : HandshakeBudget) (t last s : ℕ) → Empty t last b → (take b s).1 ≡ false → (take b s).0 ≡ b
unfolding take
refused_again b t last s e h = ground (arith, e.stamped)

granted_after :
    (b : HandshakeBudget) (t last s : ℕ)
    → Empty t last b
    → t + handshake_rate_limit_ms ≤ s
    → (take b s).1 ≡ true
unfolding take
granted_after b t last s e h = ground (arith, e.stamped)

none_granted :
    (b : HandshakeBudget) (t last : ℕ) (polls : List Instant)
    → Empty t last b
    → (granted b polls).0 ≡ 0
    → (granted b polls).1 ≡ b
unfolding granted
none_granted b t last [] e h = refl
none_granted b t last (s ∷ polls) e h = elim (Bool-cases (take b s).1) [
  | inl given ↦ ground arith
  | inr refused ↦ ground (arith, refused_again b t last s e refused, none_granted b t last polls e)
]

-- After a refusal at `t`, with a stamp not in the future, polling at any instants that are refused
-- too does not put off the next grant: a call at least `HANDSHAKE_RATE_LIMIT_MS` after `t` succeeds.
pub granted_after_refusals :
    (b : HandshakeBudget) (t u : Instant) (polls : List Instant)
    → NotAfter b.last_refill t
    → (take b t).1 ≡ false
    → (granted (take b t).0 polls).0 ≡ 0
    → t + handshake_rate_limit_ms ≤ u
    → (take (granted (take b t).0 polls).1 u).1 ≡ true
granted_after_refusals b t u polls past refused idle due =
    let e = refused-Empty b t past refused in
    rw (none_granted _ t _ polls e idle) (granted_after _ t _ u e due)

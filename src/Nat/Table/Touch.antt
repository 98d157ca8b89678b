-- ===== src/Nat/Table/Touch.antt =====
-- Flows that match, and the slot that `touch` changes.
use tailfeather.Common.{
  ℕ, zero, suc, ◌≡◌, ◌≢◌, refl, ap, arith, Bool, true, false, ◌&&◌, ◌==◌, ==→eq, bytes_eq,
  bytes_eq_sound, test_absurd,
}
use tailfeather.Common.{[], ◌∷◌, length, get_or, none, some}
use tailfeather.Nat.Table.{Flow, Flows, matches, holds, touch}

and_true : (a b : Bool) → (a && b) ≡ true → (a ≡ true) × (b ≡ true)
and_true true b h = (refl, h)
and_true false b h = test_absurd _ h refl

-- Two flows that match have the same addresses and ports.
pub matches-eq :
    (asked f : Flow)
    → matches asked f ≡ true
    → record f { last_used_ms = asked.last_used_ms } ≡ asked
unfolding matches
matches-eq asked f h = λ i. record {
  client_ip = bytes_eq_sound f.client_ip asked.client_ip one.0 i;
  client_port = ==→eq f.client_port asked.client_port two.0 i;
  server_ip = bytes_eq_sound f.server_ip asked.server_ip three.0 i;
  server_port = ==→eq f.server_port asked.server_port three.1 i;
  last_used_ms = asked.last_used_ms;
}
  where
    one :
        (bytes_eq f.client_ip asked.client_ip ≡ true)
        × ((f.client_port == asked.client_port
              && (bytes_eq f.server_ip asked.server_ip && f.server_port == asked.server_port))
            ≡ true)
    one = and_true (bytes_eq f.client_ip asked.client_ip) _ h

    two :
        ((f.client_port == asked.client_port) ≡ true)
        × ((bytes_eq f.server_ip asked.server_ip && f.server_port == asked.server_port) ≡ true)
    two = and_true (f.client_port == asked.client_port) _ one.1

    three :
        (bytes_eq f.server_ip asked.server_ip ≡ true)
        × ((f.server_port == asked.server_port) ≡ true)
    three = and_true (bytes_eq f.server_ip asked.server_ip) _ two.1

pub length-touch : (flows : Flows) (i now : ℕ) → length (touch flows i now) ≡ length flows
unfolding touch
length-touch [] i now = refl
length-touch (none ∷ rest) zero now = refl
length-touch (some f ∷ rest) zero now = refl
length-touch (none ∷ rest) (suc i) now = ap suc (length-touch rest i now)
length-touch (some f ∷ rest) (suc i) now = ap suc (length-touch rest i now)

pub get_or-touch_other :
    (flows : Flows) (i j now : ℕ) → j ≢ i → get_or (touch flows i now) j none ≡ get_or flows j none
unfolding touch
get_or-touch_other [] i j now h = refl
get_or-touch_other (none ∷ rest) zero j now h = refl
get_or-touch_other (some f ∷ rest) zero zero now h = absurd (h refl)
get_or-touch_other (some f ∷ rest) zero (suc j) now h = refl
get_or-touch_other (slot ∷ rest) (suc i) zero now h = ground arith
get_or-touch_other (none ∷ rest) (suc i) (suc j) now h =
    get_or-touch_other rest i j now (λ e. h (ap suc e))
get_or-touch_other (some f ∷ rest) (suc i) (suc j) now h =
    get_or-touch_other rest i j now (λ e. h (ap suc e))

pub get_or-touch :
    (flows : Flows) (i : ℕ) (asked : Flow)
    → holds asked (get_or flows i none) ≡ true
    → get_or (touch flows i asked.last_used_ms) i none ≡ some asked
unfolding touch
get_or-touch [] i asked h = test_absurd _ h refl
get_or-touch (none ∷ rest) zero asked h = test_absurd _ h refl
get_or-touch (some f ∷ rest) zero asked h = ap some (matches-eq asked f h)
get_or-touch (none ∷ rest) (suc i) asked h = get_or-touch rest i asked h
get_or-touch (some f ∷ rest) (suc i) asked h = get_or-touch rest i asked h

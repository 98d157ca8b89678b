-- ===== src/Nat/Table.antt =====
-- The tables of flows of firmware/src/nat.rs. `Table` and `TcpTable` have the same code, with their
-- own number of slots and idle timeout; a table is the list of its slots. A time that is later than
-- now counts as now.
use tailfeather.Common.{
  ℕ, zero, suc, ◌-◌, Bool, true, false, ◌&&◌, leb, ◌==◌, if◌then◌else◌, bytes_eq,
}
use tailfeather.Common.{List, [], ◌∷◌, replicate, set, get_or, Option, none, some}
mod Lookup
mod Touch
pub mod Slots

abbrev pub slots : ℕ
slots = 4

abbrev pub tcp_slots : ℕ
tcp_slots = 16

abbrev pub idle_timeout_ms : ℕ
idle_timeout_ms = 30000

abbrev pub tcp_idle_timeout_ms : ℕ
tcp_idle_timeout_ms = 120000

pub record Flow : Type 0 where
  pub client_ip : List ℕ
  pub client_port : ℕ
  pub server_ip : List ℕ
  pub server_port : ℕ
  pub last_used_ms : ℕ

abbrev pub Flows : Type 0
Flows = List (Option Flow)

unfoldable pub new_table : Flows
new_table = replicate slots none

unfoldable pub new_tcp_table : Flows
new_tcp_table = replicate tcp_slots none

-- The closure `matches`: the four fields of a flow agree with those asked for.
unfoldable pub matches : Flow → Flow → Bool
unfolding bytes_eq
matches asked f =
    bytes_eq f.client_ip asked.client_ip
    && (f.client_port == asked.client_port
        && (bytes_eq f.server_ip asked.server_ip && f.server_port == asked.server_port))

abbrev pub holds : Flow → Option Flow → Bool
holds asked none = false
holds asked (some f) = matches asked f

abbrev pub is_free : Option Flow → Bool
is_free none = true
is_free (some f) = false

-- `now_ms.saturating_sub(f.last_used_ms) >= IDLE_TIMEOUT_MS`.
abbrev pub is_idle : ℕ → ℕ → Option Flow → Bool
is_idle idle now none = false
is_idle idle now (some f) = leb idle (now - f.last_used_ms)

-- `.map(|f| f.last_used_ms).unwrap_or(0)`.
abbrev pub last_used : Option Flow → ℕ
last_used none = 0
last_used (some f) = f.last_used_ms

abbrev pub next_index : Option ℕ → Option ℕ
next_index none = none
next_index (some i) = some (suc i)

-- `iter().position(test)`.
unfoldable pub position : (Option Flow → Bool) → Flows → Option ℕ
position test [] = none
position test (slot ∷ rest) =
    let later = position test rest in if test slot then some 0 else next_index later

abbrev pub next_key : Option (ℕ × ℕ) → Option (ℕ × ℕ)
next_key none = none
next_key (some (i, key)) = some (suc i, key)

-- The earlier of two candidates where their keys are equal.
abbrev pub older : ℕ → Option (ℕ × ℕ) → Option (ℕ × ℕ)
older key none = some (0, key)
older key (some (i, other)) = if leb key other then some (0, key) else some (suc i, other)

-- `filter(idle).min_by_key(last_used)` over the slots with their indices: the first of the least.
unfoldable pub oldest_idle : ℕ → ℕ → Flows → Option (ℕ × ℕ)
oldest_idle idle now [] = none
oldest_idle idle now (slot ∷ rest) =
    let later = oldest_idle idle now rest in
    if is_idle idle now slot then older (last_used slot) later else next_key later

-- The slot for a flow that is in none: a free one, or the idle one used least recently.
unfoldable pub victim : ℕ → ℕ → Flows → Option ℕ
unfolding position oldest_idle
victim idle now flows = elim (position is_free flows) [
  | some i ↦ some i
  | none ↦ elim (oldest_idle idle now flows) [ some (i, key) ↦ some i | none ↦ none ]
]

-- Set the time of use of the flow in a slot, if it holds one.
unfoldable pub touch : Flows → ℕ → ℕ → Flows
touch [] i now = []
touch (none ∷ rest) zero now = none ∷ rest
touch (some f ∷ rest) zero now = some (record f { last_used_ms = now }) ∷ rest
touch (slot ∷ rest) (suc i) now = slot ∷ touch rest i now

-- `slot_for` for the flow with these addresses and ports, whose time of use is now.
unfoldable pub slot_for : ℕ → Flows → Flow → Flows × Option ℕ
unfolding matches position victim touch
slot_for idle flows asked = elim (position (holds asked) flows) [
  | some i ↦ (touch flows i asked.last_used_ms, some i)
  | none ↦ elim (victim idle asked.last_used_ms flows) [
    | some i ↦ (set flows i (some asked), some i)
    | none ↦ (flows, none)
  ]
]

unfoldable pub tcp_slot_for : Flows → Flow → Flows × Option ℕ
unfolding slot_for
tcp_slot_for flows asked = slot_for tcp_idle_timeout_ms flows asked

unfoldable pub udp_slot_for : Flows → Flow → Flows × Option ℕ
unfolding slot_for
udp_slot_for flows asked = slot_for idle_timeout_ms flows asked

unfoldable pub get : Flows → ℕ → Option Flow
get flows slot = get_or flows slot none

-- `TcpTable::release`.
unfoldable pub release : Flows → ℕ → Flows
release flows slot = set flows slot none

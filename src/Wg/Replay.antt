-- ===== src/Wg/Replay.antt =====
-- crates/wg-core/src/replay.rs: the sliding window over the 64-bit transport counter. The bitmap is
-- a list of sixteen words; `for c in (highest + 1)..counter` is a recursion on the rounds left.
pub mod Word
pub mod Window
pub mod History
pub mod Step
use Prim.Native.Nat.{bit_and, bit_or}
use tailfeather.Common.{
  ℕ, zero, suc, ◌+◌, ◌-◌, ◌/◌, ◌%◌, ◌^◌, Bool, true, false, not, ltb, leb, ◌==◌,
}
use tailfeather.Common.{if◌then◌else◌, ◌||◌, Option, none, some, List, set, get_or, replicate}
use tailfeather.Wg.Budget.{replay_window_bits, replay_window_words}
use tailfeather.Wg.Timers.{reject_after_messages}

pub record ReplayWindow : Type 0 where
  pub highest : Option ℕ
  pub seen : List ℕ

abbrev pub no_words : List ℕ
no_words = replicate replay_window_words 0

unfoldable pub new_window : ReplayWindow
new_window = record { highest = none; seen = no_words }

-- `index`: the word of a counter, and the mask of its bit.
abbrev pub word_of : ℕ → ℕ
word_of counter = counter % replay_window_bits / 64

abbrev pub mask_of : ℕ → ℕ
mask_of counter = 2 ^ (counter % replay_window_bits % 64)

unfoldable pub set_seen : List ℕ → ℕ → List ℕ
set_seen seen c = set seen (word_of c) (bit_or (get_or seen (word_of c) 0) (mask_of c))

-- `!mask` is `2 ^ 64 - 1 - mask` on a `u64`.
unfoldable pub clear_seen : List ℕ → ℕ → List ℕ
clear_seen seen c =
    set seen (word_of c) (bit_and (get_or seen (word_of c) 0) (2 ^ 64 - 1 - mask_of c))

unfoldable pub is_set : List ℕ → ℕ → Bool
is_set seen c = not (bit_and (get_or seen (word_of c) 0) (mask_of c) == 0)

-- Clear `n` counters from `c` on.
unfoldable pub clear_range : ℕ → ℕ → List ℕ → List ℕ
clear_range zero c seen = seen
clear_range (suc n) c seen = clear_range n (c + 1) (clear_seen seen c)

-- The bitmap after the high water mark has moved from `highest` up to `counter`.
unfoldable pub advance : List ℕ → ℕ → ℕ → List ℕ
advance seen highest counter =
    if leb replay_window_bits (counter - highest)
    then no_words
    else clear_range (counter - (highest + 1)) (highest + 1) seen

-- `accept` once there is a high water mark.
unfoldable pub accept_at : ReplayWindow → ℕ → ℕ → ReplayWindow × Bool
accept_at w highest counter =
    if ltb highest counter
    then (
      record { highest = some counter; seen = set_seen (advance w.seen highest counter) counter },
      true,
    )
    else if leb replay_window_bits (highest - counter) || is_set w.seen counter
    then (w, false)
    else (record w { seen = set_seen w.seen counter }, true)

unfoldable pub accept : ReplayWindow → ℕ → ReplayWindow × Bool
unfolding accept_at
accept w counter = if leb reject_after_messages counter then (w, false) else elim w.highest [
  | none ↦ (record { highest = some counter; seen = set_seen w.seen counter }, true)
  | some highest ↦ accept_at w highest counter
]

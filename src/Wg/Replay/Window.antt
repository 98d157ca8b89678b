-- ===== src/Wg/Replay/Window.antt =====
-- Moving the window up: the bits between the marks are cleared, the others are kept.
use tailfeather.Common.{ℕ, zero, suc, ◌+◌, ◌-◌, ◌%◌, ◌≤◌, ◌<◌, ◌≡◌, refl, sym, ◌∙◌, arith}
use tailfeather.Common.{false, List, length}
use native.Mathlib.Decide.{ℕ_discrete}
use tailfeather.Wg.Budget.{replay_window_words}
use tailfeather.Wg.Replay.{is_set, clear_seen, clear_range, advance}
use tailfeather.Wg.Replay.Word.{
  is_set-clear_self, is_set-clear_ne, length-clear_seen, is_set-no_words, is_set_slot,
}

pub length-clear_range :
    (n c : ℕ) (seen : List ℕ)
    → length seen ≡ replay_window_words
    → length (clear_range n c seen) ≡ replay_window_words
unfolding clear_range
length-clear_range zero c seen full = full
length-clear_range (suc n) c seen full =
    length-clear_range n (c + 1) (clear_seen seen c) (length-clear_seen seen full c)

-- A counter whose slot the range does not reach keeps its bit.
is_set-clear_range_out :
    (n c d : ℕ) (seen : List ℕ)
    → length seen ≡ replay_window_words
    → d < c
    → c + n ≤ d + 1024
    → is_set (clear_range n c seen) d ≡ is_set seen d
unfolding clear_range
is_set-clear_range_out zero c d seen full below near = refl
is_set-clear_range_out (suc n) c d seen full below near =
    is_set-clear_range_out n (c + 1) d (clear_seen seen c) (length-clear_seen seen full c)
      (omega arith) (omega arith)
    ∙ is_set-clear_ne seen full c d (omega arith)

-- A cleared counter stays cleared.
is_set-clear_range_stays :
    (n c d : ℕ) (seen : List ℕ)
    → length seen ≡ replay_window_words
    → is_set seen d ≡ false
    → is_set (clear_range n c seen) d ≡ false
unfolding clear_range
is_set-clear_range_stays zero c d seen full off = off
is_set-clear_range_stays (suc n) c d seen full off =
    is_set-clear_range_stays n (c + 1) d (clear_seen seen c) (length-clear_seen seen full c)
      (elim (ℕ_discrete (c % 1024) (d % 1024)) [
        | yes same ↦ is_set_slot _ d c (sym same) ∙ is_set-clear_self seen full c
        | no other ↦ is_set-clear_ne seen full c d other ∙ off
      ])

is_set-clear_range_in :
    (n c d : ℕ) (seen : List ℕ)
    → length seen ≡ replay_window_words
    → c ≤ d
    → d < c + n
    → is_set (clear_range n c seen) d ≡ false
unfolding clear_range
is_set-clear_range_in zero c d seen full low high = absurd (omega arith)
is_set-clear_range_in (suc n) c d seen full low high = elim (ℕ_discrete c d) [
  | yes here ↦
      is_set-clear_range_stays n (c + 1) d (clear_seen seen c) (length-clear_seen seen full c)
        (rw (← here) (is_set-clear_self seen full c))
  | no later ↦
      is_set-clear_range_in n (c + 1) d (clear_seen seen c) (length-clear_seen seen full c)
        (omega arith) (omega arith)
]

-- Moving the mark from `highest` up to `counter` keeps the counters of the new window that were
-- in the old one.
pub is_set-advance_kept :
    (seen : List ℕ) (highest counter d : ℕ)
    → length seen ≡ replay_window_words
    → d ≤ highest
    → highest < counter
    → counter < d + 1024
    → is_set (advance seen highest counter) d ≡ is_set seen d
unfolding advance
is_set-advance_kept seen highest counter d full low up near = ground (
  arith,
  is_set-clear_range_out (counter - (highest + 1)) (highest + 1) d seen full (omega arith),
)

-- And it clears the counters between the two marks.
pub is_set-advance_new :
    (seen : List ℕ) (highest counter d : ℕ)
    → length seen ≡ replay_window_words
    → highest < d
    → d < counter
    → is_set (advance seen highest counter) d ≡ false
unfolding advance
is_set-advance_new seen highest counter d full low high = ground (
  arith,
  is_set-no_words d,
  is_set-clear_range_in (counter - (highest + 1)) (highest + 1) d seen full (omega arith),
)

pub length-advance :
    (seen : List ℕ) (highest counter : ℕ)
    → length seen ≡ replay_window_words
    → length (advance seen highest counter) ≡ replay_window_words
unfolding advance
length-advance seen highest counter full =
    ground (arith, length-clear_range (counter - (highest + 1)) (highest + 1) seen full)

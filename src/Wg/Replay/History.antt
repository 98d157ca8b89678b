-- ===== src/Wg/Replay/History.antt =====
-- The window against a specification that remembers every counter it has accepted.
use tailfeather.Common.{ℕ, ◌+◌, ◌≤◌, ◌<◌, ◌≡◌, refl, ◌∙◌, arith}
use tailfeather.Common.{Bool, true, false, not, ltb, ◌==◌, ◌&&◌, ◌||◌, if◌then◌else◌}
use tailfeather.Common.{List, [], ◌∷◌, length, All, Option, none, some}
use native.Mathlib.Decide.{ℕ_discrete, dec_le}
use tailfeather.Wg.Budget.{replay_window_bits, replay_window_words}
use tailfeather.Wg.Timers.{reject_after_messages}
use tailfeather.Wg.Replay.{ReplayWindow, new_window, is_set, set_seen, advance, no_words}
use tailfeather.Wg.Replay.Word.{is_set-set_self, is_set-set_ne, length-set_seen, is_set-no_words}
use tailfeather.Wg.Replay.Window.{is_set-advance_kept, is_set-advance_new, length-advance}

abbrev pub member : ℕ → List ℕ → Bool
member c [] = false
member c (h ∷ hist) = (c == h) || member c hist

-- No accepted counter is a window or more ahead of `c`.
abbrev pub in_window : ℕ → List ℕ → Bool
in_window c [] = true
in_window c (h ∷ hist) = ltb h (c + replay_window_bits) && in_window c hist

-- A counter is accepted if it is below the limit, within the window, and new.
unfoldable pub spec_accept : List ℕ → ℕ → List ℕ × Bool
spec_accept hist c =
    if ltb c reject_after_messages && (in_window c hist && not (member c hist))
    then (c ∷ hist, true)
    else (hist, false)

-- The high water mark is the largest counter accepted.
abbrev Top : Option ℕ → List ℕ → Type 0
Top none hist = hist ≡ []
Top (some m) hist = (member m hist ≡ true) × All (λ h. h ≤ m) hist

-- Within the window the bitmap says which counters were accepted.
abbrev Marks : Option ℕ → List ℕ → List ℕ → Type 0
Marks none seen hist = seen ≡ no_words
Marks (some m) seen hist =
    (d : ℕ) → d ≤ m → m < d + replay_window_bits → is_set seen d ≡ member d hist

pub record Remembers (highest : Option ℕ) (seen : List ℕ) (hist : List ℕ) : Type 0 where
  pub words : length seen ≡ replay_window_words
  pub top : Top highest hist
  pub marks : Marks highest seen hist

abbrev pub Holds : ReplayWindow → List ℕ → Type 0
Holds w hist = Remembers w.highest w.seen hist

pub new_window-Holds : Holds new_window []
unfolding new_window
new_window-Holds = record { words = refl; top = refl; marks = refl }

pub in_window_above :
    (m c : ℕ) (hist : List ℕ)
    → m < c + replay_window_bits
    → All (λ h. h ≤ m) hist
    → in_window c hist ≡ true
in_window_above m c [] lt a = refl
in_window_above m c (h ∷ hist) lt (le, a) = ground (arith, in_window_above m c hist lt a)

pub not_member_above :
    (m c : ℕ) (hist : List ℕ) → m < c → All (λ h. h ≤ m) hist → member c hist ≡ false
not_member_above m c [] lt a = refl
not_member_above m c (h ∷ hist) lt (le, a) = ground (arith, not_member_above m c hist lt a)

All-le : (m c : ℕ) (hist : List ℕ) → m ≤ c → All (λ h. h ≤ m) hist → All (λ h. h ≤ c) hist
All-le m c [] le a = tt
All-le m c (h ∷ hist) le (b, a) = (omega arith, All-le m c hist le a)

-- Against the largest counter one comparison stands for all.
pub in_window_top :
    (m c : ℕ) (hist : List ℕ)
    → member m hist ≡ true
    → c + replay_window_bits ≤ m
    → in_window c hist ≡ false
in_window_top m c [] e far = cc
in_window_top m c (h ∷ hist) e far = ground (arith, in_window_top m c hist)

-- The three ways to accept a counter keep the relation.
pub first-Remembers : (c : ℕ) → Remembers (some c) (set_seen no_words c) (c ∷ [])
first-Remembers c = record {
  words = length-set_seen no_words refl c;
  top = (ground arith, (omega arith, tt));
  marks = λ d low near. elim (ℕ_discrete d c) [
    | yes here ↦ rw (here, is_set-set_self no_words refl c) (ground arith)
    | no other ↦ is_set-set_ne no_words refl c d (omega arith) ∙ is_set-no_words d ∙ ground arith
  ];
}

module _ (m c : ℕ) (seen hist : List ℕ) (r : Remembers (some m) seen hist) where
  moved : length (advance seen m c) ≡ replay_window_words
  moved = length-advance seen m c r.words

  pub higher-Remembers : m < c → Remembers (some c) (set_seen (advance seen m c) c) (c ∷ hist)
  higher-Remembers up = record {
    words = length-set_seen _ moved c;
    top = (ground arith, (omega arith, All-le m c hist (omega arith) r.top.1));
    marks = λ d low near. elim (ℕ_discrete d c) [
      | yes here ↦ rw (here, is_set-set_self _ moved c) (ground arith)
      | no other ↦ is_set-set_ne _ moved c d (omega arith) ∙ elim (dec_le d m) [
        | yes old ↦
            is_set-advance_kept seen m c d r.words old up near
            ∙ r.marks d old (omega arith)
            ∙ ground arith
        | no new ↦
            is_set-advance_new seen m c d r.words (omega arith) (omega arith)
            ∙ ground (arith, not_member_above m d hist (omega arith) r.top.1)
      ]
    ];
  }

  pub within-Remembers :
      c ≤ m → m < c + replay_window_bits → Remembers (some m) (set_seen seen c) (c ∷ hist)
  within-Remembers below reach = record {
    words = length-set_seen _ r.words c;
    top = (ground (arith, r.top.0), (below, r.top.1));
    marks = λ d low near. elim (ℕ_discrete d c) [
      | yes here ↦ rw (here, is_set-set_self _ r.words c) (ground arith)
      | no other ↦ is_set-set_ne _ r.words c d (omega arith) ∙ r.marks d low near ∙ ground arith
    ];
  }

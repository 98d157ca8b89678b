-- ===== src/Wg/Replay/Word.antt =====
-- What one write of the bitmap does to the bit of every counter.
use Prim.Native.Nat.{bit_and}
use tailfeather.Common.{ℕ, zero, suc, ◌/◌, ◌%◌, ◌^◌, ◌≤◌, ◌<◌, ◌≡◌, ◌≢◌, refl, sym, ap, ◌∙◌}
use tailfeather.Common.{true, false, not, ◌==◌, arith, List, length}
use tailfeather.Common.{get_or, get_or-set_self, get_or-set_ne, length-set, set, replicate}
use tailfeather.Common.Bits.{
  bit, bit-le-one, bit-bit_or, bit-bit_and, bit-pow_self, bit-pow_ne, bit-complement, bit_and-pow,
  zero-bit_and,
}
use native.Mathlib.Decide.{ℕ_discrete}
use native.Mathlib.Nat.{one-le-pow, pow-le-pow_right}
use tailfeather.Wg.Budget.{replay_window_bits, replay_window_words}
use tailfeather.Wg.Replay.{word_of, mask_of, set_seen, clear_seen, is_set, no_words}

-- Bit `k` of word `i`.
abbrev pub at : List ℕ → ℕ → ℕ → ℕ
at seen i k = bit (get_or seen i 0) k

abbrev pub bit_of : ℕ → ℕ
bit_of c = c % replay_window_bits % 64

pub is_set-at : (seen : List ℕ) (c : ℕ) → is_set seen c ≡ (at seen (word_of c) (bit_of c) == 1)
unfolding is_set
is_set-at seen c = ground (
  arith,
  bit_and-pow (get_or seen (word_of c) 0) (bit_of c),
  bit-le-one (get_or seen (word_of c) 0) (bit_of c),
  one-le-pow (bit_of c) 2 (omega arith),
)

mask_of-lt : (c : ℕ) → mask_of c < 2 ^ 64
mask_of-lt c = omega (arith, pow-le-pow_right {n = 2} (omega arith) {j = 63} (below c))
  where
    below : (c : ℕ) → bit_of c ≤ 63
    below c = omega arith

-- Two counters that share a bit of the bitmap are equal modulo the window.
same_slot : (c d : ℕ) → word_of c ≡ word_of d → c % 1024 ≢ d % 1024 → bit_of c ≢ bit_of d
same_slot c d p ne = omega arith

pub is_set_slot : (s : List ℕ) (c d : ℕ) → c % 1024 ≡ d % 1024 → is_set s c ≡ is_set s d
unfolding is_set
is_set_slot s c d e = ap (λ p. not (bit_and (get_or s (p / 64) 0) (2 ^ (p % 64)) == 0)) e

is_set_cong :
    (s t : List ℕ) (d : ℕ)
    → at s (word_of d) (bit_of d) ≡ at t (word_of d) (bit_of d)
    → is_set s d ≡ is_set t d
is_set_cong s t d e = is_set-at s d ∙ ap (λ b. b == 1) e ∙ sym (is_set-at t d)

module _ (seen : List ℕ) (full : length seen ≡ replay_window_words) where
  word_in : (c : ℕ) → word_of c < length seen
  word_in c = omega (arith, full)

  -- A write to the word of `c` that keeps the other bits keeps the counters of other slots.
  write_other :
      (c d v : ℕ)
      → (bit_of c ≢ bit_of d → bit v (bit_of d) ≡ bit (get_or seen (word_of c) 0) (bit_of d))
      → c % 1024 ≢ d % 1024
      → is_set (set seen (word_of c) v) d ≡ is_set seen d
  write_other c d v keep ne = is_set_cong _ _ d (elim (ℕ_discrete (word_of c) (word_of d)) [
    | yes same ↦ rw (← same) (
        ap (λ x. bit x (bit_of d)) (get_or-set_self seen (word_of c) v 0 (word_in c))
        ∙ keep (same_slot c d same ne))
    | no other ↦ ap (λ x. bit x (bit_of d)) (get_or-set_ne seen (word_of c) (word_of d) v 0 other)
  ])

  write_self : (c v : ℕ) → is_set (set seen (word_of c) v) c ≡ (bit v (bit_of c) == 1)
  write_self c v =
      is_set-at _ c
      ∙ ap (λ x. bit x (bit_of c) == 1) (get_or-set_self seen (word_of c) v 0 (word_in c))

  pub is_set-set_self : (c : ℕ) → is_set (set_seen seen c) c ≡ true
  unfolding set_seen
  is_set-set_self c =
      rw (write_self, bit-bit_or, bit-pow_self)
        (ground (arith, bit-le-one (get_or seen (word_of c) 0) (bit_of c)))

  pub is_set-set_ne : (c d : ℕ) → c % 1024 ≢ d % 1024 → is_set (set_seen seen c) d ≡ is_set seen d
  unfolding set_seen
  is_set-set_ne c d ne =
      write_other c d _ (λ other. rw (bit-bit_or, bit-pow_ne _ _ other) (omega arith)) ne

  pub is_set-clear_self : (c : ℕ) → is_set (clear_seen seen c) c ≡ false
  unfolding clear_seen
  is_set-clear_self c =
      rw
        (
          write_self,
          bit-bit_and,
          bit-complement 64 (mask_of c) (bit_of c) (mask_of-lt c) (omega arith),
          bit-pow_self,
        )
        (ground (arith, bit-le-one (get_or seen (word_of c) 0) (bit_of c)))

  pub is_set-clear_ne :
      (c d : ℕ) → c % 1024 ≢ d % 1024 → is_set (clear_seen seen c) d ≡ is_set seen d
  unfolding clear_seen
  is_set-clear_ne c d ne =
      write_other c d _
        (λ other.
          rw
            (
              bit-bit_and,
              bit-complement 64 (mask_of c) (bit_of d) (mask_of-lt c) (omega arith),
              bit-pow_ne _ _ other,
            )
            (omega (arith, bit-le-one (get_or seen (word_of c) 0) (bit_of d))))
        ne

  pub length-set_seen : (c : ℕ) → length (set_seen seen c) ≡ replay_window_words
  unfolding set_seen
  length-set_seen c = length-set seen (word_of c) _ ∙ full

  pub length-clear_seen : (c : ℕ) → length (clear_seen seen c) ≡ replay_window_words
  unfolding clear_seen
  length-clear_seen c = length-set seen (word_of c) _ ∙ full

-- An empty bitmap has no counter in it.
get_or-no_words : (n i : ℕ) → get_or {A = ℕ} (replicate n 0) i 0 ≡ 0
get_or-no_words zero i = refl
get_or-no_words (suc n) zero = refl
get_or-no_words (suc n) (suc i) = get_or-no_words n i

pub is_set-no_words : (d : ℕ) → is_set no_words d ≡ false
unfolding is_set
is_set-no_words d = rw (get_or-no_words 16 (word_of d), zero-bit_and) (ground arith)

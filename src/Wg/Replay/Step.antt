-- ===== src/Wg/Replay/Step.antt =====
-- One call of `accept` against one call of the specification, and whole runs of both.
use tailfeather.Common.{ℕ, ◌-◌, ◌<◌, ◌≡◌, refl, sym, ap, ap₂, ◌∙◌, arith}
use tailfeather.Common.{Bool, true, false, not, ltb, leb, ◌&&◌}
use tailfeather.Common.{
  List, [], ◌∷◌, Option, none, some, Bool-cases, inl, inr, tests, lt→ltb, leb→le,
}
use tailfeather.Wg.Budget.{replay_window_bits}
use tailfeather.Wg.Timers.{reject_after_messages}
use tailfeather.Wg.Replay.{ReplayWindow, new_window, is_set, accept, accept_at}
use tailfeather.Wg.Replay.History.{
  member, in_window, spec_accept, Remembers, Holds, new_window-Holds, in_window_above,
  in_window_top, not_member_above, first-Remembers, higher-Remembers, within-Remembers,
}

-- A call and the specification agree on the answer, and go on agreeing.
abbrev Agrees : List ℕ → ℕ → ReplayWindow × Bool → Type 0
Agrees hist c out = (out.1 ≡ (spec_accept hist c).1) × Holds out.0 (spec_accept hist c).0

spec_takes :
    (hist : List ℕ) (c : ℕ)
    → ltb c reject_after_messages ≡ true
    → in_window c hist ≡ true
    → member c hist ≡ false
    → spec_accept hist c ≡ (c ∷ hist, true)
unfolding spec_accept
spec_takes hist c p q r = rw (p, q, r)

spec_refuses :
    (hist : List ℕ) (c : ℕ)
    → ltb c reject_after_messages && (in_window c hist && not (member c hist)) ≡ false
    → spec_accept hist c ≡ (hist, false)
unfolding spec_accept
spec_refuses hist c p = rw p

module _ (m c : ℕ) (seen hist : List ℕ) (r : Remembers (some m) seen hist) where
  abbrev w : ReplayWindow
  w = record { highest = some m; seen = seen }

  -- Above the mark.
  step_up : ltb c reject_after_messages ≡ true → m < c → Agrees hist c (accept_at w m c)
  unfolding accept_at
  step_up below up =
      rw
        (
          lt→ltb m c up,
          spec_takes hist c below (in_window_above m c hist (omega arith) r.top.1)
              (not_member_above m c hist up r.top.1),
        )
        (refl, higher-Remembers m c seen hist r up)

  -- A window or more below the mark.
  step_far :
      ltb m c ≡ false → leb replay_window_bits (m - c) ≡ true → Agrees hist c (accept_at w m c)
  unfolding accept_at
  step_far down far =
      rw
        (
          down,
          far,
          spec_refuses hist c
              (ground (arith, in_window_top m c hist r.top.0 (omega (tests, leb→le _ _ far)))),
        )
        (refl, r)

  -- In the window and marked.
  step_seen :
      ltb m c ≡ false
      → leb replay_window_bits (m - c) ≡ false
      → is_set seen c ≡ true
      → Agrees hist c (accept_at w m c)
  unfolding accept_at
  step_seen down near marked =
      rw
        (
          down,
          near,
          marked,
          spec_refuses hist c
              (ground (arith, sym marked ∙ r.marks c (ground arith) (ground arith))),
        )
        (refl, r)

  -- In the window and not marked.
  step_within :
      ltb c reject_after_messages ≡ true
      → ltb m c ≡ false
      → leb replay_window_bits (m - c) ≡ false
      → is_set seen c ≡ false
      → Agrees hist c (accept_at w m c)
  unfolding accept_at
  step_within below down near clear =
      rw
        (
          down,
          near,
          clear,
          spec_takes hist c below (in_window_above m c hist (ground arith) r.top.1)
              (sym (r.marks c (ground arith) (ground arith)) ∙ clear),
        )
        (refl, within-Remembers m c seen hist r (ground arith) (ground arith))

  accept_at_step : ltb c reject_after_messages ≡ true → Agrees hist c (accept_at w m c)
  accept_at_step below = elim (Bool-cases (ltb m c)) [
    | inl up ↦ step_up below (ground arith)
    | inr down ↦ elim (Bool-cases (leb replay_window_bits (m - c))) [
      | inl far ↦ step_far down far
      | inr near ↦ elim (Bool-cases (is_set seen c)) [
        | inl marked ↦ step_seen down near marked
        | inr clear ↦ step_within below down near clear
      ]
    ]
  ]

past_limit : (a b : ℕ) → ltb a b ≡ false → leb b a ≡ true
past_limit a b h = ground arith

below_limit : (a b : ℕ) → ltb a b ≡ true → leb b a ≡ false
below_limit a b h = ground arith

-- By the high water mark.
accept_step_on :
    (top : Option ℕ) (seen hist : List ℕ) (c : ℕ)
    → Remembers top seen hist
    → Agrees hist c (accept (record { highest = top; seen = seen }) c)
unfolding accept
accept_step_on none seen hist c r = elim (Bool-cases (ltb c reject_after_messages)) [
  | inl below ↦
      rw (below_limit c _ below, r.marks, r.top, spec_takes [] c below refl refl)
        (refl, first-Remembers c)
  | inr past ↦ rw (past_limit c _ past, spec_refuses hist c (rw past)) (refl, r)
]
accept_step_on (some m) seen hist c r = elim (Bool-cases (ltb c reject_after_messages)) [
  | inl below ↦ rw (below_limit c _ below) (accept_at_step m c seen hist r below)
  | inr past ↦ rw (past_limit c _ past, spec_refuses hist c (rw past)) (refl, r)
]

pub accept_step :
    (w : ReplayWindow) (hist : List ℕ) (c : ℕ) → Holds w hist → Agrees hist c (accept w c)
accept_step w hist c r = accept_step_on w.highest w.seen hist c r

-- The answers to a sequence of counters, and the window they leave.
unfoldable pub accept_all : ReplayWindow → List ℕ → List Bool × ReplayWindow
accept_all w [] = ([], w)
accept_all w (c ∷ cs) =
    let (w', fresh) = accept w c in let (rest, w'') = accept_all w' cs in (fresh ∷ rest, w'')

unfoldable pub spec_accept_all : List ℕ → List ℕ → List Bool × List ℕ
spec_accept_all hist [] = ([], hist)
spec_accept_all hist (c ∷ cs) =
    let (hist', fresh) = spec_accept hist c in
    let (rest, hist'') = spec_accept_all hist' cs in (fresh ∷ rest, hist'')

accept_all_agrees :
    (w : ReplayWindow) (hist cs : List ℕ)
    → Holds w hist
    → ((accept_all w cs).0 ≡ (spec_accept_all hist cs).0)
      × Holds (accept_all w cs).1 (spec_accept_all hist cs).1
unfolding accept_all spec_accept_all
accept_all_agrees w hist [] r = (refl, r)
accept_all_agrees w hist (c ∷ cs) r =
    let (answer, kept) = accept_step w hist c r in
    let (answers, kept') = accept_all_agrees (accept w c).0 (spec_accept hist c).0 cs kept in
    (ap₂ ◌∷◌ answer answers, kept')

-- On every sequence of counters a new window gives the answers of the specification, which accepts
-- exactly the counters that are below `REJECT_AFTER_MESSAGES`, were not accepted before, and lie
-- less than a window behind every accepted counter.
pub accept_all_refines : (cs : List ℕ) → (accept_all new_window cs).0 ≡ (spec_accept_all [] cs).0
accept_all_refines cs = (accept_all_agrees new_window [] cs new_window-Holds).0

-- What the specification has once refused or accepted it refuses from then on.
abbrev pub Closed : ℕ → List ℕ → Type 0
Closed c hist = ltb c reject_after_messages && (in_window c hist && not (member c hist)) ≡ false

pub Closed-later : (c d : ℕ) (hist : List ℕ) → Closed c hist → Closed c (spec_accept hist d).0
unfolding spec_accept
Closed-later c d hist h = ground arith

pub Closed-offered : (c : ℕ) (hist : List ℕ) → Closed c (spec_accept hist c).0
unfolding spec_accept
Closed-offered c hist = ground arith

-- A closed counter is refused.
pub Closed-refused :
    (w : ReplayWindow) (hist : List ℕ) (c : ℕ)
    → Holds w hist
    → Closed c hist
    → (accept w c).1 ≡ false
Closed-refused w hist c held closed =
    (accept_step w hist c held).0 ∙ ap (λ p. p.1) (spec_refuses hist c closed)

Closed-run : (c : ℕ) (hist cs : List ℕ) → Closed c hist → Closed c (spec_accept_all hist cs).1
unfolding spec_accept_all
Closed-run c hist [] h = h
Closed-run c hist (d ∷ cs) h = Closed-run c (spec_accept hist d).0 cs (Closed-later c d hist h)

-- After any history, a counter that was offered once, whatever the answer, is refused when it is
-- offered again, whatever counters came between.
pub accept_at_most_once :
    (before between : List ℕ) (c : ℕ)
    → let w = (accept (accept_all new_window before).1 c).0 in
      (accept (accept_all w between).1 c).1 ≡ false
accept_at_most_once before between c =
    let (_, held) = accept_all_agrees new_window [] before new_window-Holds in
    let hist = (spec_accept_all [] before).1 in
    let (_, offered) = accept_step _ hist c held in
    let (_, later) = accept_all_agrees _ (spec_accept hist c).0 between offered in
    let closed = Closed-run c (spec_accept hist c).0 between (Closed-offered c hist) in
    Closed-refused _ _ c later closed

-- ===== src/Wg/Session/Once.antt =====
-- No datagram counter is delivered twice by one session, whatever arrives in between.
use tailfeather.Common.{ℕ, ◌≡◌, ◌≢◌, sym, ap, ◌∙◌, arith, true, false}
use mathlib.Core.Bool.{false≢true}
use tailfeather.Common.{List, [], ◌∷◌, Result, ok, err}
use tailfeather.Wg.Error.{Error}
use tailfeather.Wg.Crypto.{Aead}
use tailfeather.Wg.Messages.{counter_bytes, get_u64}
use tailfeather.Wg.Replay.{ReplayWindow, accept}
use tailfeather.Wg.Replay.History.{Holds, spec_accept, new_window-Holds}
use tailfeather.Wg.Replay.Step.{accept_step, Closed, Closed-later, Closed-offered, Closed-refused}
use tailfeather.Wg.Timers.{Instant}
use tailfeather.Wg.Session.{Session, TransportKeys, new_session, open_message, finish_open}
use tailfeather.Wg.Session.Counter.{open_cases, early, late, open_all}

-- The window remembers some history.
data Known (w : ReplayWindow) : Type 0 where
  known : (hist : List ℕ) → Holds w hist → Known w

-- And that history rules a counter out.
data Spent (ctr : ℕ) (w : ReplayWindow) : Type 0 where
  spent : (hist : List ℕ) → Holds w hist → Closed ctr hist → Spent ctr w

accept-Known : (w : ReplayWindow) (d : ℕ) → Known w → Known (accept w d).0
accept-Known w d (known hist held) = known (spec_accept hist d).0 (accept_step w hist d held).1

accept-Spent : (w : ReplayWindow) (ctr d : ℕ) → Spent ctr w → Spent ctr (accept w d).0
accept-Spent w ctr d (spent hist held closed) =
    spent (spec_accept hist d).0 (accept_step w hist d held).1 (Closed-later ctr d hist closed)

offered-Spent : (w : ReplayWindow) (ctr : ℕ) → Known w → Spent ctr (accept w ctr).0
offered-Spent w ctr (known hist held) =
    spent (spec_accept hist ctr).0 (accept_step w hist ctr held).1 (Closed-offered ctr hist)

Spent-refused : (w : ReplayWindow) (ctr : ℕ) → Spent ctr w → (accept w ctr).1 ≡ false
Spent-refused w ctr (spent hist held closed) = Closed-refused w hist ctr held closed

module _ (c : Aead) (P : ReplayWindow → Type 0)
    (keep : (w : ReplayWindow) (d : ℕ) → P w → P (accept w d).0) where
  finish_open_keeps :
      (r : Session) (ctr len : ℕ) (buffer : List ℕ) (o : Result Error (Unit {0}))
      → P r.replays
      → P (finish_open c r ctr len (buffer, o)).0.replays
  unfolding finish_open
  finish_open_keeps r ctr len buffer (err e) p = p
  finish_open_keeps r ctr len buffer (ok u) p = keep r.replays ctr p

  -- What every call of `accept` keeps, every datagram keeps.
  open_keeps :
      (r : Session) (datagram out : List ℕ)
      → P r.replays
      → P (open_message c r datagram out).0.replays
  open_keeps r datagram out p = elim (open_cases c r datagram out) [
    | early e eq ↦ rw eq p
    | late len buffer o eq ↦
        rw eq (finish_open_keeps r (get_u64 (counter_bytes datagram)) len buffer o p)
  ]

  open_all_keeps :
      (r : Session) (rest : List (List ℕ × List ℕ)) → P r.replays → P (open_all c r rest).replays
  unfolding open_all
  open_all_keeps r [] p = p
  open_all_keeps r ((datagram, out) ∷ rest) p =
      open_all_keeps (open_message c r datagram out).0 rest (open_keeps r datagram out p)

module _ (c : Aead) where
  finish_delivered :
      (r : Session) (ctr len n : ℕ) (buffer : List ℕ) (o : Result Error (Unit {0}))
      → (finish_open c r ctr len (buffer, o)).2 ≡ ok n
      → ((finish_open c r ctr len (buffer, o)).0.replays ≡ (accept r.replays ctr).0)
        × ((accept r.replays ctr).1 ≡ true)
  unfolding finish_open
  finish_delivered r ctr len n buffer (err e) h = cc
  finish_delivered r ctr len n buffer (ok u) h = ground arith

  delivered :
      (r : Session) (datagram out : List ℕ) (n : ℕ)
      → (open_message c r datagram out).2 ≡ ok n
      → let ctr = get_u64 (counter_bytes datagram) in
        ((open_message c r datagram out).0.replays ≡ (accept r.replays ctr).0)
        × ((accept r.replays ctr).1 ≡ true)
  delivered r datagram out n h = elim (open_cases c r datagram out) [
    | early e eq ↦ cc (ap (λ t. t.2) eq)
    | late len buffer o eq ↦
        let (p, q) =
          finish_delivered r (get_u64 (counter_bytes datagram)) len n buffer o
            (ap (λ t. t.2) (sym eq) ∙ h) in
        (ap (λ t. t.0.replays) eq ∙ p, q)
  ]

  -- Once a session has delivered a datagram, no datagram with the same counter bytes is delivered
  -- by it again, whatever datagrams it was given before and in between.
  pub delivered_once :
      (keys : TransportKeys) (i j : ℕ) (now : Instant) (before between : List (List ℕ × List ℕ))
      (d out d' out' : List ℕ) (n m : ℕ)
      → let r = open_all c (new_session keys i j now) before in
        (open_message c r d out).2 ≡ ok n
        → counter_bytes d' ≡ counter_bytes d
        → (open_message c (open_all c (open_message c r d out).0 between) d' out').2 ≢ ok m
  unfolding new_session
  delivered_once keys i j now before between d out d' out' n m first same second =
      let ctr = get_u64 (counter_bytes d) in
      let start : Known (new_session keys i j now).replays = known [] new_window-Holds in
      let r = open_all c (new_session keys i j now) before in
      let r' = (open_message c r d out).0 in
      let reached = open_all_keeps c Known accept-Known (new_session keys i j now) before start in
      let (moved, _) = delivered r d out n first in
      let closed : Spent ctr r'.replays = rw moved (offered-Spent r.replays ctr reached) in
      let later = open_all_keeps c (Spent ctr) (λ w e. accept-Spent w ctr e) r' between closed in
      let (_, fresh) = delivered (open_all c r' between) d' out' m second in
      false≢true (
        sym (Spent-refused _ ctr later)
        ∙ ap (λ b. (accept (open_all c r' between).replays (get_u64 b)).1) (sym same)
        ∙ fresh)

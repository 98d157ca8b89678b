-- ===== src/Wg/Device/Sending.antt =====
-- When a device of crates/wg-core/src/lib.rs sends data.
use tailfeather.Common.{
  ℕ, ◌≡◌, ◌≤◌, ◌↔◌, refl, sym, ap, ◌∙◌, Bool, true, false, Bool-cases, Option-cases, inl, inr,
}
use tailfeather.Common.{none, some, List, length, take, get_elem?, Result, ok, err}
use tailfeather.Wg.Error.{Error, unknown_peer, no_session, unconfirmed}
use tailfeather.Wg.Crypto.{Aead}
use tailfeather.Wg.Session.{Session, total_len, is_usable}
use tailfeather.Wg.Timers.{Instant}
use tailfeather.Wg.Device.{
  Peer, Device, PeerId, Action, send, expire_sessions, expire, is_connected,
}
use tailfeather.Wg.Device.Data.{encapsulate}
use tailfeather.Wg.Device.Opens.{seal_for-seals, seal-writes, encapsulate-seals, usable-below}

-- What a device has for a peer at a time.
data Reach (d : Device) (id : PeerId) (now : Instant) : Type 0 where
  missing : get_elem? d.peers id ≡ none → Reach d id now
  idle : (p : Peer) → get_elem? d.peers id ≡ some p → p.current ≡ none → Reach d id now
  expired :
      (p : Peer) (s : Session)
      → get_elem? d.peers id ≡ some p
      → p.current ≡ some s
      → is_usable s now ≡ false
      → Reach d id now
  live :
      (p : Peer) (s : Session)
      → get_elem? d.peers id ≡ some p
      → p.current ≡ some s
      → is_usable s now ≡ true
      → Reach d id now

reach : (d : Device) (id : PeerId) (now : Instant) → Reach d id now
reach d id now = elim (Option-cases (get_elem? d.peers id)) [
  | inl none_there ↦ missing none_there
  | inr (p, at_id) ↦ elim (Option-cases p.current) [
    | inl empty ↦ idle p at_id empty
    | inr (s, current) ↦ elim (Bool-cases (is_usable s now)) [
      | inl usable ↦ live p s at_id current usable
      | inr unusable ↦ expired p s at_id current unusable
    ]
  ]
]

neither :
    (b : Bool) (r : Result Error Action) (a : Action) (e : Error)
    → b ≡ false
    → r ≡ err e
    → (b ≡ true) ↔ (r ≡ ok a)
neither b r a e no_b no_r = (λ h. cc, λ h. cc)

both :
    (b : Bool) (r : Result Error Action) (a : Action)
    → b ≡ true
    → r ≡ ok a
    → (b ≡ true) ↔ (r ≡ ok a)
both b r a yes_b yes_r = (λ h. yes_r, λ h. yes_b)

module _ (c : Aead) where
  -- With a buffer that is long enough, a device encapsulates a packet for a peer exactly when it says
  -- that the peer is connected: there is a session, it is in use, and the peer has confirmed it.
  pub encapsulate_iff_connected :
      (d : Device) (id : PeerId) (packet : List ℕ) (now : Instant) (out : List ℕ)
      → total_len packet ≤ length out
      → let sent = encapsulate c d id packet now out in
        (is_connected d id now ≡ true) ↔ (sent.2 ≡ ok (send id (take (total_len packet) sent.1)))
  unfolding is_connected encapsulate expire_sessions expire
  encapsulate_iff_connected d id packet now out room = elim (reach d id now) [
    | missing h ↦ neither _ _ _ unknown_peer (rw (h, is_connected) refl) (rw (h, encapsulate) refl)
    | idle p h1 h2 ↦
        neither _ _ _ no_session (rw (h1, h2, is_connected) refl)
          (rw (h1, h2, encapsulate, expire) refl)
    | expired p s h1 h2 h3 ↦
        neither _ _ _ no_session (rw (h1, h2, h3, is_connected) refl)
          (rw (h1, h2, h3, encapsulate, expire) refl)
    | live p s h1 h2 h3 ↦ elim (Bool-cases s.confirmed) [
      | inl done ↦
          let sent =
            encapsulate-seals c d id p s packet now out h1 h2 h3 done
            ∙ seal_for-seals c d id (expire_sessions p now) s _ packet out _ (total_len packet)
                (seal-writes c s packet out (usable-below s now h3) room) in
          both _ _ _ (rw (h1, h2, h3, done, is_connected) refl)
            (ap (λ w. w.2) sent ∙ ap (λ w. ok (send id (take (total_len packet) w.1))) (sym sent))
      | inr not_done ↦
          neither _ _ _ unconfirmed (rw (h1, h2, h3, not_done, is_connected) refl)
            (rw (h1, h2, h3, not_done, encapsulate, expire) refl)
    ]
  ]

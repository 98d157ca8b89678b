-- ===== src/Wg/Device/Directory.antt =====
-- What the operations of a device in crates/wg-core/src/lib.rs leave of the table of peers: who the
-- peers are, their pre-shared keys, and the newest timestamp of each.
use tailfeather.Common.{
  ℕ, zero, suc, ◌+◌, ◌≡◌, refl, sym, ap, ap₂, ◌∙◌, Bool, true, false, not, if◌then◌else◌, ltb, ◌==◌,
}
use tailfeather.Common.{
  Option, none, some, List, [], ◌∷◌, map, length, take, get_elem?, set, Result, ok, err,
}
use tailfeather.Wg.Error.{Error}
use tailfeather.Wg.Crypto.{Aead, Key}
use tailfeather.Wg.Crypto.Handshake.{Primitives}
use tailfeather.Wg.Messages.{header_len, get_u32, receiver_bytes}
use tailfeather.Wg.Ip.{packet_len}
use tailfeather.Wg.Noise.{Handshake, range, verify_response_mac1, consume_response}
use tailfeather.Wg.Session.{Session, seal, open_message}
use tailfeather.Wg.Timers.{Instant}
use tailfeather.Wg.Timers
use tailfeather.Wg.Device.{Peer, Device, PeerId, Action, expire_sessions, clear_pending, position}
use tailfeather.Wg.Device.Handshakes.{
  awaits, install, finish_handshake, pending_at, complete_handshake,
}
use tailfeather.Wg.Device.Data.{
  Opened, owner, put_back, promote, deliver, after_open, open_by, open_from, open_data, seal_for,
  encapsulate,
}
use tailfeather.Wg.Device.Steps.{spend}
use tailfeather.Wg.Device.Udp.{handle_data, answer_response, handle_response}

-- What is kept of a peer.
abbrev pub entry : Peer → Key × Key × Option (List ℕ)
entry p = (p.public, p.preshared_key, p.last_timestamp)

abbrev pub directory : List Peer → List (Key × Key × Option (List ℕ))
directory ps = map entry ps

-- A write that keeps the entry keeps the directory.
pub directory-set :
    (ps : List Peer) (id : PeerId) (p p' : Peer)
    → get_elem? ps id ≡ some p
    → entry p' ≡ entry p
    → directory (set ps id p') ≡ directory ps
directory-set [] id p p' h e = refl
directory-set (q ∷ ps) zero p p' h e =
    ap (λ x. x ∷ map entry ps) (e ∙ ap (λ o. elim o [ none ↦ entry q | some x ↦ entry x ]) (sym h))
directory-set (q ∷ ps) (suc id) p p' h e = ap (λ l. entry q ∷ l) (directory-set ps id p p' h e)

module _ {ℓ} {B : Type 0} (P : B → Type ℓ) where
  pub after_option :
      {A : Type 0} (o : Option A) (b : B) (f : A → B)
      → P b
      → ((a : A) → o ≡ some a → P (f a))
      → P (elim o [ none ↦ b | some a ↦ f a ])
  after_option none b f h next = h
  after_option (some a) b f h next = next a refl

  pub after_result :
      {A E : Type 0} (r : Result E A) (g : E → B) (f : A → B)
      → ((e : E) → P (g e))
      → ((a : A) → r ≡ ok a → P (f a))
      → P (elim r [ err e ↦ g e | ok a ↦ f a ])
  after_result (err e) g f h next = h e
  after_result (ok a) g f h next = next a refl

  pub after_if : (b : Bool) (x y : B) → P x → P y → P (if b then x else y)
  after_if true x y hx hy = hx
  after_if false x y hx hy = hy

  pub after_bool : (b : Bool) (x y : B) → P x → P y → P (elim b [ false ↦ x | true ↦ y ])
  after_bool true x y hx hy = hy
  after_bool false x y hx hy = hx

-- A device with the directory of another.
abbrev pub Keeps : Device → Device → Type 0
Keeps d d' = directory d'.peers ≡ directory d.peers

pub expire_sessions-Keeps : (p : Peer) (now : Instant) → entry (expire_sessions p now) ≡ entry p
unfolding expire_sessions
expire_sessions-Keeps p now = refl

put_back-Keeps : (p : Peer) (b : Bool) (s : Session) → entry (put_back p b s) ≡ entry p
put_back-Keeps p true s = refl
put_back-Keeps p false s = refl

promote-Keeps : (p : Peer) (b : Bool) (s : Session) → entry (promote p b s) ≡ entry p
unfolding promote
promote-Keeps p true s = refl
promote-Keeps p false s = refl

deliver-Keeps :
    (index : PeerId) (p : Peer) (n : ℕ) (out : List ℕ) (now : Instant)
    → entry (deliver index p n out now).0 ≡ entry p
unfolding deliver
deliver-Keeps index p n out now =
    after_if (λ (w : Peer × Opened). entry w.0 ≡ entry p) (n == 0) _ _ refl
      (after_option (λ (w : Peer × Opened). entry w.0 ≡ entry p) (packet_len (take n out)) _ _ refl
        (λ a h. refl))

after_open-Keeps :
    (index : PeerId) (p : Peer) (b : Bool) (now : Instant) (w : Session × List ℕ × Result Error ℕ)
    → entry (after_open index p b now w).0 ≡ entry p
unfolding after_open
after_open-Keeps index p b now (s, out, err e) = put_back-Keeps p b s
after_open-Keeps index p b now (s, out, ok n) =
    deliver-Keeps index (promote p b s) n out now ∙ promote-Keeps p b s

module _ (c : Aead) where
  pub seal_for-Keeps :
      (d : Device) (id : PeerId) (q p : Peer) (s : Session) (packet out : List ℕ)
      → get_elem? d.peers id ≡ some q
      → entry p ≡ entry q
      → Keeps d (seal_for c d id p s packet out).0
  unfolding seal_for
  seal_for-Keeps d id q p s packet out h e =
      after_result (λ (w : Device × List ℕ × Result Error Action). Keeps d w.0)
        (seal c s packet out).2 _ _ (λ a. directory-set d.peers id q _ h e)
        (λ n eq. directory-set d.peers id q _ h e)

  pub encapsulate-Keeps :
      (d : Device) (id : PeerId) (packet : List ℕ) (now : Instant) (out : List ℕ)
      → Keeps d (encapsulate c d id packet now out).0
  unfolding encapsulate
  encapsulate-Keeps d id packet now out =
      after_option (λ (w : Device × List ℕ × Result Error Action). Keeps d w.0)
        (get_elem? d.peers id) _ _ refl
        (λ p at.
          after_option (λ (w : Device × List ℕ × Result Error Action). Keeps d w.0)
            (expire_sessions p now).current _ _
            (directory-set d.peers id p _ at (expire_sessions-Keeps p now))
            (λ s cur.
              after_if (λ (w : Device × List ℕ × Result Error Action). Keeps d w.0)
                (not s.confirmed) _ _
                (directory-set d.peers id p _ at (expire_sessions-Keeps p now))
                (seal_for-Keeps d id p (expire_sessions p now) s packet out at
                  (expire_sessions-Keeps p now))))

  open_from-Keeps :
      (receiver : ℕ) (i : PeerId) (ps : List Peer) (datagram : List ℕ) (now : Instant)
      (out : List ℕ)
      → directory (open_from c receiver i ps datagram now out).0 ≡ directory ps
  unfolding open_from open_by
  open_from-Keeps receiver i [] datagram now out = refl
  open_from-Keeps receiver i (p ∷ ps) datagram now out =
      after_option (λ (w : List Peer × List ℕ × Opened). directory w.0 ≡ directory (p ∷ ps))
        (owner (expire_sessions p now) receiver) _ _
        (ap₂ (λ x l. x ∷ l) (expire_sessions-Keeps p now)
          (open_from-Keeps receiver (i + 1) ps datagram now out))
        (λ found h.
          ap (λ x. x ∷ map entry ps)
            (after_open-Keeps i (expire_sessions p now) found.1 now
                (open_message c found.0 datagram out)
              ∙ expire_sessions-Keeps p now))

  open_data-Keeps :
      (d : Device) (datagram : List ℕ) (now : Instant) (out : List ℕ)
      → Keeps d (open_data c d datagram now out).0
  unfolding open_data
  open_data-Keeps d datagram now out =
      after_if (λ (w : Device × List ℕ × Opened). Keeps d w.0) (ltb (length datagram) header_len) _
        _ refl (open_from-Keeps (get_u32 (receiver_bytes datagram)) 0 d.peers datagram now out)

pending_entry :
    (p : Peer) (o : Option Handshake) (w : Peer × Handshake)
    → (let found : Option (Peer × Handshake) = elim o [ none ↦ none | some h ↦ some (p, h) ] in
        found ≡ some w)
    → p ≡ w.0
pending_entry p none w e = cc
pending_entry p (some h) w e = ap {B = Peer} (λ o. elim o [ none ↦ p | some x ↦ x.0 ]) e

pending_found :
    (o : Option Peer) (w : Peer × Handshake)
    → (let found : Option (Peer × Handshake) = elim o [
      | none ↦ none
      | some p ↦ elim p.pending [ none ↦ none | some h ↦ some (p, h) ]
    ] in
        found ≡ some w)
    → o ≡ some w.0
pending_found none w e = cc
pending_found (some p) w e = ap some (pending_entry p p.pending w e)

module _ (c : Primitives) where
  finish_handshake-Keeps :
      (d : Device) (id : PeerId) (p : Peer) (handshake : Handshake) (datagram : List ℕ)
      (now : Instant)
      → get_elem? d.peers id ≡ some p
      → Keeps d (finish_handshake c d id p handshake datagram now).0
  unfolding finish_handshake install clear_pending
  finish_handshake-Keeps d id p handshake datagram now at =
      after_result (λ (w : Device × Result Error PeerId). Keeps d w.0)
        (consume_response c handshake d.static_private p.preshared_key datagram) _ _ (λ e. refl)
        (λ w h. directory-set d.peers id p _ at refl)

  complete_handshake-Keeps :
      (d : Device) (datagram : List ℕ) (now : Instant)
      → Keeps d (complete_handshake c d datagram now).0
  unfolding complete_handshake pending_at
  complete_handshake-Keeps d datagram now =
      after_result (λ (w : Device × Result Error PeerId). Keeps d w.0)
        (verify_response_mac1 c d.mac1_key datagram) _ _ (λ e. refl)
        (λ u verified.
          after_option (λ (w : Device × Result Error PeerId). Keeps d w.0)
            (position (awaits (get_u32 (range 8 4 datagram))) d.peers 0) _ _ refl
            (λ id found.
              after_bool (λ (w : Device × Result Error PeerId). Keeps d w.0)
                (Timers.take d.budget now).1 _ _ refl
                (after_option (λ (w : Device × Result Error PeerId). Keeps d w.0)
                  (pending_at c (spend d now) id) _ _ refl
                  (λ w at.
                    finish_handshake-Keeps (spend d now) id w.0 w.1 datagram now
                      (pending_found (get_elem? d.peers id) w at)))))

  answer_response-Keeps :
      (d : Device) (id : PeerId) (out : List ℕ) → Keeps d (answer_response c d id out).0
  unfolding answer_response
  answer_response-Keeps d id out =
      after_option (λ (w : Device × List ℕ × Result Error Action). Keeps d w.0)
        (get_elem? d.peers id) _ _ refl
        (λ p at.
          after_option (λ (w : Device × List ℕ × Result Error Action). Keeps d w.0) p.current _ _
            refl (λ s cur. seal_for-Keeps c.aead d id p p s [] out at refl))

  pub handle_response-Keeps :
      (d : Device) (datagram : List ℕ) (now : Instant) (out : List ℕ)
      → Keeps d (handle_response c d datagram now out).0
  unfolding handle_response
  handle_response-Keeps d datagram now out =
      let d' = (complete_handshake c d datagram now).0 in
      after_result (λ (w : Device × List ℕ × Result Error Action). Keeps d w.0)
        (complete_handshake c d datagram now).1 _ _ (λ e. complete_handshake-Keeps d datagram now)
        (λ id h. answer_response-Keeps d' id out ∙ complete_handshake-Keeps d datagram now)

  pub handle_data-Keeps :
      (d : Device) (datagram : List ℕ) (now : Instant) (out : List ℕ)
      → Keeps d (handle_data c d datagram now out).0
  unfolding handle_data
  handle_data-Keeps d datagram now out = open_data-Keeps c.aead d datagram now out

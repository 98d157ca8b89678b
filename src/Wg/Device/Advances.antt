-- ===== src/Wg/Device/Advances.antt =====
-- How a datagram moves the table of peers of a device in crates/wg-core/src/lib.rs: only an initiation
-- changes more than sessions, and that is the timestamp of one peer, to a newer one.
use tailfeather.Common.{ℕ, zero, suc, ◌≡◌, refl, ap, subst, Bool, true, false, not, ◌==◌}
use tailfeather.Common.{Option, none, some, List, [], ◌∷◌, length, get_elem?, set, Result, ok, err}
use tailfeather.Wg.Error.{Error}
use tailfeather.Wg.Crypto.Handshake.{Primitives}
use tailfeather.Wg.Messages.{
  message_type, type_initiation, type_response, type_cookie_reply, type_data,
}
use tailfeather.Wg.Noise.{
  Initiation, timestamp_is_newer, verify_initiation_mac1, consume_initiation, create_response,
}
use tailfeather.Wg.Timers.{Instant}
use tailfeather.Wg.Timers
use tailfeather.Wg.Device.{Peer, Device, PeerId, Action, send, clear_pending}
use tailfeather.Wg.Device.Handshakes.{
  named, is_stale, draw, accept_initiation, send_response, respond_to_peer, respond_to_initiation,
}
use tailfeather.Wg.Device.Udp.{handle_initiation, handle_udp}
use tailfeather.Wg.Device.Steps.{spend}
use tailfeather.Wg.Device.Named.{named-addressed}
use tailfeather.Wg.Device.Directory.{
  entry, directory, after_option, after_result, after_if, after_bool, handle_response-Keeps,
  handle_data-Keeps,
}

-- The table is that of the same peers, or one of them has a newer timestamp.
pub data Advances (ps ps' : List Peer) : Type 0 where
  same_directory : directory ps' ≡ directory ps → Advances ps ps'
  newer_timestamp :
      (id : PeerId) (p : Peer) (timestamp : List ℕ)
      → get_elem? ps id ≡ some p
      → ((last : List ℕ) → p.last_timestamp ≡ some last → timestamp_is_newer timestamp last ≡ true)
      → directory ps' ≡ set (directory ps) id (p.public, p.preshared_key, some timestamp)
      → Advances ps ps'

directory-write :
    (ps : List Peer) (id : PeerId) (p : Peer)
    → directory (set ps id p) ≡ set (directory ps) id (entry p)
directory-write [] id p = refl
directory-write (q ∷ ps) zero p = refl
directory-write (q ∷ ps) (suc id) p = ap (λ l. entry q ∷ l) (directory-write ps id p)

is_true : (b : Bool) → not b ≡ false → b ≡ true
is_true true h = refl
is_true false h = cc

unless_stale :
    {B : Type 0} (P : B → Type 0) (b : Bool) (x y : B)
    → P x
    → ((b ≡ false) → P y)
    → P (elim b [ true ↦ x | false ↦ y ])
unless_stale P true x y hx hy = hx
unless_stale P false x y hx hy = hy refl

-- An initiation that is not stale is newer than what the peer has been seen with.
newer_than_seen :
    (p : Peer) (initiation : Initiation)
    → is_stale p initiation ≡ false
    → (last : List ℕ) → p.last_timestamp ≡ some last
    → timestamp_is_newer initiation.timestamp last ≡ true
unfolding is_stale
newer_than_seen p initiation fresh last seen =
    is_true (timestamp_is_newer initiation.timestamp last) (rw (seen, is_stale) at fresh)

-- The device that a step leaves, where it ends.
abbrev Leaves : {R X : Type 0} → List Peer → Option (Device × R × X) → Type 0
Leaves ps none = Unit
Leaves ps (some w) = Advances ps w.0.peers

-- The same with the caller's buffer.
abbrev LeavesBoth : {R X Y : Type 0} → List Peer → Option (Device × R × X × Y) → Type 0
LeavesBoth ps none = Unit
LeavesBoth ps (some w) = Advances ps w.0.peers

module _ (c : Primitives) {R : Type 0} (fill_bytes : R → ℕ → List ℕ × R) (fuel : ℕ) where
  send_response-Advances :
      (d : Device) (id : PeerId) (p : Peer) (initiation : Initiation) (now : Instant) (index : ℕ)
      (ephemeral : List ℕ) (room : ℕ)
      → get_elem? d.peers id ≡ some p
      → is_stale p initiation ≡ false
      → Advances d.peers (send_response c d id p initiation now index ephemeral room).0.peers
  unfolding send_response accept_initiation clear_pending
  send_response-Advances d id p initiation now index ephemeral room at fresh =
      after_result (λ (w : Device × Result Error (PeerId × List ℕ)). Advances d.peers w.0.peers)
        (create_response c initiation p.preshared_key index ephemeral room) _ _
        (λ e. same_directory refl)
        (λ w h.
          newer_timestamp id p initiation.timestamp at (newer_than_seen p initiation fresh)
            (directory-write d.peers id _))

  respond_to_peer-Advances :
      (d : Device) (id : PeerId) (p : Peer) (initiation : Initiation) (now : Instant) (rng : R)
      (room : ℕ)
      → get_elem? d.peers id ≡ some p
      → Leaves d.peers (respond_to_peer c fill_bytes fuel d id p initiation now rng room)
  unfolding respond_to_peer
  respond_to_peer-Advances d id p initiation now rng room at =
      unless_stale (Leaves d.peers) (is_stale p initiation) _ _ (same_directory refl) (λ fresh.
        after_option (Leaves d.peers) (draw c fill_bytes fuel d.peers rng) none _ tt
          (λ w h. send_response-Advances d id p initiation now w.0 w.1 room at fresh))

  respond-Advances :
      (d : Device) (datagram : List ℕ) (now : Instant) (rng : R) (room : ℕ)
      → Leaves d.peers (respond_to_initiation c fill_bytes fuel d datagram now rng room)
  unfolding respond_to_initiation
  respond-Advances d datagram now rng room =
      after_result (Leaves d.peers) (verify_initiation_mac1 c d.mac1_key datagram) _ _
        (λ e. same_directory refl)
        (λ u verified.
          after_bool (Leaves d.peers) (Timers.take d.budget now).1 _ _ (same_directory refl) (
            after_result (Leaves d.peers)
              (consume_initiation c d.static_private d.static_public d.mac1_key datagram) _ _
              (λ e. same_directory refl)
              (λ initiation consumed.
                after_option (Leaves d.peers) (named (spend d now) initiation) _ _
                  (same_directory refl)
                  (λ found at.
                    respond_to_peer-Advances (spend d now) found.0 found.1 initiation now rng room
                      (named-addressed (spend d now) initiation found.0 found.1 at).1))))

  initiation-Leaves :
      (ps : List Peer) (out : List ℕ) (o : Option (Device × R × Result Error (PeerId × List ℕ)))
      → Leaves ps o
      → LeavesBoth ps (elim o [
        | none ↦ none
        | some w ↦ elim w.2 [
          | err e ↦ some (w.0, w.1, out, err e)
          | ok sent ↦ some (w.0, w.1, out, ok (send sent.0 sent.1))
        ]
      ])
  initiation-Leaves ps out none h = tt
  initiation-Leaves ps out (some (d, rng, err e)) h = h
  initiation-Leaves ps out (some (d, rng, ok w)) h = h

  handle_initiation-Advances :
      (d : Device) (datagram : List ℕ) (now : Instant) (rng : R) (out : List ℕ)
      → LeavesBoth d.peers (handle_initiation c fill_bytes fuel d datagram now rng out)
  unfolding handle_initiation
  handle_initiation-Advances d datagram now rng out =
      initiation-Leaves d.peers out
        (respond_to_initiation c fill_bytes fuel d datagram now rng (length out))
        (respond-Advances d datagram now rng (length out))

  handle_udp-Leaves :
      (d : Device) (datagram : List ℕ) (now : Instant) (rng : R) (out : List ℕ)
      → LeavesBoth d.peers (handle_udp c fill_bytes fuel d datagram now rng out)
  unfolding handle_udp
  handle_udp-Leaves d datagram now rng out =
      after_result (LeavesBoth d.peers) (message_type datagram) _ _ (λ e. same_directory refl)
        (λ ty read.
          after_if (LeavesBoth d.peers) (ty == type_initiation) _ _
            (handle_initiation-Advances d datagram now rng out)
            (after_if (LeavesBoth d.peers) (ty == type_data) _ _
              (same_directory (handle_data-Keeps c d datagram now out))
              (after_if (LeavesBoth d.peers) (ty == type_response) _ _
                (same_directory (handle_response-Keeps c d datagram now out))
                (after_if (LeavesBoth d.peers) (ty == type_cookie_reply) _ _ (same_directory refl)
                  (same_directory refl)))))

  -- Whatever datagram arrives, a device keeps its peers in their places, with their keys. Either their
  -- timestamps stay as they are as well, or that of one peer changes, to one that is newer than the last.
  pub handle_udp-Advances :
      (d d' : Device) (datagram : List ℕ) (now : Instant) (rng rng' : R) (out out' : List ℕ)
      (outcome : Result Error Action)
      → handle_udp c fill_bytes fuel d datagram now rng out ≡ some (d', rng', out', outcome)
      → Advances d.peers d'.peers
  handle_udp-Advances d d' datagram now rng rng' out out' outcome h =
      subst (LeavesBoth d.peers) h (handle_udp-Leaves d datagram now rng out)

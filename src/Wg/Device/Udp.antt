-- ===== src/Wg/Device/Udp.antt =====
-- crates/wg-core/src/lib.rs: `handle_udp`, by the type of the datagram. The buffer is returned as the
-- messages of data leave it; what a handshake message leaves in it is the data of the action.
use tailfeather.Common.{ℕ, ◌==◌, if◌then◌else◌, Option, none, some}
use tailfeather.Common.{List, [], length, take, get_elem?, Result, ok, err}
use tailfeather.Wg.Error.{Error, malformed, unsupported, no_session}
use tailfeather.Wg.Crypto.Handshake.{Primitives}
use tailfeather.Wg.Messages.{
  message_type, type_initiation, type_response, type_cookie_reply, type_data,
}
use tailfeather.Wg.Timers.{Instant}
use tailfeather.Wg.Device.{Device, PeerId, Action, nothing, send, receive}
use tailfeather.Wg.Device.Handshakes.{complete_handshake, respond_to_initiation}
use tailfeather.Wg.Device.Data.{Opened, open_data, seal_for}

-- The action for data that has been opened into the buffer.
unfoldable pub delivered : List ℕ → Opened → Result Error Action
delivered out (err e) = err e
delivered out (ok none) = ok nothing
delivered out (ok (some w)) = ok (receive w.0 (take w.1 out))

module _ (c : Primitives) where
  unfoldable pub handle_data :
      Device → List ℕ → Instant → List ℕ → Device × List ℕ × Result Error Action
  unfolding open_data delivered
  handle_data d datagram now out =
      let (d', out', opened) = open_data c.aead d datagram now out in
      (d', out', delivered out' opened)

  -- The first message of a new session, which carries nothing. The peer has a session, which
  -- `complete_handshake` has installed.
  unfoldable pub answer_response : Device → PeerId → List ℕ → Device × List ℕ × Result Error Action
  unfolding seal_for
  answer_response d id out = elim (get_elem? d.peers id) [
    | none ↦ (d, out, err no_session)
    | some p ↦ elim p.current [
      | none ↦ (d, out, err no_session)
      | some s ↦ seal_for c.aead d id p s [] out
    ]
  ]

  unfoldable pub handle_response :
      Device → List ℕ → Instant → List ℕ → Device × List ℕ × Result Error Action
  unfolding complete_handshake answer_response
  handle_response d datagram now out =
      let (d', completed) = complete_handshake c d datagram now in
      elim completed [ err e ↦ (d', out, err e) | ok id ↦ answer_response d' id out ]

module _ (c : Primitives) {R : Type 0} (fill_bytes : R → ℕ → List ℕ × R) (fuel : ℕ) where
  unfoldable pub handle_initiation :
      Device → List ℕ → Instant → R → List ℕ → Option (Device × R × List ℕ × Result Error Action)
  unfolding respond_to_initiation
  handle_initiation d datagram now rng out =
      elim (respond_to_initiation c fill_bytes fuel d datagram now rng (length out)) [
        | none ↦ none
        | some w ↦ elim w.2 [
          | err e ↦ some (w.0, w.1, out, err e)
          | ok sent ↦ some (w.0, w.1, out, ok (send sent.0 sent.1))
        ]
      ]

  unfoldable pub handle_udp :
      Device → List ℕ → Instant → R → List ℕ → Option (Device × R × List ℕ × Result Error Action)
  unfolding message_type handle_initiation handle_data handle_response
  handle_udp d datagram now rng out =
      let (d', out', answered) = handle_response c d datagram now out in
      let (d'', out'', opened) = handle_data c d datagram now out in
      let initiated = handle_initiation d datagram now rng out in
      elim (message_type datagram) [
        | err e ↦ some (d, rng, out, err e)
        | ok ty ↦
            if ty == type_initiation
            then initiated
            else if ty == type_data
            then some (d'', rng, out'', opened)
            else if ty == type_response
            then some (d', rng, out', answered)
            else if ty == type_cookie_reply
            then some (d, rng, out, err unsupported)
            else some (d, rng, out, err malformed)
      ]

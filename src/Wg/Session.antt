-- ===== src/Wg/Session.antt =====
-- crates/wg-core/src/transport.rs: one session, sealing and opening type-4 messages. A method takes
-- the session and the caller's buffer, and returns both as it leaves them, with its result.
pub mod Counter
pub mod Once
pub mod RoundTrip
use tailfeather.Common.{ℕ, ◌+◌, ◌-◌, ◌%◌, Bool, true, false, not, ltb, leb, ◌==◌, ◌&&◌}
use tailfeather.Common.{if◌then◌else◌, List, [], ◌∷◌, ◌++◌, length, take, drop, replicate}
use tailfeather.Common.{Result, ok, err}
use tailfeather.Common.Bytes.{to_le_bytes}
use tailfeather.Wg.Budget.{pad_to, tag_len, next_multiple_of}
use tailfeather.Wg.Error.{Error, malformed, buffer_too_small, session_expired, replay}
use tailfeather.Wg.Crypto.{Aead, Key, aead_seal, aead_open}
use tailfeather.Wg.Messages.{header_len, header, type_data, counter_bytes, get_u64}
use tailfeather.Wg.Replay.{ReplayWindow, new_window, accept}
use tailfeather.Wg.Timers.{Instant, session_is_alive, reject_after_messages}

-- `noise::TransportKeys`.
pub record TransportKeys : Type 0 where
  pub sending_key : Key
  pub receiving_key : Key

pub record Session : Type 0 where
  pub local_index : ℕ
  pub peer_index : ℕ
  pub sending : Key
  pub receiving : Key
  pub send_counter : ℕ
  pub replays : ReplayWindow
  pub established : Instant
  pub confirmed : Bool

unfoldable pub new_session : TransportKeys → ℕ → ℕ → Instant → Session
new_session keys local_index peer_index now = record {
  local_index = local_index;
  peer_index = peer_index;
  sending = keys.sending_key;
  receiving = keys.receiving_key;
  send_counter = 0;
  replays = new_window;
  established = now;
  confirmed = false;
}

unfoldable pub confirm : Session → Session
confirm s = record s { confirmed = true }

unfoldable pub is_usable : Session → Instant → Bool
is_usable s now = session_is_alive s.established now && ltb s.send_counter reject_after_messages

abbrev pub padded_len : List ℕ → ℕ
padded_len packet = next_multiple_of (length packet) pad_to

abbrev pub total_len : List ℕ → ℕ
total_len packet = header_len + padded_len packet + tag_len

-- The plaintext that is sealed: the packet and its zeros.
abbrev pub padded : List ℕ → List ℕ
padded packet = packet ++ replicate (padded_len packet - length packet) 0

module _ (c : Aead) where
  -- The message that `seal` writes.
  unfoldable pub message : Session → List ℕ → List ℕ
  message s packet =
      let (body, tag) = aead_seal c s.sending s.send_counter [] (padded packet) in
      header type_data
      ++ (to_le_bytes 4 s.peer_index ++ (to_le_bytes 8 s.send_counter ++ (body ++ tag)))

  unfoldable pub seal : Session → List ℕ → List ℕ → Session × List ℕ × Result Error ℕ
  seal s packet out =
      if ltb (length out) (total_len packet)
      then (s, out, err buffer_too_small)
      else if leb reject_after_messages s.send_counter
      then (s, out, err session_expired)
      else (
        record s { send_counter = s.send_counter + 1 },
        message s packet ++ drop (total_len packet) out,
        ok (total_len packet),
      )

  -- What `open` does once the tag has been checked.
  unfoldable pub finish_open :
      Session → ℕ → ℕ → List ℕ × Result Error (Unit {0}) → Session × List ℕ × Result Error ℕ
  finish_open s counter ciphertext_len (out, err e) = (s, out, err e)
  finish_open s counter ciphertext_len (out, ok u) =
      let (w, fresh) = accept s.replays counter in
      (record s { replays = w }, out, if fresh then ok ciphertext_len else err replay)

  unfoldable pub open_message : Session → List ℕ → List ℕ → Session × List ℕ × Result Error ℕ
  unfolding finish_open
  open_message s datagram out =
      let body = drop header_len datagram in
      let ciphertext_len = length body - tag_len in
      let counter = get_u64 (counter_bytes datagram) in
      let opened =
        aead_open c s.receiving counter [] (take ciphertext_len body) (drop ciphertext_len body) in
      if ltb (length datagram) header_len
      then (s, out, err malformed)
      else if ltb (length body) tag_len
      then (s, out, err malformed)
      else if not (ciphertext_len % pad_to == 0)
      then (s, out, err malformed)
      else if ltb (length out) ciphertext_len
      then (s, out, err buffer_too_small)
      else if leb reject_after_messages counter
      then (s, out, err session_expired)
      else finish_open s counter ciphertext_len (opened.0 ++ drop ciphertext_len out, opened.1)

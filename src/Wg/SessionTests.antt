-- ===== src/Wg/SessionTests.antt =====
-- The session's theorems at concrete inputs, under a cipher that leaves the buffer as it is.
use tailfeather.Common.{ℕ, ◌+◌, ◌≡◌, ◌≢◌, refl, arith, true}
use tailfeather.Common.{List, [], ◌∷◌, ◌++◌, take, drop, replicate, ok}
use tailfeather.Common.Bytes.{from_le_bytes}
use tailfeather.Wg.Error.{malformed}
use tailfeather.Wg.Crypto.{Aead, IsAead, nonce_le, aead_open, aead_open_nonce}
use tailfeather.Wg.Replay.{new_window, accept}
use tailfeather.Wg.Session.{
  TransportKeys, Session, new_session, seal, open_message, padded, padded_len, total_len,
}
use tailfeather.Wg.Session.RoundTrip.{open-seal}
use tailfeather.Wg.Session.Counter.{
  nonce_fresh, open_refused_keeps, seal_all, sealed_under, open_all,
}
use tailfeather.Wg.Session.Once.{delivered_once}

abbrev plain : Aead
plain = record {
  encrypt = λ key nonce aad buffer. (buffer, replicate 16 0);
  decrypt = λ key nonce aad buffer tag. (buffer, true);
}

abbrev plain-IsAead : IsAead plain
plain-IsAead = record {
  length-encrypt = λ key nonce aad buffer. refl;
  length_tag = λ key nonce aad buffer. refl;
  decrypt-encrypt = λ key nonce aad buffer. refl;
}

abbrev near : Session
near = record {
  local_index = 1;
  peer_index = 2;
  sending = 3 ∷ [];
  receiving = 4 ∷ [];
  send_counter = 300;
  replays = new_window;
  established = 0;
  confirmed = true;
}

abbrev far : Session
far = record near { sending = 4 ∷ []; receiving = 3 ∷ [] }

abbrev packet : List ℕ
packet = 0x45 ∷ 0 ∷ 0 ∷ 5 ∷ 9 ∷ []

abbrev buffer : List ℕ
buffer = replicate 50 7

open-seal_example :
    let (s', out', sealed) = seal plain near packet buffer in
    let (r', inbox', opened) = open_message plain far (take (total_len packet) out') buffer in
    (sealed ≡ ok (total_len packet))
    × (s' ≡ record near { send_counter = 300 + 1 })
    × (opened ≡ ok (padded_len packet))
    × (take (padded_len packet) inbox' ≡ padded packet)
    × (r' ≡ record far { replays = (accept new_window 300).0 })
open-seal_example =
    open-seal plain plain-IsAead near far packet buffer buffer (omega arith) refl (omega arith)
      (omega arith) (unfold accept new_window in refl)

nonce_fresh_example :
    let first = seal plain near packet buffer in
    let later = seal_all plain first.0 ((packet, buffer) ∷ []) in
    (first.1 ≡ sealed_under plain (3 ∷ []) 2 300 packet ++ drop 48 buffer)
    × ((seal plain later packet buffer).1
        ≡ sealed_under plain (3 ∷ []) 2 later.send_counter packet ++ drop 48 buffer)
    × (nonce_le 300 ≢ nonce_le later.send_counter)
nonce_fresh_example =
    nonce_fresh plain near packet buffer packet buffer 48 48 ((packet, buffer) ∷ [])
      (unfold seal in refl) (unfold seal seal_all in refl)

open_refused_keeps_example : (open_message plain far (1 ∷ 2 ∷ []) buffer).0 ≡ far
open_refused_keeps_example =
    open_refused_keeps plain far (1 ∷ 2 ∷ []) buffer malformed (unfold open_message in refl)

abbrev pair_keys : TransportKeys
pair_keys = record { sending_key = 4 ∷ []; receiving_key = 3 ∷ [] }

-- A keepalive with counter 5.
abbrev keepalive : List ℕ
keepalive = (4 ∷ 0 ∷ 0 ∷ 0 ∷ 1 ∷ 0 ∷ 0 ∷ 0 ∷ 5 ∷ replicate 7 0) ++ replicate 16 0

delivered_once_example :
    let r = open_all plain (new_session pair_keys 1 2 0) [] in
    (open_message plain
      (open_all plain (open_message plain r keepalive buffer).0 [])
      keepalive
      buffer).2
    ≢ ok 0
delivered_once_example =
    delivered_once plain pair_keys 1 2 0 [] [] keepalive buffer keepalive buffer 0 0
      (unfold open_message open_all new_session aead_open aead_open_nonce accept new_window
          from_le_bytes in
        refl)
      refl

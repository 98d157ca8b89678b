-- ===== src/Wg/DeviceTests.antt =====
-- The device at concrete inputs, under primitives that are easy to compute.
use tailfeather.Common.{zero, suc, ℕ, ◌+◌, ◌≡◌, ◌≢◌, refl, ap, sym, arith, true, false, ◌⊎◌, ◌↔◌}
use tailfeather.Common.{
  List, [], ◌∷◌, take, get_elem?, replicate, Result, ok, err, Option, none, some, bytes_eq,
}
use tailfeather.Common.Bytes.{from_le_bytes, to_le_bytes}
use tailfeather.Wg.Error.{Error, stale_timestamp, rate_limited}
use tailfeather.Wg.Crypto.{Key, aead_seal_nonce, aead_open_nonce}
use tailfeather.Wg.Noise.{mac1_key}
use tailfeather.Wg.NoiseTests.{simple, simple-IsPrimitives, first_byte, secret}
use tailfeather.Wg.Replay.{new_window, accept}
use tailfeather.Wg.Session.{Session, new_session, confirm, total_len, is_usable}
use tailfeather.Wg.Timers.{HandshakeBudget, refill, session_is_alive}
use tailfeather.Wg.Timers
use tailfeather.Wg.Ip.{packet_len}
use tailfeather.Wg.Device.{
  Peer, Device, PeerId, send, receive, is_connected, peer_by_public_key, position, expire_sessions,
  expire,
}
use tailfeather.Wg.Device.Handshakes.{
  awaits, draw, allocate_index, start_handshake, respond_to_initiation, complete_handshake,
}
use tailfeather.Wg.Device.Data.{encapsulate, owner}
use tailfeather.Wg.Device.Udp.{handle_data}
use tailfeather.Wg.Device.Udp.{handle_udp}
use tailfeather.Wg.Device.Advances.{Advances, handle_udp-Advances}
use tailfeather.Wg.Device.Indices.{candidate, session_indices, allocate_index_finishes}
use tailfeather.Common.{All, ◌*◌, ◌∙◌, ◌<◌}
use tailfeather.Wg.Device.Sending.{encapsulate_iff_connected}
use tailfeather.Wg.Device.Delivers.{data_delivered}
use tailfeather.Wg.Device.Replayed.{replayed_initiation_refused}
use tailfeather.Wg.Device.Connects.{current_of, handshake_connects}

-- A generator that counts.
abbrev counting : ℕ → ℕ → List ℕ × ℕ
counting n count = (replicate count n, n + 1)

abbrev registered : Key → Peer
registered public = record {
  public = public;
  preshared_key = replicate 32 0;
  last_timestamp = none;
  current = none;
  previous = none;
  keepalive_armed_since = none;
  initiating = false;
  pending = none;
  pending_since = none;
  pending_last_sent = none;
}

abbrev device : Key → List Peer → Device
device private peers = record {
  static_private = private;
  static_public = first_byte private;
  mac1_key = mac1_key simple (first_byte private);
  peers = peers;
  budget = record { tokens = 8; last_refill = none };
}

abbrev near : Device
near =
    device (secret 1) (registered (first_byte (secret 3)) ∷ registered (first_byte (secret 2)) ∷ [])

abbrev far : Device
far = device (secret 2) (registered (first_byte (secret 1)) ∷ [])

-- No other peer of `near` awaits anything.
others_silent :
    (j : PeerId) (o : Peer) → get_elem? near.peers j ≡ some o → j ≢ 1 → awaits 117901063 o ≡ false
others_silent zero o at ne =
    ap (λ x. elim x [ none ↦ false | some p ↦ awaits 117901063 p ]) (sym at)
others_silent (suc zero) o at ne = absurd (ne refl)
others_silent (suc (suc j)) o at ne = cc

handshake_connects_example :
    (first : List ℕ) × (second : List ℕ) × (a : Key) × (b : Key) × (near1 : Device)
    × (near2 : Device) × (far1 : Device) × (start_handshake simple counting 1 near 1 0
          (replicate 12 6)
          7
          148
        ≡ some (near1, 9, ok first))
    × (respond_to_initiation simple counting 1 far first 0 20 148 ≡ some (far1, 22, ok (0, second)))
    × (complete_handshake simple near1 second 1 ≡ (near2, ok 1))
    × (current_of near2 1
        ≡ some (
            confirm
              (new_session (record { sending_key = a; receiving_key = b }) 117901063 336860180 1)))
    × (current_of far1 0
        ≡ some (new_session (record { sending_key = b; receiving_key = a }) 336860180 117901063 0))
handshake_connects_example =
    handshake_connects simple counting 1 simple-IsPrimitives near far 1 0
      (registered (first_byte (secret 2))) (registered (first_byte (secret 1))) 0 0 1
      (replicate 12 6) 7 9 20 22 148 117901063 336860180 (replicate 32 8) (replicate 32 21)
      (record { own_public = refl; own_mac1 = refl })
      (record { own_public = refl; own_mac1 = refl }) refl refl
      (unfold peer_by_public_key position bytes_eq in refl) refl refl (λ last h. cc)
      (unfold Timers.take refill in refl) (unfold Timers.take refill in refl)
      (unfold Timers.take refill in refl) (unfold draw from_le_bytes in refl)
      (unfold draw from_le_bytes in refl) others_silent (omega arith) (omega arith) refl
      (omega arith)

-- An initiation from `near`, and what `far` makes of it.
abbrev first : List ℕ
first = elim (start_handshake simple counting 1 near 1 0 (replicate 12 6) 7 148) [
  | none ↦ []
  | some w ↦ elim w.2 [ err e ↦ [] | ok bytes ↦ bytes ]
]

abbrev answer : Option (Device × ℕ × Result Error (PeerId × List ℕ))
answer = respond_to_initiation simple counting 1 far first 0 20 148

abbrev answered : Device
answered = elim answer [ none ↦ far | some w ↦ w.0 ]

abbrev second : List ℕ
second = elim answer [ none ↦ [] | some w ↦ elim w.2 [ err e ↦ [] | ok sent ↦ sent.1 ] ]

handle_udp-Advances_example : Advances far.peers answered.peers
unfolding Timers.take to_le_bytes aead_seal_nonce bytes_eq aead_open_nonce
handle_udp-Advances_example =
    handle_udp-Advances simple counting 1 far answered first 0 20 22 (replicate 148 0)
      (replicate 148 0) (ok (send 0 second))
      (unfold start_handshake respond_to_initiation handle_udp in refl)

replayed_initiation_refused_example :
    (d : Device) × (e : Error) × (respond_to_initiation simple counting 1 answered first 3 40 148
      ≡ some (d, 40, err e))
    × (d.peers ≡ answered.peers)
    × ((e ≡ stale_timestamp) ⊎ (e ≡ rate_limited))
unfolding Timers.take to_le_bytes aead_seal_nonce bytes_eq aead_open_nonce
replayed_initiation_refused_example =
    replayed_initiation_refused simple counting 1 far answered first second 0 3 20 22 40 148 148 0
      (unfold start_handshake respond_to_initiation in refl)

abbrev live : Session
live = record {
  local_index = 5;
  peer_index = 6;
  sending = 3 ∷ [];
  receiving = 4 ∷ [];
  send_counter = 300;
  replays = new_window;
  established = 0;
  confirmed = true;
}

abbrev mirrored : Session
mirrored = record live {
  local_index = 6;
  peer_index = 5;
  sending = 4 ∷ [];
  receiving = 3 ∷ [];
  confirmed = false;
}

abbrev with_session : Session → Peer
with_session s = record (registered (first_byte (secret 2))) { current = some s }

candidate-counting : (n k : ℕ) → candidate counting n k ≡ (n + k) * 16843009
unfolding from_le_bytes
candidate-counting n zero = omega arith
candidate-counting n (suc k) = candidate-counting (n + 1) k ∙ ap (λ m. m * 16843009) (omega arith)

counting_distinct :
    (i j : ℕ) → i < 3 → j < 3 → candidate counting 7 i ≡ candidate counting 7 j → i ≡ j
counting_distinct i j small small' e =
    omega (arith, e, candidate-counting 7 i, candidate-counting 7 j)

allocate_index_finishes_example :
    (index : ℕ) × (rng : ℕ) × (allocate_index counting 3
        (with_session (record live { local_index = 117901063 }) ∷ [])
        7
      ≡ some (index, rng))
    × All
        (λ taken. taken ≢ index)
        (session_indices (with_session (record live { local_index = 117901063 }) ∷ []))
allocate_index_finishes_example =
    allocate_index_finishes counting (with_session (record live { local_index = 117901063 }) ∷ []) 7
      3 (omega arith) counting_distinct

abbrev sender : Device
sender = device (secret 1) (with_session live ∷ [])

abbrev packet : List ℕ
packet = 0x45 ∷ 0 ∷ 0 ∷ 5 ∷ 9 ∷ []

encapsulate_iff_connected_example :
    let sent = encapsulate simple.aead sender 0 packet 7 (replicate 60 1) in
    (is_connected sender 0 7 ≡ true) ↔ (sent.2 ≡ ok (send 0 (take (total_len packet) sent.1)))
encapsulate_iff_connected_example =
    encapsulate_iff_connected simple.aead sender 0 packet 7 (replicate 60 1) (omega arith)

abbrev receiver : Device
receiver = device (secret 2) (registered (first_byte (secret 1)) ∷ with_session mirrored ∷ [])

others_idle :
    (j : PeerId) (o : Peer)
    → get_elem? receiver.peers j ≡ some o
    → j ≢ 1
    → owner (expire_sessions o 8) 6 ≡ none
unfolding owner expire_sessions expire
others_idle zero o at ne =
    sym (ap (λ x. elim x [ none ↦ none | some p ↦ owner (expire_sessions p 8) 6 ]) at)
others_idle (suc zero) o at ne = absurd (ne refl)
others_idle (suc (suc j)) o at ne = cc

data_delivered_example :
    let sent = encapsulate simple.aead sender 0 packet 7 (replicate 60 1) in
    let datagram = take (total_len packet) sent.1 in
    let got = handle_data simple receiver datagram 8 (replicate 40 2) in
    (sent.2 ≡ ok (send 0 datagram))
    × (got.2 ≡ ok (receive 1 packet))
    × (is_connected got.0 1 8 ≡ true)
data_delivered_example =
    data_delivered simple simple-IsPrimitives sender receiver 0 1 (with_session live)
      (with_session mirrored) live mirrored packet 7 8 (replicate 60 1) (replicate 40 2) refl refl
      (unfold is_usable session_is_alive in refl) refl refl refl
      (unfold is_usable session_is_alive in refl) refl refl (omega arith)
      (unfold accept new_window in refl) others_idle (unfold packet_len in refl) (omega arith)
      (omega arith)

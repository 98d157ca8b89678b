-- ===== src/Wg/Session/Counter.antt =====
-- The counters of a session: no nonce is used twice, no datagram is delivered twice, and a datagram
-- that does not open leaves the session as it was.
use tailfeather.Common.{ℕ, ◌+◌, ◌-◌, ◌%◌, ◌≤◌, ◌<◌, ◌≡◌, ◌≢◌, refl, sym, ap, ◌∙◌, arith}
use tailfeather.Common.{Bool, true, if◌then◌else◌, ap₂, ok_inj}
use tailfeather.Common.{false, not, ltb, leb, ◌==◌, Bool-cases, inl, inr}
use tailfeather.Common.{List, [], ◌∷◌, ◌++◌, length, take, drop, Result, ok, err}
use tailfeather.Common.Bytes.{to_le_bytes}
use tailfeather.Wg.Budget.{pad_to, tag_len}
use tailfeather.Wg.Error.{Error, malformed, buffer_too_small, session_expired}
use tailfeather.Wg.Crypto.{
  Aead, Key, nonce_le, nonce_le-injective, aead_open, aead_seal, aead_seal_nonce,
}
use tailfeather.Wg.Messages.{header_len, header, type_data, counter_bytes, get_u64}
use tailfeather.Wg.Replay.{ReplayWindow, accept}
use tailfeather.Wg.Timers.{reject_after_messages}
use tailfeather.Wg.Session.{Session, seal, message, padded, total_len, open_message, finish_open}

-- A refused counter leaves the window as it was.
accept_refused : (w : ReplayWindow) (c : ℕ) → (accept w c).1 ≡ false → (accept w c).0 ≡ w
unfolding accept
accept_refused w c h = ground arith

each_branch :
    {B : Type 0} (P : B → Type 0) (b b' : Bool) (x y z : B)
    → P x
    → P y
    → P z
    → P (if b then x else if b' then y else z)
each_branch P true b' x y z hx hy hz = hx
each_branch P false true x y z hx hy hz = hy
each_branch P false false x y z hx hy hz = hz

module _ (c : Aead) where
  -- The session after sealing a list of packets, each with its buffer.
  unfoldable pub seal_all : Session → List (List ℕ × List ℕ) → Session
  seal_all s [] = s
  seal_all s ((packet, out) ∷ rest) = seal_all (seal c s packet out).0 rest

  seal_counter :
      (s : Session) (packet out : List ℕ) (n : ℕ)
      → (seal c s packet out).2 ≡ ok n
      → (s.send_counter < reject_after_messages)
        × ((seal c s packet out).0.send_counter ≡ s.send_counter + 1)
  unfolding seal
  seal_counter s packet out n h = ground arith

  seal-le :
      (s : Session) (packet out : List ℕ) → s.send_counter ≤ (seal c s packet out).0.send_counter
  unfolding seal
  seal-le s packet out = ground arith

  seal_all-le :
      (s : Session) (rest : List (List ℕ × List ℕ))
      → s.send_counter ≤ (seal_all s rest).send_counter
  unfolding seal_all
  seal_all-le s [] = omega arith
  seal_all-le s ((packet, out) ∷ rest) =
      omega (arith, seal-le s packet out, seal_all-le (seal c s packet out).0 rest)

  -- Where `seal` fails it leaves everything as it was.
  by_seal :
      (P : Session × List ℕ × Result Error ℕ → Type 0) (s : Session) (packet out : List ℕ)
      → ((e : Error) → P (s, out, err e))
      → P (
        record s { send_counter = s.send_counter + 1 },
        message c s packet ++ drop (total_len packet) out,
        ok (total_len packet),
      )
      → P (seal c s packet out)
  unfolding seal
  by_seal P s packet out failed sealed =
      each_branch P (ltb (length out) (total_len packet)) (leb reject_after_messages s.send_counter)
        _ _ _ (failed buffer_too_small) (failed session_expired) sealed

  -- A message on the wire, sealed by the cipher under the nonce of this counter.
  unfoldable pub sealed_under : Key → ℕ → ℕ → List ℕ → List ℕ
  sealed_under key peer_index counter packet =
      let (body, tag) = c.encrypt key (nonce_le counter) [] (padded packet) in
      header type_data ++ (to_le_bytes 4 peer_index ++ (to_le_bytes 8 counter ++ (body ++ tag)))

  seal_written :
      (s : Session) (packet out : List ℕ) (n : ℕ)
      → (seal c s packet out).2 ≡ ok n
      → (seal c s packet out).1
        ≡ sealed_under s.sending s.peer_index s.send_counter packet ++ drop n out
  unfolding message sealed_under aead_seal aead_seal_nonce
  seal_written s packet out n =
      by_seal
        (λ r.
          (r.2 ≡ ok n)
          → r.1 ≡ sealed_under s.sending s.peer_index s.send_counter packet ++ drop n out)
        s packet out (λ e h. cc)
        (λ h.
          ap (λ k. sealed_under s.sending s.peer_index s.send_counter packet ++ drop k out)
            (ok_inj h))

  -- What sealing leaves alone: the key and the index of the peer.
  seal_keys :
      (s : Session) (packet out : List ℕ)
      → let s' = (seal c s packet out).0 in
        (s'.sending ≡ s.sending) × (s'.peer_index ≡ s.peer_index)
  seal_keys s packet out =
      by_seal (λ r. (r.0.sending ≡ s.sending) × (r.0.peer_index ≡ s.peer_index)) s packet out
        (λ e. (refl, refl)) (refl, refl)

  seal_all_keys :
      (s : Session) (rest : List (List ℕ × List ℕ))
      → let s' = seal_all s rest in (s'.sending ≡ s.sending) × (s'.peer_index ≡ s.peer_index)
  unfolding seal_all
  seal_all_keys s [] = (refl, refl)
  seal_all_keys s ((packet, out) ∷ rest) =
      let s' = (seal c s packet out).0 in
      (
        (seal_all_keys s' rest).0 ∙ (seal_keys s packet out).0,
        (seal_all_keys s' rest).1 ∙ (seal_keys s packet out).1,
      )

  -- Two messages that one session seals, whatever it seals in between, are sealed under its key with
  -- the nonces of their counters, which they carry, and the two nonces are different.
  pub nonce_fresh :
      (s : Session) (p out q out' : List ℕ) (n m : ℕ) (between : List (List ℕ × List ℕ))
      → (seal c s p out).2 ≡ ok n
      → let later = seal_all (seal c s p out).0 between in
        (seal c later q out').2 ≡ ok m
        → ((seal c s p out).1 ≡ sealed_under s.sending s.peer_index s.send_counter p ++ drop n out)
          × ((seal c later q out').1
              ≡ sealed_under s.sending s.peer_index later.send_counter q ++ drop m out')
          × (nonce_le s.send_counter ≢ nonce_le later.send_counter)
  nonce_fresh s p out q out' n m between first second =
      let later = seal_all (seal c s p out).0 between in
      let (same_key, same_peer) = seal_all_keys (seal c s p out).0 between in
      (
        seal_written s p out n first,
        seal_written later q out' m second
            ∙ ap₂
                (λ key peer_index. sealed_under key peer_index later.send_counter q ++ drop m out')
                (same_key ∙ (seal_keys s p out).0) (same_peer ∙ (seal_keys s p out).1),
        λ same. omega (
          arith,
          seal_counter s p out n first,
          seal_counter later q out' m second,
          seal_all-le (seal c s p out).0 between,
          nonce_le-injective s.send_counter later.send_counter
              (omega (arith, seal_counter s p out n first))
              (omega (arith, seal_counter later q out' m second)) same,
        ),
      )

  finish_failed :
      (r : Session) (ctr len : ℕ) (buffer : List ℕ) (o : Result Error (Unit {0})) (e : Error)
      → (finish_open c r ctr len (buffer, o)).2 ≡ err e
      → (finish_open c r ctr len (buffer, o)).0 ≡ r
  unfolding finish_open
  finish_failed r ctr len buffer (err x) e h = refl
  finish_failed r ctr len buffer (ok u) e h = elim (Bool-cases (accept r.replays ctr).1) [
    | inl fresh ↦ cc (rw fresh at h)
    | inr old ↦ rw (accept_refused r.replays ctr old) refl
  ]

  -- `open` either refuses before it touches the session, or ends in `finish_open`.
  pub data Opened (r : Session) (datagram out : List ℕ) : Type 0 where
    early : (e : Error) → open_message c r datagram out ≡ (r, out, err e) → Opened r datagram out
    late :
        (len : ℕ) (buffer : List ℕ) (o : Result Error (Unit {0}))
        → open_message c r datagram out
          ≡ finish_open c r (get_u64 (counter_bytes datagram)) len (buffer, o)
        → Opened r datagram out

  pub open_cases : (r : Session) (datagram out : List ℕ) → Opened r datagram out
  unfolding open_message
  open_cases r datagram out = elim (Bool-cases (ltb (length datagram) header_len)) [
    | inl short ↦ early malformed (rw short)
    | inr a ↦ elim (Bool-cases (ltb (length (drop header_len datagram)) tag_len)) [
      | inl short ↦ early malformed (rw (a, short))
      | inr b ↦ elim (Bool-cases (not (len % pad_to == 0))) [
        | inl odd ↦ early malformed (rw (a, b, odd))
        | inr d ↦ elim (Bool-cases (ltb (length out) len)) [
          | inl small ↦ early buffer_too_small (rw (a, b, d, small))
          | inr f ↦ elim (Bool-cases (leb reject_after_messages counter)) [
            | inl spent ↦ early session_expired (rw (a, b, d, f, spent))
            | inr g ↦ late len (opened.0 ++ drop len out) opened.1 (rw (a, b, d, f, g))
          ]
        ]
      ]
    ]
  ]
    where
      len : ℕ
      len = length (drop header_len datagram) - tag_len

      counter : ℕ
      counter = get_u64 (counter_bytes datagram)

      opened : List ℕ × Result Error (Unit {0})
      opened =
          let body = drop header_len datagram in
          aead_open c r.receiving counter [] (take len body) (drop len body)

  -- A datagram that is refused, for whatever reason, leaves the session as it was: a forged one
  -- uses up no counter.
  pub open_refused_keeps :
      (r : Session) (datagram out : List ℕ) (e : Error)
      → (open_message c r datagram out).2 ≡ err e
      → (open_message c r datagram out).0 ≡ r
  open_refused_keeps r datagram out e h = elim (open_cases r datagram out) [
    | early x eq ↦ ap (λ t. t.0) eq
    | late len buffer o eq ↦
        ap (λ t. t.0) eq
        ∙ finish_failed r (get_u64 (counter_bytes datagram)) len buffer o e
            (ap (λ t. t.2) (sym eq) ∙ h)
  ]

  -- The session after opening a list of datagrams, each with its buffer.
  unfoldable pub open_all : Session → List (List ℕ × List ℕ) → Session
  open_all r [] = r
  open_all r ((datagram, out) ∷ rest) = open_all (open_message c r datagram out).0 rest

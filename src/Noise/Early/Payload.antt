-- ===== src/Noise/Early/Payload.antt =====
-- What the reader of crates/ts-noise/src/early.rs makes of the start of a stream.
use tailfeather.Common.{
  ℕ, suc, ◌+◌, ◌-◌, ◌≡◌, ◌≤◌, ◌<◌, min, refl, sym, ap, ◌∙◌, arith, true, false, ltb, ◌==◌,
}
use tailfeather.Common.{
  none, some, List, [], ◌∷◌, ◌++◌, length, take, ok, bytes_eq, length-append, take-append,
  drop-append, take_short, append-nil,
}
use tailfeather.Common.Bytes.{be32, from_be32-be32}
use tailfeather.Noise.Early.{
  magic, max_payload, EarlyReader, new_reader, probe_len, wanted, payload, push_back,
  resolve_length, push_rounds, push, finish,
}

least : (a b n : ℕ) → b ≡ n → n ≤ a → min a b ≡ n
least a b n e h = omega arith

nonzero : (n : ℕ) → 0 < n → (n == 0) ≡ false
nonzero n h = ground arith

not_ltb : (a b : ℕ) → b ≤ a → ltb a b ≡ false
not_ltb a b h = ground arith

-- A round that takes all the bytes that are wanted.
push_rounds-takes :
    (rounds : ℕ) (r r' : EarlyReader) (front rest : List ℕ) (consumed : ℕ)
    → wanted r ≡ length front
    → 0 < length front
    → resolve_length (record r { buffer = r.buffer ++ front }) ≡ (r', ok tt)
    → push_rounds (suc rounds) r (front ++ rest) consumed
      ≡ push_rounds rounds r' rest (consumed + length front)
unfolding push_rounds
push_rounds-takes rounds r r' front rest consumed h nonempty resolved =
    let all =
      least (length (front ++ rest)) (wanted r) (length front) h
        (omega (arith, length-append front rest)) in
    rw
      (
        all,
        h,
        take-append front rest,
        nonzero (length front) nonempty,
        nonzero (length (front ++ rest)) (omega (arith, length-append front rest)),
        resolved,
      )
      (rw (all, take-append front rest, drop-append front rest, resolved) refl)

push_rounds-done :
    (rounds : ℕ) (r : EarlyReader) (rest : List ℕ) (consumed : ℕ)
    → wanted r ≡ 0
    → push_rounds (suc rounds) r rest consumed ≡ some (r, ok consumed)
unfolding push_rounds
push_rounds-done rounds r rest consumed h = rw h refl

-- The first nine bytes, and what the reader is then.
abbrev pub announcement : ℕ → List ℕ
announcement n = magic ++ be32 n

abbrev announced_reader : ℕ → EarlyReader
announced_reader n = record { buffer = announcement n; payload_len = some n }

length-be32 : (n : ℕ) → length (be32 n) ≡ 4
unfolding be32
length-be32 n = refl

is_zero : (n : ℕ) → n ≡ 0 → (n == 0) ≡ true
is_zero n h = ground arith

resolve_length-announcement :
    (n : ℕ)
    → n ≤ max_payload
    → resolve_length (record { buffer = announcement n; payload_len = none })
      ≡ (announced_reader n, ok tt)
unfolding resolve_length be32 bytes_eq
resolve_length-announcement n h = rw (from_be32-be32 n (omega arith), not_ltb max_payload n h) refl

resolve_length-known :
    (r : EarlyReader) (n : ℕ) → r.payload_len ≡ some n → resolve_length r ≡ (r, ok tt)
unfolding resolve_length
resolve_length-known r n h = rw h refl

payload_taken :
    (n : ℕ) (bytes : List ℕ)
    → length bytes ≡ n
    → finish (record { buffer = announcement n ++ bytes; payload_len = some n })
      ≡ ok (payload bytes)
unfolding finish be32
payload_taken n bytes h =
    rw
      (
        is_zero (probe_len + n - length (announcement n ++ bytes)) (omega (arith, h)),
        take_short n bytes (omega (arith, h)),
      )
      refl

payload_read :
    (n consumed : ℕ) (bytes rest : List ℕ)
    → length bytes ≡ n
    → push_rounds 2 (announced_reader n) (bytes ++ rest) consumed
      ≡ some (record { buffer = announcement n ++ bytes; payload_len = some n }, ok (consumed + n))
payload_read n consumed [] rest h = rw (append-nil (be32 n)) (
    push_rounds-done 1 (announced_reader n) rest consumed (omega (arith, length-be32 n, h))
    ∙ ap (λ k. some (announced_reader n, ok k)) {x = consumed} {y = consumed + n}
        (omega (arith, h)))
payload_read n consumed (x ∷ bytes) rest h =
    push_rounds-takes 1 (announced_reader n)
      (record { buffer = announcement n ++ x ∷ bytes; payload_len = some n }) (x ∷ bytes) rest
      consumed (omega (arith, h, length-be32 n)) (omega arith) (resolve_length-known _ n refl)
    ∙ push_rounds-done 0 (record { buffer = announcement n ++ x ∷ bytes; payload_len = some n })
        rest (consumed + length (x ∷ bytes))
        (omega (arith, h, length-be32 n, length-append (be32 n) (x ∷ bytes)))
    ∙ ap
        (λ k. some (
          record { buffer = announcement n ++ x ∷ bytes; payload_len = some n },
          ok (consumed + k),
        ))
        h

-- A payload of at most 1,024 bytes behind the magic and its length is read, whatever follows it: the
-- reader takes these bytes and no more, is complete, and gives the payload.
pub early_payload_read :
    (bytes rest : List ℕ)
    → length bytes ≤ max_payload
    → (r : EarlyReader) × (push new_reader (magic ++ (be32 (length bytes) ++ (bytes ++ rest)))
        ≡ some (r, ok (9 + length bytes)))
      × (finish r ≡ ok (payload bytes))
unfolding push
early_payload_read bytes rest h =
    let n = length bytes in
    (
      record { buffer = announcement n ++ bytes; payload_len = some n },
      ap (λ l. push_rounds 3 new_reader l 0) refl
          ∙ push_rounds-takes 2 new_reader (announced_reader n) (announcement n) (bytes ++ rest) 0
              (omega (arith, length-be32 n)) (omega arith) (resolve_length-announcement n h)
          ∙ ap (push_rounds 2 (announced_reader n) (bytes ++ rest))
              {x = 0 + length (announcement n)} {y = 9} (omega (arith, length-be32 n))
          ∙ payload_read n 9 bytes rest refl,
      payload_taken n bytes refl,
    )

-- A stream that does not start with the magic is pushed back: of nine bytes that begin otherwise,
-- whatever follows them, the reader takes these nine, is complete, and gives them back.
pub other_start_pushed_back :
    (probe rest : List ℕ)
    → length probe ≡ probe_len
    → bytes_eq (take 5 probe) magic ≡ false
    → (r : EarlyReader) × (push new_reader (probe ++ rest) ≡ some (r, ok probe_len))
      × (finish r ≡ ok (push_back probe))
unfolding push finish resolve_length
other_start_pushed_back probe rest full other =
    let r : EarlyReader = record { buffer = probe; payload_len = none } in
    (
      r,
      push_rounds-takes 2 new_reader r probe rest 0 (sym full) (omega (arith, full))
            (rw (not_ltb (length probe) probe_len (omega (arith, full)), other) refl)
          ∙ push_rounds-done 1 r rest (0 + length probe) (omega (arith, full))
          ∙ ap (λ k. some (r, ok k)) {x = 0 + length probe} {y = probe_len} (omega (arith, full)),
      rw
          (
            is_zero (probe_len - length probe) (omega (arith, full)),
            take_short probe_len probe (omega (arith, full)),
          )
          refl,
    )

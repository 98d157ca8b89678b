-- ===== src/Noise/Early.antt =====
-- crates/ts-noise/src/early.rs: the payload that the server may send before HTTP/2. The buffer of the
-- reader is the bytes that it holds so far; the loop of `push` takes three rounds at most.
pub mod Payload
use tailfeather.Common.{
  ℕ, zero, suc, ◌+◌, ◌-◌, min, Bool, true, false, not, ltb, ◌==◌, ◌||◌, if◌then◌else◌,
}
use tailfeather.Common.{
  Option, none, some, List, [], ◌∷◌, ◌++◌, length, take, drop, get_or, bytes_eq, Result, ok, err,
}
use tailfeather.Common.Bytes.{from_be32}
use tailfeather.Noise.Record.{Error, record_too_long, incomplete}

-- Three bytes that no frame of HTTP/2 starts with, and `TS`.
abbrev pub magic : List ℕ
magic = 0xff ∷ 0xff ∷ 0xff ∷ b'T' ∷ b'S' ∷ []

abbrev pub probe_len : ℕ
probe_len = 9

abbrev pub max_payload : ℕ
max_payload = 1024

pub data Early : Type 0 where
  payload : List ℕ → Early
  push_back : List ℕ → Early

pub record EarlyReader : Type 0 where
  pub buffer : List ℕ
  pub payload_len : Option ℕ

abbrev pub new_reader : EarlyReader
new_reader = record { buffer = []; payload_len = none }

abbrev pub magic_matches : EarlyReader → Bool
magic_matches r = bytes_eq (take 5 r.buffer) magic

-- How many bytes are missing; the source never fails here.
abbrev pub wanted : EarlyReader → ℕ
wanted r = elim r.payload_len [
  | none ↦ probe_len - length r.buffer
  | some len ↦ probe_len + len - length r.buffer
]

-- The length behind the magic.
abbrev pub announced : EarlyReader → ℕ
announced r =
    from_be32 (get_or r.buffer 5 0) (get_or r.buffer 6 0) (get_or r.buffer 7 0)
      (get_or r.buffer 8 0)

abbrev pub is_some : Option ℕ → Bool
is_some none = false
is_some (some len) = true

unfoldable pub resolve_length : EarlyReader → EarlyReader × Result Error (Unit {0})
resolve_length r =
    if is_some r.payload_len || ltb (length r.buffer) probe_len || not (magic_matches r)
    then (r, ok tt)
    else if ltb max_payload (announced r)
    then (r, err record_too_long)
    else (record r { payload_len = some (announced r) }, ok tt)

-- The loop of `push` on what is left of the bytes; `none` if the rounds are used up.
unfoldable pub push_rounds : ℕ → EarlyReader → List ℕ → ℕ → Option (EarlyReader × Result Error ℕ)
push_rounds zero r rest consumed = none
push_rounds (suc rounds) r rest consumed =
    let count = min (length rest) (wanted r) in
    let (r', resolved) = resolve_length (record r { buffer = r.buffer ++ take count rest }) in
    let next = push_rounds rounds r' (drop count rest) (consumed + count) in
    if wanted r == 0 || length rest == 0
    then some (r, ok consumed)
    else elim resolved [ err e ↦ some (r', err e) | ok u ↦ next ]

unfoldable pub push : EarlyReader → List ℕ → Option (EarlyReader × Result Error ℕ)
push r bytes = push_rounds 3 r bytes 0

abbrev pub is_complete : EarlyReader → Bool
is_complete r = wanted r == 0

unfoldable pub finish : EarlyReader → Result Error Early
finish r = if not (is_complete r) then err incomplete else elim r.payload_len [
  | some len ↦ ok (payload (take len (drop probe_len r.buffer)))
  | none ↦ ok (push_back (take probe_len r.buffer))
]

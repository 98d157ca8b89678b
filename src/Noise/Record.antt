-- ===== src/Noise/Record.antt =====
-- crates/ts-noise/src/record.rs: the record layer of the control channel. A method takes the session
-- and the caller's buffer, and returns both as it leaves them, with its result.
pub mod RoundTrip
pub mod Stream
use tailfeather.Common.{
  ℕ, ◌+◌, ◌-◌, ◌*◌, ◌/◌, ◌%◌, ◌^◌, Bool, true, false, not, ltb, leb, ◌==◌, ◌||◌,
}
use tailfeather.Common.{if◌then◌else◌, List, [], ◌∷◌, ◌++◌, length, take, drop, get_or}
use tailfeather.Common.{Result, ok, err, ◌>>=◌}
use tailfeather.Common.Bytes.{be16, from_be16, be32}
use tailfeather.Wg.Budget.{tag_len}
use tailfeather.Wg.Error.{Error as WgError}
use tailfeather.Wg.Crypto.{Aead, Key, aead_seal_nonce, aead_open_nonce}

pub data Error : Type 0 where
  malformed : Error
  decryption : Error
  invalid_public_key : Error
  buffer_too_small : Error
  record_too_long : Error
  exhausted : Error
  upgrade_refused : Error
  incomplete : Error

abbrev pub type_record : ℕ
type_record = 4

abbrev pub header_len : ℕ
header_len = 3

abbrev pub max_message : ℕ
max_message = 4096

abbrev pub max_plaintext : ℕ
max_plaintext = max_message - header_len - tag_len

-- `u64::MAX - 1`.
abbrev pub max_counter : ℕ
max_counter = 2 ^ 64 - 2

pub record Cipher : Type 0 where
  pub key : Key
  pub counter : ℕ

-- Four zero bytes, then the counter as `u64::to_be_bytes`.
unfoldable pub nonce : Cipher → List ℕ
unfolding be32
nonce c = 0 ∷ 0 ∷ 0 ∷ 0 ∷ (be32 (c.counter / 2 ^ 32) ++ be32 (c.counter % 2 ^ 32))

-- The cipher afterwards, and the outcome.
unfoldable pub advance : Cipher → Cipher × Result Error (Unit {0})
advance c =
    if leb max_counter c.counter
    then (c, err exhausted)
    else (record c { counter = c.counter + 1 }, ok tt)

pub record Session : Type 0 where
  pub tx : Cipher
  pub rx : Cipher

unfoldable pub new_session : Key → Key → Session
new_session tx rx = record {
  tx = record { key = tx; counter = 0 };
  rx = record { key = rx; counter = 0 };
}

-- `e?`, where all that follows on success is to return `a`.
abbrev pub result_of : Result Error (Unit {0}) → ℕ → Result Error ℕ
result_of r n = r >>= λ u. ok n

unfoldable pub ciphertext_len : List ℕ → Result Error ℕ
ciphertext_len header =
    let len = from_be16 (get_or header 1 0) (get_or header 2 0) in
    if ltb (length header) header_len
    then err incomplete
    else if not (get_or header 0 0 == type_record)
    then err malformed
    else if ltb len tag_len || ltb (max_message - header_len) len
    then err record_too_long
    else ok len

module _ (c : Aead) where
  -- The record that `seal` writes.
  unfoldable pub record_bytes : Session → List ℕ → List ℕ
  unfolding be16
  record_bytes s plaintext =
      let (body, tag) = aead_seal_nonce c s.tx.key (nonce s.tx) [] plaintext in
      (type_record ∷ be16 (length plaintext + tag_len)) ++ (body ++ tag)

  -- The record is written before the counter is moved on, so it stands in the buffer on `Exhausted`.
  unfoldable pub seal : Session → List ℕ → List ℕ → Session × List ℕ × Result Error ℕ
  unfolding advance
  seal s plaintext out =
      let total = header_len + length plaintext + tag_len in
      let (tx', advanced) = advance s.tx in
      if ltb max_plaintext (length plaintext)
      then (s, out, err record_too_long)
      else if ltb (length out) total
      then (s, out, err buffer_too_small)
      else (
        record s { tx = tx' },
        record_bytes s plaintext ++ drop total out,
        result_of advanced total,
      )

  -- What `open` does once the tag has been checked.
  unfoldable pub finish_open :
      Session → ℕ → List ℕ → Result WgError (Unit {0}) → Session × List ℕ × Result Error ℕ
  unfolding advance
  finish_open s len out (err e) = (s, out, err decryption)
  finish_open s len out (ok u) =
      let (rx', advanced) = advance s.rx in (record s { rx = rx' }, out, result_of advanced len)

  unfoldable pub open_record : Session → List ℕ → List ℕ → Session × List ℕ × Result Error ℕ
  unfolding finish_open
  open_record s ciphertext out =
      let len = length ciphertext - tag_len in
      let opened =
        aead_open_nonce c s.rx.key (nonce s.rx) [] (take len ciphertext) (drop len ciphertext) in
      if ltb (length ciphertext) tag_len
      then (s, out, err malformed)
      else if ltb (length out) len
      then (s, out, err buffer_too_small)
      else finish_open s len (opened.0 ++ drop len out) opened.1

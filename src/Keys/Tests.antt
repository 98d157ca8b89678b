-- ===== src/Keys/Tests.antt =====
-- The keys' theorems at concrete inputs.
use tailfeather.Common.{
  ℕ, ◌+◌, ◌≡◌, refl, arith, true, false, List, [], ◌∷◌, length-replicate, take, replicate, Option,
  none, some, ok,
}
use tailfeather.Keys.Encoding.{key_text, encode_prefixed, decode_prefixed}
use tailfeather.Keys.Encoding.RoundTrip.{decode_prefixed-encode_prefixed}
use tailfeather.Keys.Blob.{Store, blob_len, load_or_create, generate}
use tailfeather.Keys.Blob.Restart.{IsSound, load_or_create_again}

key_run : key_text (b'm' ∷ []) (0xa5 ∷ 0x0f ∷ []) ≡ b'm' ∷ b':' ∷ b'a' ∷ b'5' ∷ b'0' ∷ b'f' ∷ []
unfolding key_text
key_run = refl

decode_prefixed-encode_prefixed_example :
    let (out', written) = encode_prefixed (b'm' ∷ []) (replicate 32 0xa5) (replicate 70 0) in
    (written ≡ ok 66) × (decode_prefixed (b'm' ∷ []) (take 66 out') ≡ ok (replicate 32 0xa5))
decode_prefixed-encode_prefixed_example =
    decode_prefixed-encode_prefixed (b'm' ∷ []) (replicate 32 0xa5) (replicate 70 0) refl
      (omega arith) (omega arith)

-- A store of one blob, and a generator that counts.
abbrev memory : Store (Option (List ℕ)) (Unit {0})
memory = record {
  load = λ s buffer. elim s [ none ↦ (buffer, ok none) | some blob ↦ (blob, ok (some blob_len)) ];
  save = λ s blob. (some blob, ok tt);
}

abbrev fill : ℕ → ℕ → ℕ × List ℕ
fill g n = (g + 1, replicate n g)

abbrev same : List ℕ → List ℕ
same bytes = bytes

memory_sound : IsSound same fill memory
memory_sound = record {
  filled = λ g n. length-replicate n g;
  stored_len = λ bytes h. h;
  stored_twice = λ bytes. refl;
  load-save = λ s blob h e. refl;
}

load_or_create_again_example :
    let ((s', rng'), first) = load_or_create same fill memory none 5 in
    (first ≡ ok ((generate same fill 5).1, true))
    × (load_or_create same fill memory s' 9 ≡ ((s', 9), ok ((generate same fill 5).1, false)))
load_or_create_again_example = load_or_create_again same fill memory memory_sound none 5 9 refl refl

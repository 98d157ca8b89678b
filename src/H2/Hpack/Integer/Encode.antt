-- ===== src/H2/Hpack/Integer/Encode.antt =====
-- `encode_integer` puts the bytes of RFC 7541 section 5.1 into the buffer, and `decode_integer`
-- reads the number back from there.
use Prim.Native.Nat.{bit_and, bit_or}
use tailfeather.Common.{
  ℕ, zero, suc, ◌+◌, ◌-◌, ◌*◌, ◌/◌, ◌%◌, ◌^◌, ◌≤◌, ◌<◌, ◌≡◌, refl, sym, ap, ◌∙◌, arith,
}
use tailfeather.Common.{==_iff, ltb, leb, ◌==◌, if◌then◌else◌, Bool-cases, inl, inr, true, false}
use tailfeather.Common.{
  List, [], ◌∷◌, ◌++◌, length, set, Result, ok, err, ◌>>=◌, lt→ltb, length-append, append_assoc,
  subst, ap₂,
}
use tailfeather.Common.Bits.{bit_and_mask, bit_or_disjoint, all_below, all_below_sound}
use native.Mathlib.Nat.{pow-suc, mod-eq_of_lt, one-le-pow, mul-add-mod_self_right}
use tailfeather.H2.Error.{Error}
use tailfeather.H2.Hpack.Integer.{decode_integer, put_byte, encode_more, encode_integer}
use tailfeather.H2.Hpack.Integer.RoundTrip.{groups, low_seven, decode_more-groups}

-- The bytes of an integer behind a prefix of `p` bits with the flags `f` above it.
unfoldable pub integer_bytes : ℕ → ℕ → ℕ → List ℕ
integer_bytes value p f =
    if ltb value (2 ^ p - 1)
    then (f * 2 ^ p + value) ∷ []
    else (f * 2 ^ p + (2 ^ p - 1)) ∷ groups 9 (value - (2 ^ p - 1))

-- Bytes put one after another.
unfoldable pub put_bytes : List ℕ → List ℕ → ℕ → Result Error (List ℕ × ℕ)
put_bytes [] out len = ok (out, len)
put_bytes (b ∷ bs) out len = put_byte out len b >>= λ (out', len'). put_bytes bs out' len'

put_bytes-one : (b : ℕ) (out : List ℕ) (len : ℕ) → put_bytes (b ∷ []) out len ≡ put_byte out len b
unfolding put_bytes put_byte
put_bytes-one b out len = ground arith

top_table : all_below 128 (λ x. bit_or x 0x80 == x + 128) ≡ true
unfolding all_below
top_table = refl

top_set : (n : ℕ) → bit_or (bit_and (n % 256) 0x7f) 0x80 ≡ n % 128 + 128
top_set n =
    rw (low_seven (n % 256), same)
      ((==_iff _ _).0 (all_below_sound 128 _ (n % 128) top_table (omega arith)))
  where
    same : n % 256 % 128 ≡ n % 128
    same = omega arith

bind_cong :
    (m : Result Error (List ℕ × ℕ)) (f g : List ℕ × ℕ → Result Error (List ℕ × ℕ))
    → ((out : List ℕ) (len : ℕ) → f (out, len) ≡ g (out, len))
    → (m >>= f) ≡ (m >>= g)
bind_cong (ok (out, len)) f g h = h out len
bind_cong (err e) f g h = refl

encode_more-groups :
    (k n : ℕ) (out : List ℕ) (len : ℕ)
    → n < 128 ^ suc k
    → encode_more k n out len ≡ put_bytes (groups k n) out len
unfolding encode_more groups put_bytes
encode_more-groups zero n out len h =
    rw (mod-eq_of_lt {n = n} {m = 256} (omega arith)) (sym (put_bytes-one n out len))
encode_more-groups (suc k) n out len h = elim (Bool-cases (leb 128 n)) [
  | inr small ↦
      rw (small, mod-eq_of_lt {n = n} {m = 256} (ground arith)) (sym (put_bytes-one n out len))
  | inl big ↦
      rw (big, top_set n)
        (bind_cong (put_byte out len (n % 128 + 128)) _ _ λ out' len'.
          encode_more-groups k (n / 128) out' len' (omega (arith, pow-suc 128 (suc k))))
]

field : (f p v : ℕ) → v < 2 ^ p → (f * 2 ^ p + v) % 2 ^ p ≡ v
field f p v h = mul-add-mod_self_right f (2 ^ p) v ∙ mod-eq_of_lt h

not_below : (n : ℕ) → ltb n n ≡ false
not_below n = ground arith

-- `encode_integer` is exactly these bytes.
pub encode_integer-bytes :
    (value p f : ℕ) (out : List ℕ) (len : ℕ)
    → value < 2 ^ 64
    → f * 2 ^ p + 2 ^ p ≤ 256
    → encode_integer value p (f * 2 ^ p) out len ≡ put_bytes (integer_bytes value p f) out len
unfolding encode_integer integer_bytes put_bytes
encode_integer-bytes value p f out len hv hp = elim (Bool-cases (ltb value (2 ^ p - 1))) [
  | inl inline ↦
      rw
        (
          inline,
          mod-eq_of_lt {n = value} {m = 256} (ground arith),
          bit_or_disjoint p f value (ground arith),
        )
        (sym (put_bytes-one _ out len))
  | inr long ↦
      rw
        (
          long,
          mod-eq_of_lt {n = 2 ^ p - 1} {m = 256} (omega arith),
          bit_or_disjoint p f (2 ^ p - 1) (omega (arith, one-le-pow p 2)),
        )
        (bind_cong (put_byte out len (f * 2 ^ p + (2 ^ p - 1))) _ _
          λ out' len'. encode_more-groups 9 (value - (2 ^ p - 1)) out' len' (omega arith))
]

pub decode_integer-bytes :
    (value p f : ℕ) (rest : List ℕ)
    → value < 2 ^ 64
    → f * 2 ^ p + 2 ^ p ≤ 256
    → decode_integer (integer_bytes value p f ++ rest) p ≡ ok (value, rest)
unfolding decode_integer integer_bytes
decode_integer-bytes value p f rest hv hp = elim (Bool-cases (ltb value (2 ^ p - 1))) [
  | inl inline ↦ rw (inline, bit_and_mask p, field f p value (ground arith), inline) refl
  | inr long ↦
      rw
        (
          long,
          bit_and_mask p,
          field f p (2 ^ p - 1) (omega (arith, one-le-pow p 2)),
          not_below (2 ^ p - 1),
        )
        (decode_more-groups 9 (value - (2 ^ p - 1)) (2 ^ p - 1) 0 rest (omega arith) (omega arith)
            (omega arith)
          ∙ ap (λ v. ok (v, rest)) (ground arith))
]

pub set_middle :
    (pre : List ℕ) (m b : ℕ) (rest : List ℕ)
    → set (pre ++ (m ∷ rest)) (length pre) b ≡ pre ++ (b ∷ rest)
set_middle [] m b rest = refl
set_middle (x ∷ pre) m b rest = ap (λ l. x ∷ l) (set_middle pre m b rest)

put_byte-middle :
    (pre : List ℕ) (m b : ℕ) (rest : List ℕ)
    → put_byte (pre ++ (m ∷ rest)) (length pre) b ≡ ok (pre ++ (b ∷ rest), length pre + 1)
unfolding put_byte
put_byte-middle pre m b rest =
    rw
      (
        set_middle pre m b rest,
        lt→ltb (length pre) (length (pre ++ (m ∷ rest)))
            (omega (arith, length-append pre (m ∷ rest))),
      )
      refl

-- Bytes that fit take the place of what stood there, and nothing before or behind them changes.
pub put_bytes-middle :
    (bs pre mid post : List ℕ)
    → length mid ≡ length bs
    → put_bytes bs (pre ++ (mid ++ post)) (length pre)
      ≡ ok (pre ++ (bs ++ post), length pre + length bs)
unfolding put_bytes
put_bytes-middle [] pre [] post h = ap (λ n. ok (pre ++ post, n)) (omega arith)
put_bytes-middle [] pre (m ∷ mid) post h = absurd (omega arith)
put_bytes-middle (b ∷ bs) pre [] post h = absurd (omega arith)
put_bytes-middle (b ∷ bs) pre (m ∷ mid) post h = rw (put_byte-middle pre m b (mid ++ post)) (
    subst
      (λ (l : List ℕ).
        put_bytes bs l (length pre + 1)
        ≡ ok (pre ++ (b ∷ (bs ++ post)), length pre + length (b ∷ bs)))
      (append_assoc pre (b ∷ []) (mid ++ post))
      (subst
        (λ n.
          put_bytes bs ((pre ++ (b ∷ [])) ++ (mid ++ post)) n
          ≡ ok (pre ++ (b ∷ (bs ++ post)), length pre + length (b ∷ bs)))
        (length-append pre (b ∷ []))
        (put_bytes-middle bs (pre ++ (b ∷ [])) mid post (omega arith)
          ∙ ap₂ (λ l n. ok (l, n)) (append_assoc pre (b ∷ []) (bs ++ post))
              (omega (arith, length-append pre (b ∷ []))))))

-- A `u64` that is encoded behind `p` bits of prefix, with the flags `f` above them, where there is
-- room for its bytes, leaves the rest of the buffer as it was, and is decoded again, with exactly
-- the bytes that follow it left over.
pub decode-encode_integer :
    (value p f : ℕ) (pre mid post : List ℕ)
    → value < 2 ^ 64
    → f * 2 ^ p + 2 ^ p ≤ 256
    → length mid ≡ length (integer_bytes value p f)
    → let bytes = integer_bytes value p f in
      (encode_integer value p (f * 2 ^ p) (pre ++ (mid ++ post)) (length pre)
        ≡ ok (pre ++ (bytes ++ post), length pre + length bytes))
      × (decode_integer (bytes ++ post) p ≡ ok (value, post))
decode-encode_integer value p f pre mid post hv hp room = (
  encode_integer-bytes value p f _ _ hv hp
      ∙ put_bytes-middle (integer_bytes value p f) pre mid post room,
  decode_integer-bytes value p f post hv hp,
)

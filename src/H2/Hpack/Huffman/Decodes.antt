-- ===== src/H2/Hpack/Huffman/Decodes.antt =====
-- `decode` gives back the symbols whose codes the input holds.
use native.Mathlib.Nat.{mod-eq_of_lt}
use tailfeather.Common.{
  ℕ, zero, suc, ◌+◌, ◌-◌, ◌*◌, ◌%◌, ◌^◌, ◌<◌, ◌≤◌, ◌≡◌, refl, sym, ap, ap₂, ◌∙◌, arith,
}
use tailfeather.Common.{◌==◌, inl, inr, true, false}
use tailfeather.Common.{
  List, [], ◌∷◌, ◌++◌, length, length-set, length-append, length-take, take-append-drop, take, drop,
  set, replicate, none, some, Option-cases,
}
use tailfeather.Common.{ok, ◌>>=◌, Result-cases, ==→eq, append_assoc}
use tailfeather.Common.Bits.{all_below_sound}
use tailfeather.H2.Hpack.Integer.{put_byte}
use tailfeather.H2.Hpack.Integer.Encode.{set_middle}
use tailfeather.H2.Hpack.Huffman.{
  lengths, Tables, tables, State, start, take_bit, take_bits, write_symbol, build_lengths,
  sort_length, end_length, count_lengths, bits_of, take_bytes, finish, decode_with, huffman_decode,
}
use tailfeather.H2.Hpack.Huffman.Canonical.{walk, code_bits, reads, every_symbol_reads}

abbrev at : List ℕ → ℕ → ℕ → ℕ → State
at out w code len = record { out = out; written = w; code = code; length = len }

short-nil : (bs : List ℕ) → length bs ≡ 0 → bs ≡ []
short-nil [] h = refl
short-nil (b ∷ bs) h = absurd (omega (arith, h))

write_lem :
    (t : Tables) (s : ℕ) (st : State)
    → s < 256
    → st.written < length st.out
    → write_symbol t s st ≡ ok (at (set st.out st.written s) (st.written + 1) 0 0)
unfolding write_symbol put_byte
write_lem t s st hs room = ground (arith, mod-eq_of_lt {n = s} {m = 256} hs)

walk-take_bits :
    (t : Tables) (bs rest out : List ℕ) (w code len s : ℕ)
    → walk t bs code len ≡ some s
    → s < 256
    → w < length out
    → take_bits t (bs ++ rest) (at out w code len) ≡ take_bits t rest (at (set out w s) (w + 1) 0 0)
unfolding walk take_bits take_bit
walk-take_bits t [] rest out w code len s h hs room = cc
walk-take_bits t (b ∷ bs) rest out w code len s h hs room = ground (
  arith,
  walk-take_bits t bs rest out w (code * 2 % 2 ^ 32 + b) (len + 1) s,
  write_lem t s (at out w (code * 2 % 2 ^ 32 + b) (len + 1)) hs room,
  short-nil bs,
)

take_bits-append :
    (t : Tables) (xs ys : List ℕ) (st : State)
    → take_bits t (xs ++ ys) st ≡ (take_bits t xs st >>= λ st'. take_bits t ys st')
unfolding take_bits
take_bits-append t [] ys st = refl
take_bits-append t (x ∷ xs) ys st = elim (Result-cases (take_bit t x st)) [
  | inr (e, h) ↦ rw h refl
  | inl (st', h) ↦ rw h (take_bits-append t xs ys st')
]

-- The bits of some bytes, in the order they are read.
abbrev pub all_bits : List ℕ → List ℕ
all_bits [] = []
all_bits (b ∷ bs) = bits_of b ++ all_bits bs

take_bytes-all_bits :
    (t : Tables) (bytes : List ℕ) (st : State)
    → take_bytes t bytes st ≡ take_bits t (all_bits bytes) st
unfolding take_bytes take_bits
take_bytes-all_bits t [] st = refl
take_bytes-all_bits t (b ∷ bs) st =
    ap (λ f. take_bits t (bits_of b) st >>= f) (λ i st'. take_bytes-all_bits t bs st' i)
    ∙ sym (take_bits-append t (bits_of b) (all_bits bs) st)

-- The codes of some symbols, one after the other.
abbrev pub encoded : List ℕ → List ℕ
encoded [] = []
encoded (s ∷ ss) = code_bits s ++ encoded ss

pub data AllSymbols : List ℕ → Type 0 where
  no_symbols : AllSymbols []
  one_symbol : {s : ℕ} {ss : List ℕ} → s < 256 → AllSymbols ss → AllSymbols (s ∷ ss)

-- `out` with some bytes put in from `w` on.
abbrev pub put_from : List ℕ → ℕ → List ℕ → List ℕ
put_from out w [] = out
put_from out w (s ∷ ss) = put_from (set out w s) (w + 1) ss

reads-walk : (t : Tables) (s : ℕ) → reads t s ≡ true → walk t (code_bits s) 0 0 ≡ some s
unfolding reads
reads-walk t s h = elim (Option-cases (walk t (code_bits s) 0 0)) [
  | inl nothing ↦ absurd (grind (arith, h, nothing))
  | inr (x, e) ↦
      e
      ∙ ap (λ y. some y)
          (==→eq x s (ap (λ o. elim o [ none ↦ false | some x ↦ x == s ]) (sym e) ∙ h))
]

symbol_walks : (s : ℕ) → s < 256 → walk tables (code_bits s) 0 0 ≡ some s
symbol_walks s h = reads-walk tables s (all_below_sound 256 (reads tables) s every_symbol_reads h)

take_bits-encoded :
    (ss rest out : List ℕ) (w : ℕ)
    → AllSymbols ss
    → w + length ss ≤ length out
    → take_bits tables (encoded ss ++ rest) (at out w 0 0)
      ≡ take_bits tables rest (at (put_from out w ss) (w + length ss) 0 0)
take_bits-encoded [] rest out w all room =
    ap (λ n. take_bits tables rest (at out n 0 0)) (omega arith)
take_bits-encoded (s ∷ ss) rest out w (one_symbol hs all) room =
    ap (λ l. take_bits tables l (at out w 0 0)) (append_assoc (code_bits s) (encoded ss) rest)
    ∙ walk-take_bits tables (code_bits s) (encoded ss ++ rest) out w 0 0 s (symbol_walks s hs) hs
        (omega arith)
    ∙ take_bits-encoded ss rest (set out w s) (w + 1) all (omega (arith, length-set out w s))
    ∙ ap (λ n. take_bits tables rest (at (put_from (set out w s) (w + 1) ss) n 0 0)) (omega arith)

padding :
    (k : ℕ) (out : List ℕ) (w : ℕ)
    → k < 8
    → take_bits tables (replicate k 1) (at out w 0 0) ≡ ok (at out w (2 ^ k - 1) k)
unfolding take_bits take_bit tables build_lengths sort_length end_length count_lengths lengths
padding zero out w h = refl
padding (suc zero) out w h = refl
padding (suc (suc zero)) out w h = refl
padding (suc (suc (suc zero))) out w h = refl
padding (suc (suc (suc (suc zero)))) out w h = refl
padding (suc (suc (suc (suc (suc zero))))) out w h = refl
padding (suc (suc (suc (suc (suc (suc zero)))))) out w h = refl
padding (suc (suc (suc (suc (suc (suc (suc zero))))))) out w h = refl
padding (suc (suc (suc (suc (suc (suc (suc (suc k)))))))) out w h = absurd (omega arith)

finish_padding :
    (k : ℕ) (out : List ℕ) (w : ℕ) → k < 8 → finish tables (at out w (2 ^ k - 1) k) ≡ ok (out, w)
unfolding finish
finish_padding k out w h = ground arith

decode_with_lem :
    (t : Tables) (input out : List ℕ)
    → decode_with t input out ≡ (take_bytes t input (start out) >>= λ s. finish t s)
unfolding decode_with
decode_with_lem t input out = refl

put_from-middle :
    (ss pre mid post : List ℕ)
    → length mid ≡ length ss
    → put_from (pre ++ (mid ++ post)) (length pre) ss ≡ pre ++ (ss ++ post)
put_from-middle [] pre [] post h = refl
put_from-middle [] pre (m ∷ mid) post h = absurd (omega arith)
put_from-middle (s ∷ ss) pre [] post h = absurd (omega arith)
put_from-middle (s ∷ ss) pre (m ∷ mid) post h =
    ap₂ (λ l n. put_from l n ss)
      (set_middle pre m s (mid ++ post) ∙ sym (append_assoc pre (s ∷ []) (mid ++ post)))
      (omega (arith, length-append pre (s ∷ [])))
    ∙ put_from-middle ss (pre ++ (s ∷ [])) mid post (omega arith)
    ∙ append_assoc pre (s ∷ []) (ss ++ post)

put_from-front :
    (ss out : List ℕ) → length ss ≤ length out → put_from out 0 ss ≡ ss ++ drop (length ss) out
put_from-front ss out h =
    ap (λ l. put_from l 0 ss) (sym (take-append-drop (length ss) out))
    ∙ put_from-middle ss [] (take (length ss) out) (drop (length ss) out)
        (omega (arith, length-take (length ss) out))

-- Whatever bytes hold the codes of some symbols, none of them EOS, and less than eight ones after
-- them, decode to these symbols, written at the front of the output, if they fit into it; the rest
-- of the output stays as it was.
pub huffman_decode-encoded :
    (input symbols out : List ℕ) (k : ℕ)
    → AllSymbols symbols
    → k < 8
    → length symbols ≤ length out
    → all_bits input ≡ encoded symbols ++ replicate k 1
    → huffman_decode input out ≡ ok (symbols ++ drop (length symbols) out, length symbols)
unfolding huffman_decode
huffman_decode-encoded input symbols out k all small room bits =
    decode_with_lem tables input out
    ∙ ap (λ r. r >>= λ s. finish tables s)
        (take_bytes-all_bits tables input (start out)
          ∙ ap (λ l. take_bits tables l (start out)) bits
          ∙ take_bits-encoded symbols (replicate k 1) out 0 all (omega arith)
          ∙ ap (λ n. take_bits tables (replicate k 1) (at (put_from out 0 symbols) n 0 0))
              (omega arith)
          ∙ padding k (put_from out 0 symbols) (length symbols) small)
    ∙ finish_padding k (put_from out 0 symbols) (length symbols) small
    ∙ ap (λ l. ok (l, length symbols)) (put_from-front symbols out room)

-- ===== src/H2/Hpack/Decoder/Total.antt =====
-- The decoder comes to an end on every input, and keeps the table's invariant.
use Prim.Native.Nat.{bit_and}
use tailfeather.Common.{ℕ, zero, suc, ◌≤◌, ◌<◌, ◌≡◌, refl, ap, arith, subst}
use tailfeather.Common.{Bool, true, false, not, ltb, ◌==◌, if◌then◌else◌, Bool-cases, inl, inr}
use tailfeather.Common.{List, [], ◌∷◌, ◌++◌, length, take, drop, length-drop, Option, some}
use tailfeather.Common.{Result, ok, err, ◌>>=◌, bind-ok, unless-ok, when-ok, ok_inj, Result-cases}
use tailfeather.H2.Error.{Error, incomplete, hpack}
use tailfeather.H2.Hpack.Integer.{decode_integer}
use tailfeather.H2.Hpack.Integer.Wide.{decode_integer_bounds}
use tailfeather.H2.Hpack.Dynamic.{Entry, DynamicTable, set_capacity, insert, lookup}
use tailfeather.H2.Hpack.Dynamic.Rfc.{IsValid, insert-IsValid, set_capacity-IsValid}
use tailfeather.Common.Text.{is_utf8}
use tailfeather.H2.Hpack.Decoder.{
  Header, Round, to_usize, string_bytes, push_text, decode_string, indexed_field, size_update,
  literal_name, literal_field, decode_field, prepend, decode_rounds, decode_block,
}

shorter :
    (input : List ℕ) (p v : ℕ) (rest : List ℕ)
    → p ≤ 8
    → decode_integer input p ≡ ok (v, rest)
    → length rest < length input
shorter input p v rest hp h = (decode_integer_bounds input p v rest hp h).1

finish_text : List ℕ → List ℕ → Result Error (List ℕ × List ℕ)
finish_text rest decoded =
    if is_utf8 decoded then (push_text decoded >>= λ text. ok (text, rest)) else err hpack

finish_text-rest :
    (r : Result Error (List ℕ)) (after text rest : List ℕ)
    → (r >>= finish_text after) ≡ ok (text, rest)
    → after ≡ rest
unfolding finish_text
finish_text-rest r after text rest h =
    let (decoded, e, h₁) = bind-ok r (finish_text after) (text, rest) h in
    let h₂ =
      when-ok (is_utf8 decoded) hpack (push_text decoded >>= λ text. ok (text, after)) (text, rest)
        h₁ in
    let (text', e₂, h₃) = bind-ok (push_text decoded) (λ text. ok (text, after)) (text, rest) h₂ in
    ap (λ p. p.1) (ok_inj h₃)

-- A string takes a byte at least.
string_shorter :
    (input text rest : List ℕ) → decode_string input ≡ ok (text, rest) → length rest < length input
unfolding decode_string finish_text
string_shorter [] text rest h = cc
string_shorter (first ∷ bytes) text rest h =
    let ((len, tail), e, h₁) = bind-ok (decode_integer (first ∷ bytes) 7) _ _ h in
    let n = to_usize len in
    let coded = not (bit_and first 0x80 == 0) in
    let r = string_bytes coded (take n tail) in
    let h₂ =
      unless-ok (ltb (length tail) n) incomplete (r >>= finish_text (drop n tail)) (text, rest)
        h₁ in
    let same = finish_text-rest r (drop n tail) text rest h₂ in
    omega (
      arith,
      shorter (first ∷ bytes) 7 len tail (omega arith) e,
      length-drop n tail,
      ap length same,
    )

-- What a round must do: keep the invariant and take a byte.
abbrev Progress : DynamicTable → List ℕ → Round → Type 0
Progress t input (hs, t', rest) = (IsValid t → IsValid t') × (length rest < length input)

indexed_field-Progress :
    (t : DynamicTable) (input : List ℕ) (r : Round)
    → indexed_field t input ≡ ok r
    → Progress t input r
unfolding indexed_field
indexed_field-Progress t input r h =
    let ((index, rest), e, h₁) = bind-ok (decode_integer input 7) _ _ h in
    let (entry, e₂, h₂) = bind-ok (lookup t _) _ _ h₁ in
    let done : ((entry.name, entry.value) ∷ [], t, rest) ≡ r = ok_inj h₂ in
    subst (λ r. Progress t input r) done (λ v. v, shorter input 7 index rest (omega arith) e)

size_update-Progress :
    (t : DynamicTable) (input : List ℕ) (r : Round)
    → size_update t input ≡ ok r
    → Progress t input r
unfolding size_update
size_update-Progress t input r h =
    let ((size, rest), e, h₁) = bind-ok (decode_integer input 5) _ _ h in
    let done : ([], set_capacity t (to_usize size), rest) ≡ r = ok_inj h₁ in
    subst (λ r. Progress t input r) done
      (set_capacity-IsValid t (to_usize size), shorter input 5 size rest (omega arith) e)

name_shorter :
    (t : DynamicTable) (index : ℕ) (input name rest : List ℕ)
    → literal_name t index input ≡ ok (name, rest)
    → length rest ≤ length input
unfolding literal_name
name_shorter t index input name rest h = elim (Bool-cases (index == 0)) [
  | inl new ↦ omega (arith, string_shorter input name rest (ground (arith, h, new)))
  | inr old ↦
      let (e, e₁, h₁) =
        bind-ok {B = List ℕ × List ℕ} (lookup t (to_usize index))
          (λ e. push_text e.name >>= λ name. ok (name, input)) (name, rest)
          (ground (arith, h, old)) in
      let (text, e₂, h₂) =
        bind-ok {B = List ℕ × List ℕ} (push_text e.name) (λ name. ok (name, input)) (name, rest)
          h₁ in
      let same : input ≡ rest = ap (λ p. p.1) (ok_inj h₂) in omega (arith, ap length same)
]

insert_if-IsValid :
    (indexing : Bool) (t : DynamicTable) (e : Entry)
    → IsValid t
    → IsValid (if indexing then insert t e else t)
insert_if-IsValid true t e v = insert-IsValid t e v
insert_if-IsValid false t e v = v

literal_field-Progress :
    (t : DynamicTable) (prefix : ℕ) (indexing : Bool) (input : List ℕ) (r : Round)
    → prefix ≤ 8
    → literal_field t prefix indexing input ≡ ok r
    → Progress t input r
unfolding literal_field
literal_field-Progress t prefix indexing input r hp h =
    let ((index, rest), e, h₁) = bind-ok (decode_integer input prefix) _ _ h in
    let ((name, rest'), e₂, h₂) = bind-ok (literal_name t index rest) _ _ h₁ in
    let ((value, rest''), e₃, h₃) = bind-ok (decode_string rest') _ _ h₂ in
    let entry : Entry = record { name = name; value = value } in
    let done : ((name, value) ∷ [], (if indexing then insert t entry else t), rest'') ≡ r =
      ok_inj h₃ in
    subst (λ r. Progress t input r) done
      (
        insert_if-IsValid indexing t entry,
        omega (
          arith,
          shorter input prefix index rest hp e,
          name_shorter t index rest name rest' e₂,
          string_shorter rest' value rest'' e₃,
        ),
      )

field-Progress :
    (t : DynamicTable) (first : ℕ) (input : List ℕ) (r : Round)
    → decode_field t first input ≡ ok r
    → Progress t input r
unfolding decode_field
field-Progress t first input r h = elim (Bool-cases (not (bit_and first 0x80 == 0))) [
  | inl indexed ↦ indexed_field-Progress t input r (ground (arith, h, indexed))
  | inr literal ↦ elim (Bool-cases (bit_and first 0xe0 == 0x20)) [
    | inl update ↦ size_update-Progress t input r (ground (arith, h, literal, update))
    | inr field ↦ elim (Bool-cases (bit_and first 0xc0 == 0x40)) [
      | inl kept ↦
          literal_field-Progress t 6 true input r (omega arith)
            (ground (arith, h, literal, field, kept))
      | inr bare ↦
          literal_field-Progress t 4 false input r (omega arith)
            (ground (arith, h, literal, field, bare))
    ]
  ]
]

-- What the loop's result must be: there is one, and its table is valid.
abbrev Ended : Option (DynamicTable × List Header × Result Error (Unit {0})) → Type 0
Ended o =
    (result : DynamicTable × List Header × Result Error (Unit {0})) × (o ≡ some result)
    × IsValid result.0

prepend-Ended :
    (hs : List Header) (o : Option (DynamicTable × List Header × Result Error (Unit {0})))
    → Ended o
    → Ended (prepend hs o)
prepend-Ended hs o ((t, more, r), e, v) = ((t, hs ++ more, r), ap (prepend hs) e, v)

rounds-Ended :
    (rounds : ℕ) (t : DynamicTable) (input : List ℕ)
    → length input ≤ rounds
    → IsValid t
    → Ended (decode_rounds rounds t input)
unfolding decode_rounds
rounds-Ended rounds t [] enough v = ((t, [], ok tt), refl, v)
rounds-Ended zero t (first ∷ bytes) enough v = absurd (omega arith)
rounds-Ended (suc rounds) t (first ∷ bytes) enough v =
    elim (Result-cases (decode_field t first (first ∷ bytes))) [
      | inr (e, h) ↦ rw (decode_rounds, h) ((t, [], err e), refl, v)
      | inl ((hs, t', rest), h) ↦
          let (keeps, less) = field-Progress t first (first ∷ bytes) (hs, t', rest) h in
          rw (decode_rounds, h)
            (prepend-Ended hs (decode_rounds rounds t' rest)
              (rounds-Ended rounds t' rest (omega arith) (keeps v)))
    ]

-- On every input the decoder's loop comes to its end, with or without an error, within as many
-- rounds as there are bytes; the table that it leaves is valid if the one it found was.
pub decode_block_ends :
    (t : DynamicTable) (input : List ℕ)
    → IsValid t
    → (result : DynamicTable × List Header × Result Error (Unit {0})) × (decode_block t input
        ≡ some result)
      × IsValid result.0
unfolding decode_block
decode_block_ends t input v = rounds-Ended (length input) t input (omega arith) v

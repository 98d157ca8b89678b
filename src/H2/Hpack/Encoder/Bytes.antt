-- ===== src/H2/Hpack/Encoder/Bytes.antt =====
-- The bytes of a header, and that the encoder writes them in place.
use tailfeather.Common.{ℕ, suc, ◌+◌, ◌-◌, ◌*◌, ◌^◌, ◌≤◌, ◌<◌, ◌≡◌, refl, sym, ap, ap₂, ◌∙◌, arith}
use tailfeather.Common.{Bool, true, false, ltb, ◌==◌, ◌&&◌, if◌then◌else◌, Bool-cases, inl, inr}
use tailfeather.Common.{
  List, [], ◌∷◌, ◌++◌, length, take, drop, length-append, append_assoc, none, some, Option-cases,
  get_elem?,
}
use tailfeather.Common.{Result, ok, err, ◌>>=◌, take-append-drop, length-take, length-drop}
use tailfeather.Common.{bytes_eq, bytes_eq_sound}
use tailfeather.Common.Bytes.{write_at}
use tailfeather.H2.Error.{Error, buffer_too_small}
use tailfeather.H2.Hpack.Integer.{encode_integer}
use tailfeather.H2.Hpack.Integer.Encode.{integer_bytes, decode-encode_integer}
use tailfeather.H2.Hpack.StaticTable.{entries, static_get, position_from, find, find_name}
use tailfeather.H2.Hpack.Encoder.{encode_string, encode_name, encode_header}

-- Section 5.2 of RFC 7541: the length, then the text.
unfoldable pub text_bytes : List ℕ → List ℕ
text_bytes text = integer_bytes (length text) 7 0 ++ text

-- The name as an index of the static table, or in full.
unfoldable pub name_bytes : List ℕ → List ℕ
name_bytes name = elim (find_name name) [
  | some index ↦ integer_bytes index 4 0
  | none ↦ integer_bytes 0 4 0 ++ text_bytes name
]

-- Section 6.1, or section 6.2.2.
unfoldable pub header_bytes : List ℕ → List ℕ → List ℕ
header_bytes name value = elim (find name value) [
  | some index ↦ integer_bytes index 7 1
  | none ↦ name_bytes name ++ text_bytes value
]

position_from_sound :
    (i : ℕ) (test : List ℕ × List ℕ → Bool) (es : List (List ℕ × List ℕ)) (k : ℕ)
    → position_from i test es ≡ some k
    → (i ≤ k)
      × (k < i + length es)
      × ((e : List ℕ × List ℕ) × (get_elem? es (k - i) ≡ some e) × (test e ≡ true))
unfolding position_from
position_from_sound i test [] k h = cc
position_from_sound i test (e ∷ es) k h = elim (Bool-cases (test e)) [
  | inl hit ↦
      let same : i ≡ k = ground (arith, h, hit) in
      (
        omega arith,
        omega arith,
        (e, ap (get_elem? (e ∷ es)) {x = k - i} {y = 0} (omega arith), hit),
      )
  | inr miss ↦
      let (low, high, (f, at, found)) =
        position_from_sound (i + 1) test es k (ground (arith, h, miss)) in
      (
        omega arith,
        omega arith,
        (f, ap (get_elem? (e ∷ es)) {x = k - i} {y = suc (k - (i + 1))} (omega arith) ∙ at, found),
      )
]

both : (a b : Bool) → a && b ≡ true → (a ≡ true) × (b ≡ true)
both true true h = (refl, refl)
both true false h = cc
both false b h = cc

static_get-at :
    (k : ℕ) (e : List ℕ × List ℕ)
    → 1 ≤ k
    → get_elem? entries (k - 1) ≡ some e
    → static_get k ≡ some e
unfolding static_get
static_get-at k e low at = rw not_zero at
  where
    not_zero : (k == 0) ≡ false
    not_zero = ground arith

-- An index that the search gives is one of the static table, with the entry that was looked for.
pub find-static_get :
    (name value : List ℕ) (k : ℕ)
    → find name value ≡ some k
    → (1 ≤ k) × (k < 62) × (static_get k ≡ some (name, value))
unfolding find
find-static_get name value k h =
    let (low, high, (e, at, found)) =
      position_from_sound 1 (λ e. bytes_eq e.0 name && bytes_eq e.1 value) entries k h in
    let (same_name, same_value) = both (bytes_eq e.0 name) (bytes_eq e.1 value) found in
    (
      low,
      high,
      static_get-at k e low at
          ∙ ap₂ (λ n v. some (n, v)) (bytes_eq_sound e.0 name same_name)
              (bytes_eq_sound e.1 value same_value),
    )

pub find_name-static_get :
    (name : List ℕ) (k : ℕ)
    → find_name name ≡ some k
    → (1 ≤ k) × (k < 62) × ((v : List ℕ) × (static_get k ≡ some (name, v)))
unfolding find_name
find_name-static_get name k h =
    let (low, high, (e, at, found)) = position_from_sound 1 (λ e. bytes_eq e.0 name) entries k h in
    (
      low,
      high,
      (e.1, static_get-at k e low at ∙ ap (λ n. some (n, e.1)) (bytes_eq_sound e.0 name found)),
    )

-- Code that puts these bytes where there is room for them, and leaves the rest of the buffer.
abbrev pub Writes : (List ℕ → ℕ → Result Error (List ℕ × ℕ)) → List ℕ → Type 0
Writes f bs =
    (pre mid post out : List ℕ) (len : ℕ)
    → out ≡ pre ++ (mid ++ post)
    → len ≡ length pre
    → length mid ≡ length bs
    → f out len ≡ ok (pre ++ (bs ++ post), length pre + length bs)

pub Writes-then :
    (f g : List ℕ → ℕ → Result Error (List ℕ × ℕ)) (as_ bs : List ℕ)
    → Writes f as_
    → Writes g bs
    → Writes (λ out len. f out len >>= λ (out', len'). g out' len') (as_ ++ bs)
Writes-then f g as_ bs wf wg pre mid post out len e el room =
    let m₁ = take (length as_) mid in
    let m₂ = drop (length as_) mid in
    let out_is : out ≡ pre ++ (m₁ ++ (m₂ ++ post)) =
      e
      ∙ ap (λ m. pre ++ (m ++ post)) (sym (take-append-drop (length as_) mid))
      ∙ ap (λ l. pre ++ l) (append_assoc m₁ m₂ post) in
    let first =
      wf pre m₁ (m₂ ++ post) out len out_is el
        (omega (arith, length-take (length as_) mid, length-append as_ bs)) in
    let second =
      wg (pre ++ as_) m₂ post (pre ++ (as_ ++ (m₂ ++ post))) (length pre + length as_)
        (sym (append_assoc pre as_ (m₂ ++ post))) (sym (length-append pre as_))
        (omega (arith, length-drop (length as_) mid, length-append as_ bs)) in
    ap (λ r. r >>= λ (out', len'). g out' len') first
    ∙ second
    ∙ ap₂ (λ l n. ok (l, n))
        (append_assoc pre as_ (bs ++ post) ∙ ap (λ l. pre ++ l) (sym (append_assoc as_ bs post)))
        (omega (arith, length-append pre as_, length-append as_ bs))

encode_integer-Writes :
    (value p f : ℕ)
    → value < 2 ^ 64
    → f * 2 ^ p + 2 ^ p ≤ 256
    → Writes (λ out len. encode_integer value p (f * 2 ^ p) out len) (integer_bytes value p f)
encode_integer-Writes value p f hv hp pre mid post out len e el room =
    ap₂ (encode_integer value p (f * 2 ^ p)) e el
    ∙ (decode-encode_integer value p f pre mid post hv hp room).0

write_at-middle :
    (pre mid post text : List ℕ)
    → length mid ≡ length text
    → write_at (pre ++ (mid ++ post)) (length pre) text ≡ pre ++ (text ++ post)
unfolding write_at
write_at-middle [] [] [] [] h = refl
write_at-middle [] [] (p ∷ post) [] h = refl
write_at-middle [] [] post (t ∷ text) h = absurd (omega arith)
write_at-middle [] (m ∷ mid) post [] h = absurd (omega arith)
write_at-middle [] (m ∷ mid) post (t ∷ text) h =
    ap (λ l. t ∷ l) (write_at-middle [] mid post text (omega arith))
write_at-middle (x ∷ pre) mid post text h = ap (λ l. x ∷ l) (write_at-middle pre mid post text h)

copy_text : List ℕ → List ℕ → ℕ → Result Error (List ℕ × ℕ)
copy_text text out len =
    if ltb (length out) (len + length text)
    then err buffer_too_small
    else ok (write_at out len text, len + length text)

copy_text-Writes : (text : List ℕ) → Writes (copy_text text) text
unfolding copy_text
copy_text-Writes text pre mid post out len e el room =
    ap₂ (copy_text text) e el ∙ rw (fits, write_at-middle pre mid post text room) refl
  where
    fits : ltb (length (pre ++ (mid ++ post))) (length pre + length text) ≡ false
    fits = ground (arith, length-append pre (mid ++ post), length-append mid post)

encode_string-Writes :
    (text : List ℕ) → length text < 2 ^ 64 → Writes (encode_string text) (text_bytes text)
unfolding encode_string text_bytes copy_text
encode_string-Writes text h =
    Writes-then (λ out len. encode_integer (length text) 7 0 out len) (copy_text text)
      (integer_bytes (length text) 7 0) text
      (encode_integer-Writes (length text) 7 0 h (omega arith)) (copy_text-Writes text)

encode_name-Writes :
    (name : List ℕ) → length name < 2 ^ 64 → Writes (encode_name name) (name_bytes name)
unfolding encode_name name_bytes find_name
encode_name-Writes name h = elim (Option-cases (find_name name)) [
  | inl new ↦ rw new (
      Writes-then (λ out len. encode_integer 0 4 0 out len) (encode_string name)
        (integer_bytes 0 4 0) (text_bytes name)
        (encode_integer-Writes 0 4 0 (omega arith) (omega arith)) (encode_string-Writes name h))
  | inr (k, old) ↦ rw old (
      encode_integer-Writes k 4 0 (omega (arith, (find_name-static_get name k old).1))
        (omega arith))
]

-- The encoder puts a header's bytes where there is room for them.
pub encode_header-Writes :
    (name value : List ℕ)
    → length name < 2 ^ 64
    → length value < 2 ^ 64
    → Writes (encode_header name value) (header_bytes name value)
unfolding encode_header header_bytes find
encode_header-Writes name value hn hv = elim (Option-cases (find name value)) [
  | inl new ↦ rw new (
      Writes-then (encode_name name) (encode_string value) (name_bytes name) (text_bytes value)
        (encode_name-Writes name hn) (encode_string-Writes value hv))
  | inr (k, old) ↦ rw old (
      encode_integer-Writes k 7 1 (omega (arith, (find-static_get name value k old).1))
        (omega arith))
]

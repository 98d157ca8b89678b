-- ===== src/H2/Hpack/Dynamic/Rfc.antt =====
-- The table against RFC 7541: what `insert` and `set_capacity` leave, and where the length cap of
-- this implementation makes it part from the peer's table.
use tailfeather.Common.{some}
use tailfeather.Common.{ℕ, zero, suc, ◌+◌, ◌-◌, ◌≤◌, ◌≡◌, refl, sym, ap, ◌∙◌, arith}
use tailfeather.Common.{ltb, leb, ◌==◌, ◌||◌, if◌then◌else◌, Bool-cases, inl, inr, true, false}
use tailfeather.Common.{
  List, [], ◌∷◌, ◌++◌, length, length-take, take, take_short, get_elem?, subst, ==→eq, leb→le,
  lt→ltb,
}
use tailfeather.H2.Hpack.StaticTable.{dynamic_base}
use tailfeather.H2.Hpack.Dynamic.{
  Entry, entry_size, DynamicTable, pop_back, evict_oldest, evict_to_fit, set_capacity, max_entries,
  max_entry_len, insert, insert_fitted, push_front, table_get,
}
use tailfeather.H2.Hpack.Dynamic.Evict.{
  total, fit, table_of, Counted, Counted-table_of, evict_to_fit-table_of, evict_oldest-table_of,
  length-front, pop_back_lem,
}

-- RFC 7541 section 4.4: the new entry first, then as many of the old as fit; nothing if it does
-- not fit itself.
unfoldable pub rfc_insert : ℕ → List Entry → Entry → List Entry
rfc_insert limit es e = fit limit (e ∷ es)

length-fit : (room : ℕ) (es : List Entry) → length (fit room es) ≤ length es
unfolding fit
length-fit room [] = omega arith
length-fit room (e ∷ es) = ground (arith, length-fit (room - entry_size e) es)

total-fit : (room : ℕ) (es : List Entry) → total (fit room es) ≤ room
unfolding fit
total-fit room [] = omega arith
total-fit room (e ∷ es) = ground (arith, total-fit (room - entry_size e) es)

take_all_but_last :
    (n : ℕ) (es : List Entry) (e : Entry) → length es ≡ n → take n (es ++ (e ∷ [])) ≡ es
take_all_but_last zero [] e h = refl
take_all_but_last zero (f ∷ es) e h = absurd (omega arith)
take_all_but_last (suc n) [] e h = absurd (omega arith)
take_all_but_last (suc n) (f ∷ es) e h = ap (λ l. f ∷ l) (take_all_but_last n es e (omega arith))

push_front-table_of :
    (es : List Entry) (limit : ℕ) (e : Entry)
    → push_front (table_of es limit) e ≡ table_of (e ∷ es) limit
unfolding push_front
push_front-table_of es limit e =
    ap (λ n. record { entries = e ∷ es; size = n; capacity = limit }) (omega arith)

-- Room for one more entry is made at the far end.
push_capped :
    (es : List Entry) (limit : ℕ) (e : Entry)
    → length es ≤ max_entries
    → (if length es == max_entries
        then push_front (evict_oldest (table_of es limit)) e
        else push_front (table_of es limit) e)
      ≡ table_of (take max_entries (e ∷ es)) limit
push_capped [] limit e h = push_front-table_of [] limit e
push_capped (f ∷ es) limit e h = elim (Bool-cases (length (f ∷ es) == max_entries)) [
  | inl full ↦
      rw (full, evict_oldest-table_of f es limit, push_front-table_of (pop_back f es).0 limit e)
        (ap (λ l. table_of (e ∷ l) limit)
          (sym (
            ap (take 63) (pop_back_lem f es)
            ∙ take_all_but_last 63 (pop_back f es).0 (pop_back f es).1
                (length-front f es ∙ omega (arith, ==→eq (length (f ∷ es)) max_entries full)))))
  | inr room ↦
      rw (room, push_front-table_of (f ∷ es) limit e)
        (ap (λ l. table_of (e ∷ l) limit) (sym (take_short 63 (f ∷ es) (ground arith))))
]

abbrev pub Storable : Entry → Type 0
Storable e = (length e.name ≤ max_entry_len) × (length e.value ≤ max_entry_len)

-- The table holds `MAX_ENTRIES` entries at most, within its capacity, and its size field is right.
pub record IsValid (t : DynamicTable) : Type 0 where
  pub counted : Counted t
  pub bounded : length t.entries ≤ max_entries
  pub within : t.size ≤ t.capacity

not_ltb : (a b : ℕ) → b ≤ a → ltb a b ≡ false
not_ltb a b h = ground arith

insert_lem :
    (t : DynamicTable) (e : Entry) → insert t e ≡ insert_fitted (evict_to_fit t (entry_size e)) e
unfolding insert
insert_lem t e = refl

-- What is left for an entry that fits, and for one that does not.
insert_fitted-small :
    (es : List Entry) (limit : ℕ) (e : Entry)
    → length es ≤ max_entries
    → Storable e
    → entry_size e ≤ limit
    → insert_fitted (table_of es limit) e ≡ table_of (take max_entries (e ∷ es)) limit
unfolding insert_fitted
insert_fitted-small es limit e h (n, v) fits =
    rw
      (
        not_ltb limit (entry_size e) fits,
        not_ltb max_entry_len (length e.name) n,
        not_ltb max_entry_len (length e.value) v,
      )
      (push_capped es limit e h)

insert_fitted-skips :
    (es : List Entry) (limit : ℕ) (e : Entry)
    → ltb limit (entry_size e)
        || (ltb max_entry_len (length e.name) || ltb max_entry_len (length e.value))
      ≡ true
    → insert_fitted (table_of es limit) e ≡ table_of es limit
unfolding insert_fitted
insert_fitted-skips es limit e h = rw h refl

insert-table_of :
    (es : List Entry) (limit : ℕ) (e : Entry)
    → length es ≤ max_entries
    → Storable e
    → insert (table_of es limit) e ≡ table_of (take max_entries (rfc_insert limit es e)) limit
unfolding rfc_insert fit
insert-table_of es limit e h small = elim (Bool-cases (leb (entry_size e) limit)) [
  | inl fits ↦
      insert_lem (table_of es limit) e
      ∙ ap (λ u. insert_fitted u e) (evict_to_fit-table_of es limit (entry_size e))
      ∙ rw fits (
          insert_fitted-small (fit (limit - entry_size e) es) limit e
            (omega (arith, length-fit (limit - entry_size e) es)) small (leb→le _ _ fits))
  | inr big ↦
      insert_lem (table_of es limit) e
      ∙ ap (λ u. insert_fitted u e) (evict_to_fit-table_of es limit (entry_size e))
      ∙ rw big
          (insert_fitted-skips [] limit e (rw (lt→ltb limit (entry_size e) (ground arith)) refl))
]

-- Inserting a header that the implementation can store gives the table of RFC 7541, cut to the
-- newest `MAX_ENTRIES` entries, with its size and the same capacity.
pub insert_refines :
    (t : DynamicTable) (e : Entry)
    → IsValid t
    → Storable e
    → insert t e ≡ table_of (take max_entries (rfc_insert t.capacity t.entries e)) t.capacity
insert_refines t e valid small =
    ap (λ u. insert u e) (Counted-table_of t valid.counted)
    ∙ insert-table_of t.entries t.capacity e valid.bounded small

set_capacity_lem :
    (t : DynamicTable) (capacity : ℕ)
    → set_capacity t capacity ≡ evict_to_fit (record t { capacity = capacity }) 0
unfolding set_capacity
set_capacity_lem t capacity = refl

-- A new capacity leaves the newest entries that fit it.
pub set_capacity_refines :
    (t : DynamicTable) (capacity : ℕ)
    → IsValid t
    → set_capacity t capacity ≡ table_of (fit capacity t.entries) capacity
set_capacity_refines t capacity valid =
    set_capacity_lem t capacity
    ∙ ap (λ n. evict_to_fit (record { entries = t.entries; size = n; capacity = capacity }) 0)
        valid.counted
    ∙ evict_to_fit-table_of t.entries capacity 0
    ∙ rw (zero_le capacity) (ap (λ n. table_of (fit n t.entries) capacity) (omega arith))
  where
    zero_le : (n : ℕ) → leb 0 n ≡ true
    zero_le n = ground arith

table_of-IsValid :
    (room limit : ℕ) (es : List Entry)
    → length (fit room es) ≤ max_entries
    → room ≤ limit
    → IsValid (table_of (fit room es) limit)
table_of-IsValid room limit es h le = record {
  counted = refl;
  bounded = h;
  within = omega (arith, total-fit room es);
}

-- The invariant holds of a new table and is kept by a capacity update.
pub set_capacity-IsValid :
    (t : DynamicTable) (capacity : ℕ) → IsValid t → IsValid (set_capacity t capacity)
set_capacity-IsValid t capacity valid =
    subst (λ u. IsValid u) (sym (set_capacity_refines t capacity valid))
      (table_of-IsValid capacity capacity t.entries
        (omega (arith, valid.bounded, length-fit capacity t.entries)) (omega arith))

total-take : (n : ℕ) (es : List Entry) → total (take n es) ≤ total es
total-take zero es = omega arith
total-take (suc n) [] = omega arith
total-take (suc n) (e ∷ es) = omega (arith, total-take n es)

-- What eviction leaves when the header is then declined.
insert-declined :
    (es : List Entry) (limit : ℕ) (e : Entry)
    → ltb limit (entry_size e)
        || (ltb max_entry_len (length e.name) || ltb max_entry_len (length e.value))
      ≡ true
    → insert (table_of es limit) e
      ≡ table_of (if leb (entry_size e) limit then fit (limit - entry_size e) es else []) limit
insert-declined es limit e h =
    insert_lem (table_of es limit) e
    ∙ ap (λ u. insert_fitted u e) (evict_to_fit-table_of es limit (entry_size e))
    ∙ insert_fitted-skips (if leb (entry_size e) limit then fit (limit - entry_size e) es else [])
        limit e h

declined-IsValid :
    (es : List Entry) (limit n : ℕ)
    → length es ≤ max_entries
    → IsValid (table_of (if leb n limit then fit (limit - n) es else []) limit)
declined-IsValid es limit n h = elim (Bool-cases (leb n limit)) [
  | inl fits ↦ rw fits (
      table_of-IsValid (limit - n) limit es (omega (arith, length-fit (limit - n) es))
        (omega arith))
  | inr big ↦ rw big (record { counted = refl; bounded = omega arith; within = omega arith })
]

taken-IsValid :
    (limit : ℕ) (es : List Entry) → IsValid (table_of (take max_entries (fit limit es)) limit)
taken-IsValid limit es = record {
  counted = refl;
  bounded = omega (arith, length-take max_entries (fit limit es));
  within = omega (arith, total-fit limit es, total-take max_entries (fit limit es));
}

insert-table_of-IsValid :
    (es : List Entry) (limit : ℕ) (e : Entry)
    → length es ≤ max_entries
    → IsValid (insert (table_of es limit) e)
insert-table_of-IsValid es limit e h =
    elim (Bool-cases (ltb max_entry_len (length e.name) || ltb max_entry_len (length e.value))) [
      | inl long ↦
          rw (insert-declined es limit e (ground (arith, long)))
            (declined-IsValid es limit (entry_size e) h)
      | inr short ↦
          rw (insert-table_of es limit e h (ground (arith, short), ground (arith, short)))
            (unfold rfc_insert in taken-IsValid limit (e ∷ es))
    ]

-- An insertion keeps the invariant, whatever the lengths of the name and the value.
pub insert-IsValid : (t : DynamicTable) (e : Entry) → IsValid t → IsValid (insert t e)
insert-IsValid t e valid =
    subst (λ u. IsValid (insert u e)) (sym (Counted-table_of t valid.counted))
      (insert-table_of-IsValid t.entries t.capacity e valid.bounded)

-- A header that fits the peer's table, but whose name or value is over `MAX_ENTRY_LEN`, is left out.
-- Right after it the peer's table has the header at index 62, and each index of this table, 62
-- included, gives what the peer's table has one index further on: an older header, or nothing if
-- there is none.
pub long_entry_shifts :
    (t : DynamicTable) (e : Entry) (k : ℕ)
    → IsValid t
    → entry_size e ≤ t.capacity
    → ltb max_entry_len (length e.name) || ltb max_entry_len (length e.value) ≡ true
    → (get_elem? (rfc_insert t.capacity t.entries e) 0 ≡ some e)
      × (table_get (insert t e) (dynamic_base + k)
          ≡ get_elem? (rfc_insert t.capacity t.entries e) (suc k))
unfolding rfc_insert fit table_get
long_entry_shifts t e k valid fits long = (
  rw fits_bool refl,
  ap (λ u. table_get (insert u e) (dynamic_base + k)) (Counted-table_of t valid.counted)
      ∙ ap (λ u. table_get u (dynamic_base + k))
          (insert-declined t.entries t.capacity e (ground (arith, long)))
      ∙ rw (fits_bool, below, offset) refl,
)
  where
    fits_bool : leb (entry_size e) t.capacity ≡ true
    fits_bool = ground arith

    below : ltb (dynamic_base + k) dynamic_base ≡ false
    below = ground arith

    offset : dynamic_base + k - dynamic_base ≡ k
    offset = omega arith

-- ===== src/H2/Hpack/Dynamic/Evict.antt =====
-- The table's invariant, and what eviction leaves: the longest run of newest entries that fits.
use tailfeather.Common.{ℕ, zero, suc, ◌+◌, ◌-◌, ◌≤◌, ◌<◌, ◌≡◌, refl, sym, ap, ◌∙◌, arith}
use tailfeather.Common.{ltb, leb, if◌then◌else◌, Bool-cases, inl, inr, true}
use tailfeather.Common.{List, [], ◌∷◌, ◌++◌, length, length-append, subst}
use tailfeather.H2.Hpack.Dynamic.{
  Entry, entry_size, DynamicTable, pop_back, evict_oldest, evict_loop, evict_to_fit,
}

-- The bytes of all entries.
abbrev pub total : List Entry → ℕ
total [] = 0
total (e ∷ es) = entry_size e + total es

-- RFC 7541 section 4.3: the entries that stay when no more than `room` bytes may.
unfoldable pub fit : ℕ → List Entry → List Entry
fit room [] = []
fit room (e ∷ es) = if leb (entry_size e) room then e ∷ fit (room - entry_size e) es else []

fit_all : (room : ℕ) (es : List Entry) → total es ≤ room → fit room es ≡ es
unfolding fit
fit_all room [] h = refl
fit_all room (e ∷ es) h = ground (arith, fit_all (room - entry_size e) es)

fit_last :
    (room : ℕ) (es : List Entry) (e : Entry)
    → room < total (es ++ (e ∷ []))
    → fit room (es ++ (e ∷ [])) ≡ fit room es
unfolding fit
fit_last room [] e h = ground arith
fit_last room (f ∷ es) e h = ground (arith, fit_last (room - entry_size f) es e)

total-append : (es fs : List Entry) → total (es ++ fs) ≡ total es + total fs
total-append [] fs = omega arith
total-append (e ∷ es) fs = omega (arith, total-append es fs)

-- `pop_back` takes the last entry off.
pub pop_back_lem :
    (e : Entry) (es : List Entry) → e ∷ es ≡ (pop_back e es).0 ++ ((pop_back e es).1 ∷ [])
unfolding pop_back
pop_back_lem e [] = refl
pop_back_lem e (f ∷ es) = ap (λ l. e ∷ l) (pop_back_lem f es)

-- The size field is the size of the entries.
abbrev pub Counted : DynamicTable → Type 0
Counted t = t.size ≡ total t.entries

-- The table of these entries, counted.
abbrev pub table_of : List Entry → ℕ → DynamicTable
table_of es limit = record { entries = es; size = total es; capacity = limit }

pub Counted-table_of : (t : DynamicTable) → Counted t → t ≡ table_of t.entries t.capacity
Counted-table_of t h = ap (λ n. record { entries = t.entries; size = n; capacity = t.capacity }) h

front_size :
    (e : Entry) (es : List Entry)
    → total (e ∷ es) ≡ total (pop_back e es).0 + entry_size (pop_back e es).1
front_size e es =
    omega
      (arith, ap total (pop_back_lem e es), total-append (pop_back e es).0 ((pop_back e es).1 ∷ []))

pub evict_oldest-table_of :
    (e : Entry) (es : List Entry) (limit : ℕ)
    → evict_oldest (table_of (e ∷ es) limit) ≡ table_of (pop_back e es).0 limit
unfolding evict_oldest
evict_oldest-table_of e es limit =
    ap (λ n. record { entries = (pop_back e es).0; size = n; capacity = limit })
      (omega (arith, front_size e es))

pub length-front : (e : Entry) (es : List Entry) → length (pop_back e es).0 ≡ length es
length-front e es =
    omega (
      arith,
      ap length (pop_back_lem e es),
      length-append (pop_back e es).0 ((pop_back e es).1 ∷ []),
    )

fit-front :
    (room : ℕ) (e : Entry) (es : List Entry)
    → room < total (e ∷ es)
    → fit room (pop_back e es).0 ≡ fit room (e ∷ es)
fit-front room e es h =
    sym (
      fit_last room (pop_back e es).0 (pop_back e es).1
        (subst (λ l. room < total l) (pop_back_lem e es) h))
    ∙ ap (fit room) (sym (pop_back_lem e es))

evict_loop-fit :
    (n incoming : ℕ) (es : List Entry) (limit : ℕ)
    → length es ≤ n
    → incoming ≤ limit
    → evict_loop n incoming (table_of es limit) ≡ table_of (fit (limit - incoming) es) limit
unfolding evict_loop
evict_loop-fit zero incoming [] limit h room = unfold fit in refl
evict_loop-fit zero incoming (e ∷ es) limit h room = absurd (omega arith)
evict_loop-fit (suc n) incoming [] limit h room = unfold fit in ground arith
evict_loop-fit (suc n) incoming (e ∷ es) limit h room =
    elim (Bool-cases (ltb limit (total (e ∷ es) + incoming))) [
      | inr fits ↦ rw (fits, fit_all (limit - incoming) (e ∷ es) (ground arith)) refl
      | inl over ↦
          rw (over, evict_oldest-table_of e es limit)
            (evict_loop-fit n incoming (pop_back e es).0 limit (omega (arith, length-front e es))
                room
              ∙ ap (λ l. table_of l limit) (fit-front (limit - incoming) e es (ground arith)))
    ]

over : (c s i : ℕ) → c < i → ltb c (s + i) ≡ true
over c s i h = ground arith

evict_loop-clear :
    (n incoming : ℕ) (es : List Entry) (limit : ℕ)
    → length es ≤ n
    → limit < incoming
    → evict_loop n incoming (table_of es limit) ≡ table_of [] limit
unfolding evict_loop
evict_loop-clear zero incoming [] limit h room = refl
evict_loop-clear zero incoming (e ∷ es) limit h room = absurd (omega arith)
evict_loop-clear (suc n) incoming [] limit h room = ground arith
evict_loop-clear (suc n) incoming (e ∷ es) limit h room =
    rw (over limit (total (e ∷ es)) incoming room, evict_oldest-table_of e es limit)
      (evict_loop-clear n incoming (pop_back e es).0 limit (omega (arith, length-front e es)) room)

-- Eviction for `incoming` bytes leaves the newest entries that fit beside them.
pub evict_to_fit-table_of :
    (es : List Entry) (limit incoming : ℕ)
    → evict_to_fit (table_of es limit) incoming
      ≡ table_of (if leb incoming limit then fit (limit - incoming) es else []) limit
unfolding evict_to_fit
evict_to_fit-table_of es limit incoming = elim (Bool-cases (leb incoming limit)) [
  | inl room ↦ rw room (evict_loop-fit (length es) incoming es limit (omega arith) (ground arith))
  | inr none_ ↦
      rw none_ (evict_loop-clear (length es) incoming es limit (omega arith) (ground arith))
]

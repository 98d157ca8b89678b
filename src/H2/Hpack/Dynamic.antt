-- ===== src/H2/Hpack/Dynamic.antt =====
-- crates/micro-h2/src/hpack/dynamic.rs: the decoder's copy of the peer's table, newest entry first.
-- Names and values are their bytes. The deque holds `MAX_ENTRIES` at most.
pub mod Evict
pub mod Rfc
use tailfeather.Common.{
  ℕ, zero, suc, ◌+◌, ◌-◌, ltb, leb, ◌==◌, ◌&&◌, ◌||◌, not, if◌then◌else◌, Bool,
}
use tailfeather.Common.{
  List, [], ◌∷◌, length, get_elem?, Option, none, some, Result, ok, err, ok_or,
}
use tailfeather.Common.{true, false}
use tailfeather.H2.Error.{Error, hpack}
use tailfeather.H2.Hpack.StaticTable.{dynamic_base, static_get}

abbrev pub max_entries : ℕ
max_entries = 64

abbrev pub max_entry_len : ℕ
max_entry_len = 128

abbrev pub entry_overhead : ℕ
entry_overhead = 32

pub record Entry : Type 0 where
  pub name : List ℕ
  pub value : List ℕ

abbrev pub entry_size : Entry → ℕ
entry_size e = length e.name + length e.value + entry_overhead

pub record DynamicTable : Type 0 where
  pub entries : List Entry
  pub size : ℕ
  pub capacity : ℕ

unfoldable pub new_table : ℕ → DynamicTable
new_table capacity = record { entries = []; size = 0; capacity = capacity }

-- `Deque::pop_back`: all but the last entry, and the last.
unfoldable pub pop_back : Entry → List Entry → List Entry × Entry
pop_back e [] = ([], e)
pop_back e (f ∷ es) = let (front, last) = pop_back f es in (e ∷ front, last)

unfoldable pub evict_oldest : DynamicTable → DynamicTable
unfolding pop_back
evict_oldest t = elim t.entries [
  | [] ↦ t
  | e ∷ es ↦
      let (front, last) = pop_back e es in
      record t { entries = front; size = t.size - entry_size last }
]

abbrev pub is_empty : List Entry → Bool
is_empty [] = true
is_empty (e ∷ es) = false

-- The `while` loop, by the number of entries left.
unfoldable pub evict_loop : ℕ → ℕ → DynamicTable → DynamicTable
evict_loop zero incoming t = t
evict_loop (suc n) incoming t =
    let rest = evict_loop n incoming (evict_oldest t) in
    if ltb t.capacity (t.size + incoming) && not (is_empty t.entries) then rest else t

unfoldable pub evict_to_fit : DynamicTable → ℕ → DynamicTable
unfolding evict_loop
evict_to_fit t incoming = evict_loop (length t.entries) incoming t

unfoldable pub set_capacity : DynamicTable → ℕ → DynamicTable
unfolding evict_to_fit
set_capacity t capacity = evict_to_fit (record t { capacity = capacity }) 0

unfoldable pub table_get : DynamicTable → ℕ → Option Entry
table_get t index =
    if ltb index dynamic_base then none else get_elem? t.entries (index - dynamic_base)

-- `push_front`, once there is room.
unfoldable pub push_front : DynamicTable → Entry → DynamicTable
push_front t e = record t { entries = e ∷ t.entries; size = t.size + entry_size e }

-- `insert` after the eviction for bytes: the two caps of this implementation.
unfoldable pub insert_fitted : DynamicTable → Entry → DynamicTable
unfolding push_front evict_oldest
insert_fitted t e =
    if ltb t.capacity (entry_size e)
      || (ltb max_entry_len (length e.name) || ltb max_entry_len (length e.value))
    then t
    else if length t.entries == max_entries
    then push_front (evict_oldest t) e
    else push_front t e

unfoldable pub insert : DynamicTable → Entry → DynamicTable
unfolding insert_fitted evict_to_fit
insert t e = insert_fitted (evict_to_fit t (entry_size e)) e

-- The static table first, then the dynamic one.
unfoldable pub lookup : DynamicTable → ℕ → Result Error Entry
unfolding table_get
lookup t index =
    if ltb index dynamic_base
    then elim (static_get index) [
      | none ↦ err hpack
      | some (n, v) ↦ ok (record { name = n; value = v })
    ]
    else ok_or (table_get t index) hpack

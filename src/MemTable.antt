-- ===== src/MemTable.antt =====
-- src/storage/mem_table.cpp: a table in memory. `rows_` is a std::map, so its keys ascend; the
-- other two maps are unordered. A method returns the new table beside its result. The locks make
-- each method one step. `now` is what the system clock reads, in microseconds.
pub mod Maps
pub mod Cache
pub mod Scan
mod Tests
use origindb.Prelude.{
  ℕ, ◌+◌, ◌%◌, ◌^◌, Bool, true, false, not, ◌&&◌, Option, none, some, Text, text_ltb, Assoc, find,
  assign, erase, insert_sorted, List, [], ◌∷◌, length, map, if◌then◌else◌,
}
use origindb.Table.{
  TableSchema, Row, Value, null, int32, int64, float, double, string, bytes, boolean, timestamp,
}

pub data IndexType : Type 0 where
  btree hash fulltext : IndexType

pub record IndexSchema : Type 0 where
  pub name : Text
  pub columns : List Text
  pub type : IndexType
  pub unique : Bool

pub record MemTable : Type 0 where
  pub schema : TableSchema
  pub rows : Assoc Row
  pub indexes : Assoc IndexSchema
  pub json_cache : Assoc Text

unfoldable pub new_table : TableSchema → MemTable
new_table schema = record { schema = schema; rows = []; indexes = []; json_cache = [] }

unfoldable pub get_row_count : MemTable → ℕ
get_row_count t = length t.rows

-- `v.size()` of a string or a byte vector, and `sizeof(v)` of all else.
unfoldable pub value_size : Value → ℕ
value_size null = 1
value_size (int32 v) = 4
value_size (int64 v) = 8
value_size (float v) = 4
value_size (double v) = 8
value_size (string s) = length s
value_size (bytes s) = length s
value_size (boolean b) = 1
value_size (timestamp v) = 8

unfoldable pub columns_size : Assoc Value → ℕ
columns_size [] = 0
columns_size ((name, v) ∷ m) = length name + value_size v + columns_size m

unfoldable pub rows_size : Assoc Row → ℕ
rows_size [] = 0
rows_size ((key, row) ∷ m) = length key + 8 + 8 + columns_size row.columns + rows_size m

unfoldable pub get_size_bytes : MemTable → ℕ
get_size_bytes t = rows_size t.rows % 2 ^ 64

unfoldable pub has_row : Option Row → Bool
has_row none = false
has_row (some row) = true

unfoldable pub get : MemTable → Text → Option Row
get t key = find key t.rows

-- `rows_[key] = row; InvalidateJson(key)`
unfoldable pub store_row : Text → Row → MemTable → MemTable
store_row key row t = record t {
  rows = insert_sorted key row t.rows;
  json_cache = erase key t.json_cache;
}

unfoldable pub insert : Row → MemTable → MemTable × Bool
unfolding has_row store_row
insert row t = if has_row (find row.key t.rows) then (t, false) else (store_row row.key row t, true)

unfoldable pub update_found : ℕ → Text → Row → MemTable → Option Row → MemTable × Bool
unfolding store_row
update_found now key row t none = (t, false)
update_found now key row t (some old) =
    (store_row key (record row { version = (old.version + 1) % 2 ^ 64; timestamp = now }) t, true)

unfoldable pub update : ℕ → Text → Row → MemTable → MemTable × Bool
unfolding update_found
update now key row t = update_found now key row t (find key t.rows)

-- `rows_.erase(it); InvalidateJson(key)`
unfoldable pub erase_row : Text → MemTable → MemTable
erase_row key t = record t { rows = erase key t.rows; json_cache = erase key t.json_cache }

unfoldable pub delete : Text → MemTable → MemTable × Bool
unfolding has_row erase_row
delete key t = if has_row (find key t.rows) then (erase_row key t, true) else (t, false)

-- `rows_.lower_bound(start_key)`; an empty start is the first row too.
unfoldable pub lower_bound : Text → Assoc Row → Assoc Row
lower_bound start [] = []
lower_bound start ((key, row) ∷ m) =
    let rest = lower_bound start m in if text_ltb key start then rest else (key, row) ∷ m

unfoldable pub is_empty : Text → Bool
is_empty [] = true
is_empty (b ∷ s) = false

-- `!end_key.empty() && it->first > end_key`
unfoldable pub past_end : Text → Text → Bool
unfolding is_empty
past_end end key = not (is_empty end) && text_ltb end key

-- The callback has a state of its own, and its Boolean says whether to go on.
module _ {ℓ} {S : Type ℓ} where
  unfoldable pub scan_loop : Text → (S → Text → Row → S × Bool) → S → Assoc Row → S
  scan_loop end cb s [] = s
  scan_loop end cb s ((key, row) ∷ m) =
      let (s', more) = cb s key row in
      let rest = scan_loop end cb s' m in if past_end end key then s else if more then rest else s'

  unfoldable pub scan : Text → Text → (S → Text → Row → S × Bool) → S → MemTable → S
  scan start end cb s t =
      scan_loop end cb s (if is_empty start then t.rows else lower_bound start t.rows)

-- A miss computes the text and caches it.
unfoldable pub cached_json : (Row → Text) → Text → Row → Assoc Text → Text × Assoc Text
cached_json ser key row cache = elim (find key cache) [
  | some json ↦ (json, cache)
  | none ↦ (ser row, assign key (ser row) cache)
]

unfoldable pub get_json_cached : (Row → Text) → Text → MemTable → Option Text × MemTable
get_json_cached ser key t = elim (find key t.rows) [
  | none ↦ (none, t)
  | some row ↦
      let (json, cache) = cached_json ser key row t.json_cache in
      (some json, record t { json_cache = cache })
]

module _ {ℓ} {S : Type ℓ} where
  unfoldable pub scan_json_loop :
      (Row → Text)
      → Text
      → (S → Text → Text → S × Bool)
      → S
      → Assoc Row
      → Assoc Text
      → S × Assoc Text
  scan_json_loop ser end cb s [] cache = (s, cache)
  scan_json_loop ser end cb s ((key, row) ∷ m) cache =
      let (json, cache') = cached_json ser key row cache in
      let (s', more) = cb s key json in
      let rest = scan_json_loop ser end cb s' m cache' in
      if past_end end key then (s, cache) else if more then rest else (s', cache')

  unfoldable pub scan_json_cached :
      (Row → Text) → Text → Text → (S → Text → Text → S × Bool) → S → MemTable → S × MemTable
  scan_json_cached ser start end cb s t =
      let (s', cache) =
        scan_json_loop ser end cb s (if is_empty start then t.rows else lower_bound start t.rows)
          t.json_cache in
      (s', record t { json_cache = cache })

unfoldable pub create_index : IndexSchema → MemTable → MemTable × Bool
create_index schema t = (record t { indexes = assign schema.name schema t.indexes }, true)

unfoldable pub drop_index : Text → MemTable → MemTable × Bool
drop_index name t = elim (find name t.indexes) [
  | none ↦ (t, false)
  | some schema ↦ (record t { indexes = erase name t.indexes }, true)
]

unfoldable pub get_index_names : MemTable → List Text
get_index_names t = map (λ e. e.0) t.indexes

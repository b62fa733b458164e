-- ===== src/MemTable/Cache.antt =====
-- The well-formedness of a table: the rows ascend by key, and every cached text is the serializer's
-- text of the row that is there now.
use origindb.Prelude.{
  ℕ, ◌≡◌, refl, ap, Bool, true, false, Option, none, some, Option-cases, inl, inr, Text,
  text_eq_iff, Assoc, find, find-assign, find-insert_sorted, find-erase, IsSorted,
  insert_sorted-IsSorted, erase-IsSorted, if◌then◌else◌, arith,
}
use mathlib.Core.Option
use origindb.Table.{TableSchema, Row}
use origindb.MemTable.{
  MemTable, new_table, get, store_row, insert, update, update_found, delete, erase_row, cached_json,
  get_json_cached,
}
use origindb.MemTable.Maps.{Write, insert_row, update_row, delete_row, apply_write}

module _ (ser : Row → Text) where
  abbrev pub CacheAgrees : Assoc Row → Assoc Text → Type 0
  CacheAgrees rows cache =
      (key json : Text) → find key cache ≡ some json → Option.map ser (find key rows) ≡ some json

  pub record IsTable (t : MemTable) : Type 0 where
    pub sorted : IsSorted t.rows
    pub cache : CacheAgrees t.rows t.json_cache

  store_row-IsTable :
      (key : Text) (row : Row) (t : MemTable) → IsTable t → IsTable (store_row key row t)
  unfolding store_row
  store_row-IsTable key row t h = record {
    sorted = insert_sorted-IsSorted key row t.rows h.sorted;
    cache = λ k json e.
        ground (
          arith,
          find-insert_sorted key k row t.rows,
          find-erase key k t.json_cache,
          h.cache k json,
        );
  }

  erase_row-IsTable : (key : Text) (t : MemTable) → IsTable t → IsTable (erase_row key t)
  unfolding erase_row
  erase_row-IsTable key t h = record {
    sorted = erase-IsSorted key t.rows h.sorted;
    cache = λ k json e.
        ground (arith, find-erase key k t.rows, find-erase key k t.json_cache, h.cache k json);
  }

  if-IsTable :
      (b : Bool) (x y : MemTable × Bool)
      → IsTable x.0
      → IsTable y.0
      → IsTable (if b then x else y).0
  if-IsTable true x y h k = h
  if-IsTable false x y h k = k

  update_found-IsTable :
      (now : ℕ) (key : Text) (row : Row) (t : MemTable) (o : Option Row)
      → IsTable t
      → IsTable (update_found now key row t o).0
  unfolding update_found
  update_found-IsTable now key row t none h = h
  update_found-IsTable now key row t (some old) h = store_row-IsTable key _ t h

  pub new_table-IsTable : (schema : TableSchema) → IsTable (new_table schema)
  unfolding new_table find
  new_table-IsTable schema = record { sorted = tt; cache = λ k json e. cc }

  -- Every write keeps a well-formed table well formed, whether it is accepted or refused: the rows
  -- ascend by key and no cached text is stale.
  pub apply_write-IsTable : (w : Write) (t : MemTable) → IsTable t → IsTable (apply_write w t).0
  unfolding apply_write insert update delete
  apply_write-IsTable (insert_row row) t h = if-IsTable _ _ _ h (store_row-IsTable row.key row t h)
  apply_write-IsTable (update_row now key row) t h =
      update_found-IsTable now key row t (find key t.rows) h
  apply_write-IsTable (delete_row key) t h = if-IsTable _ _ _ (erase_row-IsTable key t h) h

  pub cached_json-agrees :
      (key : Text) (row : Row) (rows : Assoc Row) (cache : Assoc Text)
      → CacheAgrees rows cache
      → find key rows ≡ some row
      → ((cached_json ser key row cache).0 ≡ ser row)
        × CacheAgrees rows (cached_json ser key row cache).1
  unfolding cached_json
  cached_json-agrees key row rows cache h e = elim (Option-cases (find key cache)) [
    | inl c ↦ (
      ground arith,
      λ k json f. ground (arith, find-assign key k (ser row) cache, text_eq_iff key k, h k json),
    )
    | inr (json, c) ↦ (ground (arith, h key json), λ k json' f. ground (arith, h k json'))
  ]

  -- A read of a well-formed table through the cache answers what a read of the row followed by the
  -- serializer would, and leaves the rows alone and the table well formed.
  pub get_json_cached_lem :
      (key : Text) (t : MemTable)
      → IsTable t
      → ((get_json_cached ser key t).0 ≡ Option.map ser (get t key))
        × IsTable (get_json_cached ser key t).1
        × ((get_json_cached ser key t).1.rows ≡ t.rows)
  unfolding get_json_cached get
  get_json_cached_lem key t h = elim (Option-cases (find key t.rows)) [
    | inl e ↦ rw (e, get_json_cached) (refl, h, refl)
    | inr (row, e) ↦
        let (json, agrees) = cached_json-agrees key row t.rows t.json_cache h.cache e in
        rw (e, get_json_cached) (ap some json, record { sorted = h.sorted; cache = agrees }, refl)
  ]

-- ===== src/Wasm/Scan/Rows.antt =====
-- HostTableScan of src/wasm/host_functions.cpp finds what HostTableRead finds.
use origindb.Prelude.{
  find-above, IsAbove-IsSorted, ◌≡◌, refl, ◌∙◌, ap, Option, none, some, Text, [], ◌∷◌, text_eq,
  text_eq_iff, if◌then◌else◌, arith, Assoc, find, insert_sorted, IsSorted, find-insert_sorted,
  find-erase,
}
use mathlib.Core.Option
use origindb.Table.{Row}
use origindb.MemTable.{MemTable, get}
use origindb.MemTable.Cache.{IsTable, get_json_cached_lem}
use origindb.MemTable.Scan.{range, visit, scan-visit}
use origindb.MemTable.Scan.Json.{rendered, scan_json_cached-scan}
use origindb.Wasm.Host.{
  HostCall, Host, Capabilities, Services, writes_of, has_prefix, prefix_end, read_row, read_staged,
  read_committed,
}
use origindb.Wasm.Scan.{collect, committed_rows, apply_overlay, apply_write, scan_rows}
use origindb.Wasm.Scan.Prefix.{has_prefix-in_range}

find_head :
    (key j : Text) (row : Row) (m : Assoc Row)
    → find key ((j, row) ∷ m) ≡ (if text_eq j key then some row else find key m)
unfolding find
find_head key j row m = refl

abbrev text_or : (Row → Text) → Option Row → Option Text → Option Text
text_or ser none other = other
text_or ser (some row) other = some (ser row)

module _ (ser : Row → Text) (prefix : Text) where
  -- What the scan collects from rows in ascending order.
  visit-find :
      (key : Text) (rows : Assoc Text) (m : Assoc Row)
      → IsSorted m
      → find key
          (visit (rendered ser [] (collect prefix)) rows (range prefix (prefix_end prefix) m))
        ≡ (if has_prefix prefix key
            then text_or ser (find key m) (find key rows)
            else find key rows)
  unfolding visit range collect
  visit-find key rows [] a = unfold find in ground arith
  visit-find key rows ((j, row) ∷ m) a = ground (
    arith,
    visit-find key rows m (IsAbove-IsSorted j m a),
    visit-find key (insert_sorted j (ser row) rows) m (IsAbove-IsSorted j m a),
    find-insert_sorted j key (ser row) rows,
    has_prefix-in_range prefix j,
    text_eq_iff j key,
    find-above j m a,
    find_head key j row m,
  )

abbrev SortedTable : (Row → Text) → Option MemTable → Type 0
SortedTable ser none = Unit {0}
SortedTable ser (some t) = IsTable ser t

abbrev rows_of : Option MemTable → Assoc Row
rows_of none = []
rows_of (some t) = t.rows

module _ {J : Type 0} (services : Services J) (caps : Option Capabilities) where
  committed-find :
      (table prefix key : Text) (h : Host J) (o : Option MemTable)
      → SortedTable services.serialize o
      → find key (committed_rows services caps table prefix h o).1 ≡ (
          if has_prefix prefix key
          then text_or services.serialize (find key (rows_of o)) none
          else none)
  unfolding committed_rows find
  committed-find table prefix key h none k = ground arith
  committed-find table prefix key h (some t) k =
      let ser = services.serialize in
      let end = prefix_end prefix in
      ap (find key) (
        (scan_json_cached-scan ser end (collect prefix) prefix [] t k).0
        ∙ scan-visit end (rendered ser end (collect prefix)) prefix [] t k.sorted)
      ∙ visit-find ser prefix key [] t.rows k.sorted

  abbrev overlaid : Option (Option J) → Option Text → Option Text
  overlaid none below = below
  overlaid (some none) below = none
  overlaid (some (some value)) below = some (services.dump value)

  apply_write-find :
      (j key : Text) (value : Option J) (rows : Assoc Text)
      → find key (apply_write services caps j value rows)
        ≡ (if text_eq j key then overlaid (some value) (find key rows) else find key rows)
  apply_write-find j key none rows = find-erase j key rows
  apply_write-find j key (some value) rows = find-insert_sorted j key (services.dump value) rows

  apply_overlay-find :
      (prefix key : Text) (writes : Assoc (Option J)) (rows : Assoc Text)
      → IsSorted writes
      → find key (apply_overlay services caps prefix writes rows) ≡ (
          if has_prefix prefix key
          then overlaid (find key writes) (find key rows)
          else find key rows)
  unfolding apply_overlay find
  apply_overlay-find prefix key [] rows a = ground arith
  apply_overlay-find prefix key ((j, value) ∷ writes) rows a = ground (
    arith,
    apply_overlay-find prefix key writes rows (IsAbove-IsSorted j writes a),
    apply_overlay-find prefix key writes (apply_write services caps j value rows)
        (IsAbove-IsSorted j writes a),
    apply_write-find j key value rows,
    text_eq_iff j key,
    find-above j writes a,
  )

  mapped : (o : Option Row) → Option.map services.serialize o ≡ text_or services.serialize o none
  mapped none = refl
  mapped (some row) = refl

  read_committed-find :
      (table key : Text) (h : Host J) (o : Option MemTable)
      → SortedTable services.serialize o
      → (read_committed services caps table key h o).1
        ≡ text_or services.serialize (find key (rows_of o)) none
  read_committed-find table key h none k = unfold find in refl
  read_committed-find table key h (some t) k =
      (get_json_cached_lem services.serialize key t k).0 ∙ unfold get in mapped (find key t.rows)

  -- A lookup as the committed rows and the overlay give it.
  read_row-find :
      (call : HostCall J) (table key : Text) (h : Host J)
      → SortedTable services.serialize (find table h.tables)
      → (read_row services caps call table key h).1
        ≡ overlaid
            (find key (writes_of table call))
            (text_or services.serialize (find key (rows_of (find table h.tables))) none)
  unfolding read_row
  read_row-find call table key h k = staged_or_committed (find key (writes_of table call))
    where
      staged_or_committed :
          (o : Option (Option J))
          → (read_staged services caps table key h o).1
            ≡ overlaid o
                (text_or services.serialize (find key (rows_of (find table h.tables))) none)
      staged_or_committed none = read_committed-find table key h (find table h.tables) k
      staged_or_committed (some none) = refl
      staged_or_committed (some (some value)) = refl

  -- HostTableScan collects a row under a key exactly where the key has the prefix and HostTableRead finds
  -- the row, with the text that it finds: the call's own writes and deletes are seen alike. The tables and
  -- the staged writes are in the order of their keys.
  pub scan_rows-read_row :
      (call : HostCall J) (table prefix key : Text) (h : Host J)
      → SortedTable services.serialize (find table h.tables)
      → IsSorted (writes_of table call)
      → find key (scan_rows services caps call table prefix h).1
        ≡ (if has_prefix prefix key then (read_row services caps call table key h).1 else none)
  unfolding scan_rows
  scan_rows-read_row call table prefix key h k w = ground (
    arith,
    apply_overlay-find prefix key (writes_of table call)
        (committed_rows services caps table prefix h (find table h.tables)).1 w,
    committed-find table prefix key h (find table h.tables) k,
    read_row-find call table key h k,
  )

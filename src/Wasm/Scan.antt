-- ===== src/Wasm/Scan.antt =====
-- HostTableScan of src/wasm/host_functions.cpp. `rows` is a std::map, in the order of its keys.
pub mod Prefix
pub mod Rows
use origindb.Prelude.{
  ℕ, ◌+◌, ◌^◌, Bool, true, false, not, ◌||◌, Option, none, some, Text, List, [], ◌∷◌, ◌++◌, leb,
  ltb, ◌==◌, if◌then◌else◌, ascii, Assoc, find, insert_sorted, erase, assign,
}
use origindb.MemTable.{MemTable, scan_json_cached}
use origindb.Wasm.Guest.{read_bytes, read_c_string}
use origindb.Wasm.Host.{
  HostCall, Host, Reply, trap, i32, Capabilities, Services, err_permission, max_table_name,
  table_allowed, prefix_end, has_prefix, writes_of, with_call, two_arguments, reply_out,
  default_scan_limit,
}

-- `if (limit <= 0)`, where the bit pattern is that of an int32_t.
unfoldable pub scan_limit : ℕ → ℕ
scan_limit limit = if (limit == 0) || leb (2 ^ 31) limit then default_scan_limit else limit

-- The callback of the scan of the table.
unfoldable pub collect : Text → Assoc Text → Text → Text → Assoc Text × Bool
collect prefix rows key value_json =
    (if has_prefix prefix key then insert_sorted key value_json rows else rows, true)

-- The loop that joins the rows, up to the limit: the text and the count.
unfoldable pub array_loop : (Text → Text) → ℕ → ℕ → Text → Assoc Text → Text × ℕ
array_loop key_text limit count out [] = (out, count)
array_loop key_text limit count out ((key, value_json) ∷ rows) =
    let comma = if count == 0 then [] else b',' ∷ [] in
    let longer =
      out
      ++ (comma
          ++ (ascii "{\"key\":"
              ++ (key_text key ++ (ascii ",\"value\":" ++ (value_json ++ b'}' ∷ []))))) in
    let rest = array_loop key_text limit (count + 1) longer rows in
    if leb limit count then (out, count) else rest

module _ {J : Type 0} (services : Services J) (caps : Option Capabilities) where
  -- The committed rows with the prefix, through the cache of the table.
  unfoldable pub committed_rows : Text → Text → Host J → Option MemTable → Host J × Assoc Text
  unfolding collect prefix_end
  committed_rows table prefix h none = (h, [])
  committed_rows table prefix h (some t) =
      let (rows, t') =
        scan_json_cached services.serialize prefix (prefix_end prefix) (collect prefix) [] t in
      (record h { tables = assign table t' h.tables }, rows)

  abbrev pub apply_write : Text → Option J → Assoc Text → Assoc Text
  apply_write key none rows = erase key rows
  apply_write key (some value) rows = insert_sorted key (services.dump value) rows

  -- The loop over the staged writes of the table.
  unfoldable pub apply_overlay : Text → Assoc (Option J) → Assoc Text → Assoc Text
  unfolding has_prefix
  apply_overlay prefix [] rows = rows
  apply_overlay prefix ((key, value) ∷ writes) rows =
      apply_overlay prefix writes
        (if has_prefix prefix key then apply_write key value rows else rows)

  unfoldable pub scan_rows : HostCall J → Text → Text → Host J → Host J × Assoc Text
  unfolding committed_rows apply_overlay
  scan_rows call table prefix h =
      let (h', rows) = committed_rows table prefix h (find table h.tables) in
      (h', apply_overlay prefix (writes_of table call) rows)

  unfoldable pub host_table_scan : ℕ → ℕ → ℕ → ℕ → ℕ → ℕ → Host J → Host J × Reply
  unfolding with_call scan_rows array_loop scan_limit reply_out
  host_table_scan table prefix prefix_len limit out_ptr out_len h = with_call body h
    where
      body : HostCall J → Host J × Reply
      body call =
          two_arguments h (ascii "host_table_scan: out-of-bounds argument")
            (read_c_string h.memory table max_table_name) (read_bytes h.memory prefix prefix_len)
            λ name text.
              if not (table_allowed caps name)
              then (h, i32 err_permission)
              else let (h', rows) = scan_rows call name text h in
                let (joined, count) =
                  array_loop services.key_text (scan_limit limit) 0 (ascii "[") rows in
                reply_out services caps (ascii "host_table_scan: result write failed")
                  (joined ++ ascii "]") out_ptr out_len count h'

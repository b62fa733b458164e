-- ===== src/Wasm/Tests.antt =====
-- Runs of the host functions and of the engine of modules.
use origindb.Prelude.{
  ℕ, ◌+◌, ◌≡◌, refl, true, false, none, some, Text, [], ◌∷◌, ◌++◌, ascii, length, text_eq, text_ltb,
  find, assign, if◌then◌else◌,
}
use origindb.Table.{TableSchema}
use origindb.MemTable.{new_table}
use origindb.MemTable.Cache.{new_table-IsTable}
use origindb.Wasm.Base64.{base64_encode}
use origindb.Wasm.Guest.{Memory, read_c_string, read_bytes}
use origindb.Wasm.Host.{
  HostCall, Host, Services, i32, staged, reply_out, read_row, has_prefix, prefix_end,
  host_table_read, host_table_write, host_table_delete, is_read_only, table_allowed,
}
use origindb.Wasm.Host.Overlay.{MayWrite, read-write}
use origindb.Wasm.Scan.{scan_rows}
use origindb.Wasm.Scan.Rows.{scan_rows-read_row}
use origindb.Wasm.Versions.{older, compare_versions, is_numeric, to_long}
use origindb.Wasm.Versions.Missing.{IsSegment, compare_versions-missing}
use origindb.Wasm.Engine.{Module, WasmEngine, Wasmtime, returned, execute}
use origindb.Wasm.Engine.Effects.{Changes, execute-Changes}

encoded_man : base64_encode (ascii "Many") ≡ ascii "TWFueQ=="
unfolding base64_encode
encoded_man = refl

next_prefix : prefix_end (0x61 ∷ 0xFF ∷ []) ≡ 0x62 ∷ []
unfolding prefix_end
next_prefix = refl

one-IsSegment : IsSegment (ascii "1")
unfolding is_numeric to_long
one-IsSegment = (refl, (1, refl))

ten-IsSegment : IsSegment (ascii "10")
unfolding is_numeric to_long
ten-IsSegment = (refl, (10, refl))

compare_versions-missing_example : compare_versions (ascii "1.10") (ascii "1.10.0") ≡ older
compare_versions-missing_example =
    compare_versions-missing (ascii "1") (ascii "10" ∷ []) one-IsSegment (ten-IsSegment, tt)

-- A module at run time, as a reducer finds it: JSON values are their texts.
abbrev text_services : Services Text
text_services = record {
  dump = λ v. v;
  parse = λ s. some s;
  is_object = λ v. true;
  key_text = λ key. key;
  serialize = λ row. row.key;
  alloc = λ size mem. some (length mem, mem ++ 0 ∷ 0 ∷ []);
}

-- The name "t" at 0, the key "k" at 2 and the value "{}" at 3, with room for the results behind them.
abbrev guest_memory : Memory
guest_memory = ascii "t" ++ (0 ∷ ascii "k{}" ++ ascii "12345678")

abbrev fresh_call : HostCall Text
fresh_call = record { overlay = []; events = []; result = []; has_result = false; abort_msg = [] }

abbrev schema : TableSchema
schema = record { name = ascii "t"; columns = []; primary_key = []; options = [] }

abbrev guest : Host Text
guest = record {
  memory = guest_memory;
  current_call = none;
  tables = (ascii "t", new_table schema) ∷ [];
  id_counter = 0;
}

guest-MayWrite : MayWrite text_services none 0 2 1 (ascii "t") (ascii "k") guest
unfolding read_c_string read_bytes is_read_only table_allowed
guest-MayWrite = record { table_read = refl; key_read = refl; writes = refl; allowed = refl }

read-write_example :
    (let wrote = (host_table_write text_services none 0 2 1 3 2 (staged guest fresh_call)).0 in
      host_table_read text_services none 0 2 1 5 9 wrote
      ≡ reply_out text_services none
          (ascii "host_table_read: result write failed")
          (ascii "{}")
          5
          9
          1
          wrote)
    × (let gone = (host_table_delete text_services none 0 2 1 (staged guest fresh_call)).0 in
        host_table_read text_services none 0 2 1 5 9 gone ≡ (gone, i32 0))
read-write_example =
    read-write text_services none 0 2 1 3 2 5 9 (ascii "t") (ascii "k") (ascii "{}") (ascii "{}")
      fresh_call guest guest-MayWrite (unfold read_bytes in refl) refl refl

-- A write of "ab" and a delete of "b".
abbrev writing_call : HostCall Text
writing_call = record fresh_call {
  overlay = (ascii "t", (ascii "ab", some (ascii "{}")) ∷ (ascii "b", none) ∷ []) ∷ [];
}

scan_rows-read_row_example :
    find (ascii "ab") (scan_rows text_services none writing_call (ascii "t") (ascii "a") guest).1
    ≡ (if has_prefix (ascii "a") (ascii "ab")
        then (read_row text_services none writing_call (ascii "t") (ascii "ab") guest).1
        else none)
scan_rows-read_row_example =
    scan_rows-read_row text_services none writing_call (ascii "t") (ascii "a") (ascii "ab") guest
      (unfold find text_eq in new_table-IsTable text_services.serialize schema)
      (unfold find text_eq text_ltb in (refl, tt))

-- Every module imports nothing, has the exports, and returns 7; a commit counts itself.
abbrev counting : Wasmtime Text ℕ
counting = record {
  compile =
      λ bytecode. some ([], ascii "memory" ∷ ascii "origindb_invoke" ∷ ascii "origindb_alloc" ∷ []);
  compile_error = λ bytecode. [];
  instantiate = λ m. none;
  described_version = λ m. none;
  invoke = λ m reducer args w. returned 7 fresh_call;
  commit = λ call w. (w + 1, none);
}

abbrev first_release : Module
first_release = record {
  name = ascii "m";
  bytecode = ascii "code";
  version = ascii "1";
  memory_limit_bytes = 1;
  timeout_ms = 1;
  instantiated = true;
}

abbrev running : WasmEngine
running = record {
  initialized = true;
  shutdown_requested = false;
  modules = (ascii "m", first_release) ∷ [];
  last_load_error = [];
  default_timeout_ms = 5000;
  memory_limit_mb = 256;
}

execute-Changes_example :
    Changes counting first_release
      (ascii "buy")
      []
      0
      (execute counting running first_release (ascii "buy") [] 0).1
execute-Changes_example = execute-Changes counting running first_release (ascii "buy") [] 0

-- Another deployment comes in between.
abbrev meanwhile : WasmEngine → WasmEngine
meanwhile engine = record engine { modules = assign (ascii "n") first_release engine.modules }

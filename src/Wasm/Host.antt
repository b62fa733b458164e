-- ===== src/Wasm/Host.antt =====
-- src/wasm/host_functions.cpp: the functions that a module imports. A host function takes the state that
-- it can reach and returns the next one with its reply. The tables are those of the storage engine. A
-- 32-bit or 64-bit result is its bit pattern.
pub mod Overlay
use origindb.Prelude.{
  ℕ, ◌+◌, ◌-◌, ◌*◌, ◌/◌, ◌%◌, ◌^◌, Bool, true, false, not, ◌&&◌, ◌||◌, Option, none, some, Text,
  List, [], ◌∷◌, ◌++◌, length, ltb, leb, ◌==◌, if◌then◌else◌, ascii, text_eq, Assoc, find,
  insert_sorted, erase, assign,
}
use mathlib.Core.List.{reverse}
use origindb.Table.{Row}
use origindb.MemTable.{MemTable, get_json_cached, scan_json_cached}
use origindb.Wasm.Guest.{Memory, read_bytes, read_c_string, write_out}

pub record StagedEvent : Type 0 where
  pub topic : Text
  pub key : Text
  pub payload : Text

-- `HostCallContext`: the writes and events that a call stages, and its result.
pub record HostCall (J : Type 0) : Type 0 where
  pub overlay : Assoc (Assoc (Option J))
  pub events : List StagedEvent
  pub result : Text
  pub has_result : Bool
  pub abort_msg : Text

-- The fields of ModuleCapabilities that the host functions read.
pub record Capabilities : Type 0 where
  pub read_only : Bool
  pub allowed_tables : List Text

-- What a host function reaches: the module's memory, its active call, the tables and the counter of
-- identifiers.
pub record Host (J : Type 0) : Type 0 where
  pub memory : Memory
  pub current_call : Option (HostCall J)
  pub tables : Assoc MemTable
  pub id_counter : ℕ

pub data Reply : Type 0 where
  trap : Text → Reply
  i32 i64 : ℕ → Reply
  done : Reply

abbrev pub err_permission : ℕ
err_permission = 2 ^ 32 - 2

abbrev pub err_invalid_arg : ℕ
err_invalid_arg = 2 ^ 32 - 3

abbrev pub max_table_name : ℕ
max_table_name = 256

abbrev pub max_log_msg : ℕ
max_log_msg = 4096

abbrev pub max_result : ℕ
max_result = 16 * 1024 * 1024

abbrev pub default_scan_limit : ℕ
default_scan_limit = 1000

abbrev pub listed : Text → List Text → Bool
listed table [] = false
listed table (t ∷ ts) = if text_eq t table then true else listed table ts

abbrev no_tables : List Text → Bool
no_tables [] = true
no_tables (t ∷ ts) = false

unfoldable pub table_allowed : Option Capabilities → Text → Bool
table_allowed none table = true
table_allowed (some caps) table =
    if no_tables caps.allowed_tables then true else listed table caps.allowed_tables

unfoldable pub is_read_only : Option Capabilities → Bool
is_read_only none = false
is_read_only (some caps) = caps.read_only

-- The exclusive upper bound of the texts with a prefix, whose last bytes are given first.
unfoldable pub prefix_end_reversed : Text → Text
prefix_end_reversed [] = []
prefix_end_reversed (c ∷ s) =
    let shorter = prefix_end_reversed s in if ltb c 0xFF then (c + 1) ∷ s else shorter

unfoldable pub prefix_end : Text → Text
unfolding prefix_end_reversed
prefix_end prefix = reverse (prefix_end_reversed (reverse prefix))

-- `key.compare(0, prefix.size(), prefix) == 0`
unfoldable pub has_prefix : Text → Text → Bool
has_prefix [] key = true
has_prefix (p ∷ prefix) [] = false
has_prefix (p ∷ prefix) (k ∷ key) = (p == k) && has_prefix prefix key

abbrev or_no_writes {ℓ} : {A : Type ℓ} → Option (Assoc A) → Assoc A
or_no_writes none = []
or_no_writes (some m) = m

module _ {J : Type 0} where
  abbrev pub writes_of : Text → HostCall J → Assoc (Option J)
  writes_of table call = or_no_writes (find table call.overlay)

  -- `f.call->overlay[table][key] = value`
  unfoldable pub stage : Text → Text → Option J → HostCall J → HostCall J
  stage table key value call = record call {
    overlay = insert_sorted table (insert_sorted key value (writes_of table call)) call.overlay;
  }

  unfoldable pub with_call : (HostCall J → Host J × Reply) → Host J → Host J × Reply
  with_call body h = opened h.current_call
    where
      opened : Option (HostCall J) → Host J × Reply
      opened none = (h, trap (ascii "host call outside reducer execution"))
      opened (some call) = body call

  -- The arguments that are in bounds, else the trap of the message.
  abbrev pub two_arguments :
      Host J → Text → Option Text → Option Text → (Text → Text → Host J × Reply) → Host J × Reply
  two_arguments h message none key body = (h, trap message)
  two_arguments h message (some table) none body = (h, trap message)
  two_arguments h message (some table) (some key) body = body table key

  abbrev pub with_bytes : Host J → Text → Option Text → (Text → Host J × Reply) → Host J × Reply
  with_bytes h message none body = (h, trap message)
  with_bytes h message (some bytes) body = body bytes

  abbrev pub staged : Host J → HostCall J → Host J
  staged h call = record h { current_call = some call }

-- What the host functions use of others: the text of a JSON value; the value of a text, none where it
-- does not parse; whether it is an object; the text of a key as a JSON string; the serializer of rows; and
-- the guest's allocator.
pub record Services (J : Type 0) : Type 0 where
  pub dump : J → Text
  pub parse : Text → Option J
  pub is_object : J → Bool
  pub key_text : Text → Text
  pub serialize : Row → Text
  pub alloc : ℕ → Memory → Option (ℕ × Memory)

module _ {J : Type 0} (services : Services J) (caps : Option Capabilities) where
  -- `WriteOut` of a result, and the number that says that there is one.
  unfoldable pub reply_out : Text → Text → ℕ → ℕ → ℕ → Host J → Host J × Reply
  unfolding write_out
  reply_out message bytes out_ptr out_len count h =
      let (memory, written) = write_out services.alloc bytes out_ptr out_len h.memory in
      (record h { memory = memory }, if written then i32 count else trap message)

  abbrev pub read_failed : Text
  read_failed = ascii "host_table_read: result write failed"

  unfoldable pub reply_row : ℕ → ℕ → Host J → Option Text → Host J × Reply
  unfolding reply_out
  reply_row out_ptr out_len h none = (h, i32 0)
  reply_row out_ptr out_len h (some json) = reply_out read_failed json out_ptr out_len 1 h

  -- The committed row of a table, as its cached text.
  abbrev pub read_committed : Text → Text → Host J → Option MemTable → Host J × Option Text
  read_committed table key h none = (h, none)
  read_committed table key h (some t) =
      let (json, t') = get_json_cached services.serialize key t in
      (record h { tables = assign table t' h.tables }, json)

  abbrev pub read_staged : Text → Text → Host J → Option (Option J) → Host J × Option Text
  read_staged table key h none = read_committed table key h (find table h.tables)
  read_staged table key h (some none) = (h, none)
  read_staged table key h (some (some value)) = (h, some (services.dump value))

  -- The overlay first, tombstones included, then the tables.
  unfoldable pub read_row : HostCall J → Text → Text → Host J → Host J × Option Text
  read_row call table key h = read_staged table key h (find key (writes_of table call))

  unfoldable pub host_table_read : ℕ → ℕ → ℕ → ℕ → ℕ → Host J → Host J × Reply
  unfolding with_call read_row reply_row
  host_table_read table key key_len out_ptr out_len h = with_call body h
    where
      body : HostCall J → Host J × Reply
      body call =
          two_arguments h (ascii "host_table_read: out-of-bounds argument")
            (read_c_string h.memory table max_table_name) (read_bytes h.memory key key_len)
            λ name key_text.
              if not (table_allowed caps name)
              then (h, i32 err_permission)
              else let (h', json) = read_row call name key_text h in
                reply_row out_ptr out_len h' json

  abbrev pub stage_parsed : HostCall J → Text → Text → Host J → Option J → Host J × Reply
  stage_parsed call name key h none = (h, i32 err_invalid_arg)
  stage_parsed call name key h (some value) =
      if services.is_object value
      then (staged h (stage name key (some value) call), i32 0)
      else (h, i32 err_invalid_arg)

  unfoldable pub host_table_write : ℕ → ℕ → ℕ → ℕ → ℕ → Host J → Host J × Reply
  unfolding with_call stage
  host_table_write table key key_len value value_len h = with_call body h
    where
      body : HostCall J → Host J × Reply
      body call =
          let message = ascii "host_table_write: out-of-bounds argument" in
          two_arguments h message (read_c_string h.memory table max_table_name)
            (read_bytes h.memory key key_len)
            λ name key_text. with_bytes h message (read_bytes h.memory value value_len) λ bytes.
              if is_read_only caps || not (table_allowed caps name)
              then (h, i32 err_permission)
              else stage_parsed call name key_text h (services.parse bytes)

  unfoldable pub host_table_delete : ℕ → ℕ → ℕ → Host J → Host J × Reply
  unfolding with_call stage
  host_table_delete table key key_len h = with_call body h
    where
      body : HostCall J → Host J × Reply
      body call =
          two_arguments h (ascii "host_table_delete: out-of-bounds argument")
            (read_c_string h.memory table max_table_name) (read_bytes h.memory key key_len)
            λ name key_text.
              if is_read_only caps || not (table_allowed caps name)
              then (h, i32 err_permission)
              else (staged h (stage name key_text none call), i32 0)

-- ===== src/Wasm/Engine.antt =====
-- src/wasm/wasm_engine.cpp: the modules of the engine and how a reducer runs. wasmtime is a
-- parameter: what compiling and instantiating a module answer, and how a call of `origindb_invoke`
-- ends, host functions included. `W` is the storage and the changefeed. The locks make each method
-- one step, as long as a module's calls do not deploy modules.
pub mod Effects
use origindb.Prelude.{
  ℕ, ◌+◌, ◌-◌, ◌*◌, ◌/◌, ◌%◌, ◌^◌, Bool, true, false, not, ◌&&◌, ◌||◌, Option, none, some, Text,
  List, [], ◌∷◌, ◌++◌, ltb, leb, ◌==◌, if◌then◌else◌, ascii, to_text, text_eq, Assoc, find, assign,
  erase,
}
use origindb.Wasm.Host.{HostCall}

-- What the methods read of `WasmModule` and of its capabilities.
pub record Module : Type 0 where
  pub name : Text
  pub bytecode : Text
  pub version : Text
  pub memory_limit_bytes : ℕ
  pub timeout_ms : ℕ
  pub instantiated : Bool

pub record Limits : Type 0 where
  pub max_memory_mb : ℕ
  pub timeout_ms : ℕ

pub record Import : Type 0 where
  pub module_name : Text
  pub item : Text

-- A successful call answers with the payload that the reducer set, or with its status.
pub data WasmResult : Type 0 where
  payload : Text → WasmResult
  status_value : ℕ → WasmResult
  no_value : WasmResult
  failure : Text → WasmResult

-- How `CallInvoke` ends: with a status, or with a trap, whose message may be empty.
pub data Invoked (J : Type 0) : Type 0 where
  returned : ℕ → HostCall J → Invoked J
  trapped : Text → HostCall J → Invoked J

pub record WasmEngine : Type 0 where
  pub initialized : Bool
  pub shutdown_requested : Bool
  pub modules : Assoc Module
  pub last_load_error : Text
  pub default_timeout_ms : ℕ
  pub memory_limit_mb : ℕ

-- An error that a step returns, none where it succeeds.
abbrev pub Failure : Type 0
Failure = Option Text

pub record Wasmtime (J W : Type 0) : Type 0 where
  -- `wasmtime_module_new`: the imports and exports of the module, or an error
  pub compile : Text → Option (List Import × List Text)
  pub compile_error : Text → Text
  pub instantiate : Module → Failure
  -- the version that `origindb_describe` tells
  pub described_version : Module → Option Text
  pub invoke : Module → Text → List Text → W → Invoked J
  -- `CommitHostCall`
  pub commit : HostCall J → W → W × Failure

abbrev known_env_imports : List Text
known_env_imports =
    ascii "host_table_read"
    ∷ ascii "host_table_write"
    ∷ ascii "host_table_delete"
    ∷ ascii "host_table_scan"
    ∷ ascii "host_emit_event"
    ∷ ascii "host_now_ms"
    ∷ ascii "host_generate_id"
    ∷ ascii "host_log"
    ∷ ascii "host_abort"
    ∷ ascii "host_alloc"
    ∷ ascii "host_free"
    ∷ ascii "host_set_result"
    ∷ ascii "host_sender"
    ∷ []

abbrev required_exports : List Text
required_exports = ascii "memory" ∷ ascii "origindb_invoke" ∷ ascii "origindb_alloc" ∷ []

unfoldable pub contains : Text → List Text → Bool
contains name [] = false
contains name (n ∷ names) = if text_eq n name then true else contains name names

unfoldable pub import_allowed : Import → Bool
unfolding contains
import_allowed i =
    text_eq i.module_name (ascii "wasi_snapshot_preview1")
    || (text_eq i.module_name (ascii "env") && contains i.item known_env_imports)

unfoldable pub check_imports : List Import → Failure
unfolding import_allowed
check_imports [] = none
check_imports (i ∷ imports) =
    let rest = check_imports imports in
    if import_allowed i
    then rest
    else some (ascii "disallowed import: " ++ (i.module_name ++ (b'.' ∷ i.item)))

unfoldable pub check_exports : List Text → List Text → Failure
unfolding contains
check_exports exports [] = none
check_exports exports (required ∷ rest) =
    if contains required exports
    then check_exports exports rest
    else some (ascii "missing required export: " ++ required)

abbrev pub or_else : Failure → Failure → Failure
or_else none next = next
or_else (some e) next = some e

-- `name.rfind("__", 0) == 0`
unfoldable pub is_reserved_name : Text → Bool
is_reserved_name (a ∷ b ∷ name) = (a == b'_') && (b == b'_')
is_reserved_name _ = false

abbrev pub no_handler : ℕ
no_handler = 2 ^ 32 - 404

-- `std::to_string` of an int32_t that is negative.
abbrev negative_text : ℕ → Text
negative_text status = b'-' ∷ to_text (2 ^ 32 - status)

abbrev detail_of : Text → Text
detail_of [] = []
detail_of (c ∷ s) = ascii ": " ++ (c ∷ s)

unfoldable pub trap_message : Text → Text → Text
trap_message (c ∷ abort_msg) trap_msg = ascii "aborted: " ++ (c ∷ abort_msg)
trap_message [] [] = ascii "execution failed"
trap_message [] (c ∷ trap_msg) = c ∷ trap_msg

module _ {J W : Type 0} (wasmtime : Wasmtime J W) where
  abbrev pub answer_of : HostCall J → ℕ → WasmResult
  answer_of call status = if call.has_result then payload call.result else status_value status

  abbrev pub committed : HostCall J → ℕ → W × Failure → W × WasmResult
  committed call status (w, none) = (w, answer_of call status)
  committed call status (w, some e) = (w, failure (ascii "commit failed: " ++ e))

  -- What `Execute` makes of a call that returned.
  unfoldable pub settle : Text → ℕ → HostCall J → W → W × WasmResult
  unfolding is_reserved_name
  settle reducer_name status call w =
      if status == no_handler
      then (
        w,
        if is_reserved_name reducer_name
            then no_value
            else failure (ascii "unknown reducer: " ++ reducer_name),
      )
      else if leb (2 ^ 31) status
      then (
        w,
        failure
            (ascii "reducer returned error " ++ (negative_text status ++ detail_of call.result)),
      )
      else committed call status (wasmtime.commit call w)

  -- A trap destroys the instance.
  unfoldable pub ended : Module → Text → W → Invoked J → Module × W × WasmResult
  unfolding settle trap_message
  ended m reducer_name w (trapped trap_msg call) =
      (record m { instantiated = false }, w, failure (trap_message call.abort_msg trap_msg))
  ended m reducer_name w (returned status call) =
      let (w', result) = settle reducer_name status call w in
      (record m { instantiated = true }, w', result)

  unfoldable pub invoked : Module → Text → List Text → W → Failure → Module × W × WasmResult
  unfolding ended
  invoked m reducer_name args w (some e) =
      (record m { instantiated = false }, w, failure (ascii "re-instantiation failed: " ++ e))
  invoked m reducer_name args w none =
      ended m reducer_name w (wasmtime.invoke m reducer_name args w)

  -- `WasmEngine::Impl::Execute`: the module after the call, what the call changed, and the result.
  unfoldable pub execute : WasmEngine → Module → Text → List Text → W → Module × W × WasmResult
  unfolding invoked
  execute engine m reducer_name args w =
      if engine.shutdown_requested
      then (m, w, failure (ascii "engine shutting down"))
      else invoked m reducer_name args w (if m.instantiated then none else wasmtime.instantiate m)

  abbrev execute_found :
      WasmEngine → Text → Text → List Text → W → Option Module → WasmEngine × W × WasmResult
  unfolding execute
  execute_found engine module_name reducer_name args w none =
      (engine, w, failure (ascii "module not found: " ++ module_name))
  execute_found engine module_name reducer_name args w (some m) =
      let (m', w', result) = execute engine m reducer_name args w in
      (record engine { modules = assign module_name m' engine.modules }, w', result)

  unfoldable pub execute_reducer :
      WasmEngine → Text → Text → List Text → W → WasmEngine × W × WasmResult
  unfolding execute_found
  execute_reducer engine module_name reducer_name args w =
      execute_found engine module_name reducer_name args w (find module_name engine.modules)

  -- `Compile`: the allow-list of the imports, then the required exports.
  unfoldable pub compile_module : Text → Failure
  unfolding check_imports check_exports
  compile_module bytecode = checked (wasmtime.compile bytecode)
    where
      checked : Option (List Import × List Text) → Failure
      checked none = some (ascii "invalid WASM module: " ++ wasmtime.compile_error bytecode)
      checked (some (imports, exports)) =
          or_else (check_imports imports) (check_exports exports required_exports)

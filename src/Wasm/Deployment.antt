-- ===== src/Wasm/Deployment.antt =====
-- src/wasm/wasm_engine.cpp: how a module is deployed, over another one where there is one, and how it
-- is taken away.
pub mod HotSwap
use origindb.Prelude.{
  ℕ, ◌*◌, ◌%◌, ◌^◌, Bool, true, false, not, ◌||◌, Option, none, some, Text, [], ◌∷◌, ◌++◌, ◌==◌,
  if◌then◌else◌, ascii, find, assign, erase,
}
use origindb.Wasm.Engine.{
  Module, Limits, WasmResult, failure, WasmEngine, Failure, Wasmtime, or_else, execute,
  compile_module,
}
use origindb.Wasm.Versions.{
  Comparison, older, same, newer, number_too_large, out_of_fuel, compare_versions, is_empty,
}

-- How a deployment ends: `thrown` is the exception that `std::stol` raises.
pub data Loaded : Type 0 where
  loaded rejected thrown : Loaded

module _ {J W : Type 0} (wasmtime : Wasmtime J W) where
  abbrev pub set_load_error : Text → Text → WasmEngine → WasmEngine
  set_load_error name error engine = record engine {
    last_load_error = name ++ (ascii ": " ++ error);
  }

  abbrev pub rejected_with : Text → Text → WasmEngine → W → WasmEngine × W × Loaded
  rejected_with name error engine w = (set_load_error name error engine, w, rejected)

  abbrev pub version_or : Option Text → Text → Text
  version_or described (c ∷ version) = c ∷ version
  version_or none [] = []
  version_or (some version) [] = version

  abbrev pub new_module : WasmEngine → Text → Text → Text → Limits → Module
  new_module engine name bytecode version caps = record {
    name = name;
    bytecode = bytecode;
    version = version;
    memory_limit_bytes =
        (if caps.max_memory_mb == 0 then engine.memory_limit_mb else caps.max_memory_mb)
        * 1024
        * 1024
        % 2 ^ 64;
    timeout_ms = if caps.timeout_ms == 0 then engine.default_timeout_ms else caps.timeout_ms;
    instantiated = true;
  }

  -- The version gate: what it compares, none where there is nothing to compare.
  unfoldable pub version_gate : Option Module → Module → Comparison
  unfolding compare_versions
  version_gate none m = same
  version_gate (some previous) m =
      if is_empty previous.version || is_empty m.version
      then same
      else compare_versions m.version previous.version

  abbrev pub is_failure : WasmResult → Option Text
  is_failure (failure e) = some e
  is_failure _ = none

  unfoldable pub swap_in : Text → Module → WasmEngine → W → WasmEngine × W × Loaded
  swap_in name m engine w = (record engine { modules = assign name m engine.modules }, w, loaded)

  unfoldable pub after_migrate :
      Text → Module → WasmEngine → W → Option Text → WasmEngine × W × Loaded
  unfolding swap_in
  after_migrate name m engine w (some e) =
      rejected_with name (ascii "__migrate failed: " ++ e) engine w
  after_migrate name m engine w none = swap_in name m engine w

  -- `__migrate` on the new module, where it replaces one.
  unfoldable pub migrate : Text → Option Module → Module → WasmEngine → W → WasmEngine × W × Loaded
  unfolding swap_in after_migrate
  migrate name none m engine w = swap_in name m engine w
  migrate name (some previous) m engine w =
      let (m', w', result) =
        execute wasmtime engine m (ascii "__migrate") (previous.version ∷ m.version ∷ []) w in
      after_migrate name m' engine w' (is_failure result)

  unfoldable pub after_init :
      Text → Option Module → Module → WasmEngine → W → Option Text → WasmEngine × W × Loaded
  unfolding migrate
  after_init name previous m engine w (some e) =
      rejected_with name (ascii "__init failed: " ++ e) engine w
  after_init name previous m engine w none = migrate name previous m engine w

  -- `__init`, then the migration.
  unfoldable pub initialize_module :
      Text → Option Module → Module → WasmEngine → W → WasmEngine × W × Loaded
  unfolding after_init
  initialize_module name previous m engine w =
      let (m', w', result) = execute wasmtime engine m (ascii "__init") [] w in
      after_init name previous m' engine w' (is_failure result)

  abbrev older_message : Option Module → Module → Text
  older_message none m = []
  older_message (some previous) m =
      ascii "version "
      ++ (m.version
          ++ (ascii " is older than deployed version "
              ++ (previous.version ++ ascii "; bump the version to redeploy")))

  unfoldable pub gated :
      Text → Option Module → Module → WasmEngine → W → Comparison → WasmEngine × W × Loaded
  unfolding initialize_module
  gated name previous m engine w older = rejected_with name (older_message previous m) engine w
  gated name previous m engine w number_too_large = (engine, w, thrown)
  gated name previous m engine w _ = initialize_module name previous m engine w

-- `meanwhile` is what the other threads make of the engine between the look at the deployed module and
-- the rest, which does not hold `modules_mutex_` through.
module _ {J W : Type 0} (wasmtime : Wasmtime J W) (meanwhile : WasmEngine → WasmEngine) where
  unfoldable pub instantiated_module :
      Text → Module → WasmEngine → W → Failure → WasmEngine × W × Loaded
  unfolding gated version_gate
  instantiated_module name m engine w (some e) = rejected_with wasmtime name e engine w
  instantiated_module name m engine w none =
      let described = record m {
        version = version_or wasmtime (wasmtime.described_version m) m.version;
      } in
      let previous = find name engine.modules in
      gated wasmtime name previous described (meanwhile engine) w
        (version_gate wasmtime previous described)

  -- `WasmEngine::Impl::LoadModule`.
  unfoldable pub load_module :
      Text → Text → Text → Limits → WasmEngine → W → WasmEngine × W × Loaded
  unfolding compile_module instantiated_module
  load_module name bytecode version caps engine w =
      if not engine.initialized
      then rejected_with wasmtime name (ascii "engine not initialized") engine w
      else if engine.shutdown_requested
      then rejected_with wasmtime name (ascii "engine shutting down") engine w
      else if is_empty bytecode
      then rejected_with wasmtime name (ascii "empty module bytecode") engine w
      else let m = new_module wasmtime engine name bytecode version caps in
        instantiated_module name m engine w
          (or_else (compile_module wasmtime bytecode) (wasmtime.instantiate m))

unfoldable pub unload_module : Text → WasmEngine → WasmEngine × Bool
unload_module name engine = unloaded (find name engine.modules)
  where
    unloaded : Option Module → WasmEngine × Bool
    unloaded none = (engine, false)
    unloaded (some m) = (record engine { modules = erase name engine.modules }, true)

unfoldable pub get_module : Text → WasmEngine → Option Module
get_module name engine = find name engine.modules

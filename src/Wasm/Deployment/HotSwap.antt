-- ===== src/Wasm/Deployment/HotSwap.antt =====
-- LoadModule of src/wasm/wasm_engine.cpp: a deployment that fails leaves the deployed modules alone.
use origindb.Prelude.{◌≡◌, ◌≢◌, ◌⊎◌, Option, none, some, Text, [], ◌∷◌, ascii, find, assign}
use origindb.Wasm.Engine.{Module, WasmEngine, Wasmtime, execute}
use origindb.Wasm.Versions.{older}
use origindb.Wasm.Deployment.{Loaded, loaded, rejected, thrown, is_failure, version_gate}

module _ {J W : Type 0} (wasmtime : Wasmtime J W) where
  -- The module that the migration leaves, where it does not fail.
  abbrev pub IsMigrated : Option Module → WasmEngine → Module → W → Module → Type 0
  IsMigrated none engine m w installed = installed ≡ m
  IsMigrated (some previous) engine m w installed =
      (let (m', w', result) =
          execute wasmtime engine m (ascii "__migrate") (previous.version ∷ m.version ∷ []) w in
        (is_failure wasmtime result ≡ none) × (installed ≡ m'))

  -- A module of this bytecode passed the version gate against `previous`, its `__init` did not fail, and
  -- then, where it replaces one, its `__migrate` did not.
  abbrev pub IsInstalled : Text → Option Module → WasmEngine → W → Module → Type 0
  IsInstalled bytecode previous engine w installed =
      (m : Module) × (m.bytecode ≡ bytecode)
      × (version_gate wasmtime previous m ≢ older)
      × (let (m', w', result) = execute wasmtime engine m (ascii "__init") [] w in
          (is_failure wasmtime result ≡ none) × IsMigrated previous engine m' w' installed)

  -- A success puts a module so installed under the name; all else changes no module.
  abbrev pub Swaps : Text → Text → Option Module → WasmEngine → W → WasmEngine × W × Loaded → Type 0
  Swaps name bytecode previous engine w (engine', w', loaded) =
      (m : Module) × (engine'.modules ≡ assign name m engine.modules)
      × IsInstalled bytecode previous engine w m
  Swaps name bytecode previous engine w (engine', w', rejected) = engine'.modules ≡ engine.modules
  Swaps name bytecode previous engine w (engine', w', thrown) = engine'.modules ≡ engine.modules

module _ {J W : Type 0} (wasmtime : Wasmtime J W) (meanwhile : WasmEngine → WasmEngine) where
  -- Refused before the deployed module was looked at, with no module changed.
  abbrev pub IsRefused : WasmEngine → WasmEngine × W × Loaded → Type 0
  IsRefused engine (engine', w', rejected) = engine'.modules ≡ engine.modules
  IsRefused engine (engine', w', _) = ⊥

  abbrev pub Deploys : Text → Text → WasmEngine → W → WasmEngine × W × Loaded → Type 0
  Deploys name bytecode engine w x =
      IsRefused engine x
      ⊎ Swaps wasmtime name bytecode (find name engine.modules) (meanwhile engine) w x

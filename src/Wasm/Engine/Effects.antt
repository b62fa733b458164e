-- ===== src/Wasm/Engine/Effects.antt =====
-- What a reducer run by src/wasm/wasm_engine.cpp changes.
use origindb.Prelude.{
  ℕ, ◌^◌, ◌<◌, ◌≡◌, refl, none, some, Text, List, if◌then◌else◌, arith, ◌⊎◌, inl, inr, Bool-cases,
}
use origindb.Wasm.Host.{HostCall}
use origindb.Wasm.Engine.{
  Module, Invoked, returned, trapped, WasmEngine, Failure, Wasmtime, settle, ended, invoked,
  execute, committed,
}

module _ {J W : Type 0} (wasmtime : Wasmtime J W) where
  -- Nothing changed, or a call that returned no error was committed.
  abbrev pub Changes : Module → Text → List Text → W → W → Type 0
  Changes m reducer_name args w w' =
      (w' ≡ w)
      ⊎ ((status : ℕ) × (call : HostCall J) × (wasmtime.invoke m reducer_name args w
            ≡ returned status call)
          × (status < 2 ^ 31)
          × (w' ≡ (wasmtime.commit call w).0))

  committed-world :
      (call : HostCall J) (status : ℕ) (r : W × Failure)
      → (committed wasmtime call status r).0 ≡ r.0
  committed-world call status (w, none) = refl
  committed-world call status (w, some e) = refl

  settle-Changes :
      (reducer_name : Text) (status : ℕ) (call : HostCall J) (w : W)
      → ((settle wasmtime reducer_name status call w).0 ≡ w)
        ⊎ ((status < 2 ^ 31)
            × ((settle wasmtime reducer_name status call w).0 ≡ (wasmtime.commit call w).0))
  unfolding settle
  settle-Changes reducer_name status call w =
      ground (arith, committed-world call status (wasmtime.commit call w))

  ended-Changes :
      (m : Module) (reducer_name : Text) (args : List Text) (w : W) (r : Invoked J)
      → wasmtime.invoke m reducer_name args w ≡ r
      → Changes m reducer_name args w (ended wasmtime m reducer_name w r).1
  unfolding ended
  ended-Changes m reducer_name args w (trapped trap_msg call) e = inl refl
  ended-Changes m reducer_name args w (returned status call) e =
      elim (settle-Changes reducer_name status call w) [
        | inl same ↦ inl same
        | inr (below, same) ↦ inr (status, call, e, below, same)
      ]

  -- A reducer that traps, that answers an error, that has no handler or that does not run leaves the
  -- storage and the changefeed alone: what a run changes is what the commit of a call that returned with no
  -- error changes.
  pub execute-Changes :
      (engine : WasmEngine) (m : Module) (reducer_name : Text) (args : List Text) (w : W)
      → Changes m reducer_name args w (execute wasmtime engine m reducer_name args w).1
  unfolding execute invoked
  execute-Changes engine m reducer_name args w = elim (Bool-cases engine.shutdown_requested) [
    | inl e ↦ rw e (inl refl)
    | inr e ↦ rw e (instantiation (if m.instantiated then none else wasmtime.instantiate m))
  ]
    where
      instantiation :
          (f : Failure) → Changes m reducer_name args w (invoked wasmtime m reducer_name args w f).1
      instantiation (some e) = inl refl
      instantiation none =
          ended-Changes m reducer_name args w (wasmtime.invoke m reducer_name args w) refl

-- ===== src/Wasm.antt =====
-- src/wasm: the functions that the server gives to WebAssembly modules, and the engine that runs the
-- modules. wasmtime is a parameter.
pub mod Base64
pub mod Guest
pub mod Host
pub mod Scan
pub mod Calls
pub mod Rows
pub mod Commit
pub mod Versions
pub mod Engine
pub mod Deployment
mod Tests

-- ===== src/ModuleStore/Tests.antt =====
-- Runs of the check of a name in src/wasm/module_store.cpp.
use origindb.Prelude.{◌≤◌, ◌≡◌, ◌≢◌, refl, true, false, text_eq, length, All, ascii}
use origindb.ModuleStore.{is_empty, valid_module_name}
use origindb.ModuleStore.Names.{IsPlain, valid_module_name-IsPlain}

valid : valid_module_name (ascii "chat-v1.0") ≡ true
unfolding valid_module_name text_eq
valid = refl

upwards : valid_module_name (ascii "../x") ≡ false
unfolding valid_module_name
upwards = refl

valid_module_name-IsPlain_example :
    (is_empty (ascii "chat-v1.0") ≡ false)
    × (length (ascii "chat-v1.0") ≤ 128)
    × (ascii "chat-v1.0" ≢ ascii ".")
    × (ascii "chat-v1.0" ≢ ascii "..")
    × All IsPlain (ascii "chat-v1.0")
valid_module_name-IsPlain_example = valid_module_name-IsPlain (ascii "chat-v1.0") valid

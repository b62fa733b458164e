-- ===== src/Auth/Tests.antt =====
-- Runs of src/common/auth.cpp.
use origindb.Prelude.{◌≡◌, refl, false, ◌&&◌, ◌||◌, not, text_eq, ascii, arith}
use origindb.Auth.{
  client, admin, AuthManager, check, is_empty, is_client, strip_bearer, constant_time_equals,
  accumulate_diff, bit_or, bit_xor,
}
use origindb.Auth.Grants.{check_lem}

abbrev manager : AuthManager
manager = record { admin_token = ascii "adm"; client_token = ascii "cli" }

check_lem_example : check (ascii "cli") client manager ≡ (
    not (is_empty (ascii "cli"))
    && (text_eq (ascii "cli") manager.admin_token
        || (is_client client && text_eq (ascii "cli") manager.client_token)))
check_lem_example =
    check_lem (ascii "cli") client manager (omega arith, (omega arith, (omega arith, tt)))
      (omega arith, (omega arith, (omega arith, tt)))
      (omega arith, (omega arith, (omega arith, tt)))

-- The client token does not reach the admin scope.
refused : check (ascii "cli") admin manager ≡ false
unfolding check constant_time_equals accumulate_diff bit_or bit_xor
refused = refl

stripped : strip_bearer (ascii "Bearer cli") ≡ ascii "cli"
unfolding strip_bearer text_eq
stripped = refl

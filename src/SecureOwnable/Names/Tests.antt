-- ===== src/SecureOwnable/Names/Tests.antt =====
-- The tables of names at single entries.
use guardian_safe.Prelude.{◌≡◌, refl}
use guardian_safe.SecureOwnable.Names.{get_execution_type}

none_is_standard : get_execution_type "NONE" ≡ 1
unfolding get_execution_type
none_is_standard = refl

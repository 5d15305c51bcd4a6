-- ===== src/SecureOwnable/Names.antt =====
-- The tables of names of `BaseSecureOwnableTest`. A key that every JavaScript object inherits,
-- such as `constructor`, is not looked up.
pub mod Agreement
mod Tests
use guardian_safe.Prelude.{
  ℕ, String, List, [], ◌∷◌, Option, none, some, if◌then◌else◌, str_eq, ◌==◌,
}

abbrev pub ownership_transfer : String
ownership_transfer = "0xb23d8fa2f62c8a954db45521d1249908693b29ffd3d2dab6348898c4198996b2"

abbrev pub broadcaster_update : String
broadcaster_update = "0xae23396f8eb008d2f5f9673f91ccf20bf248201a6e0dbeaf46c421777ad8dc5b"

abbrev pub recovery_update : String
recovery_update = "0x032398090b003ba6aff30213cf16b7307ece6fbd6d969286006538a576526983"

abbrev pub timelock_update : String
timelock_update = "0x06e0fdee0e8a4d2e629ae3d26c7bc6342072096facbcbe06d204d6051d97c50f"

abbrev pub unknown_operation : String
unknown_operation = "0x0000000000000000000000000000000000000000000000000000000000000000"

unfoldable pub get_status_name : ℕ → String
get_status_name status =
    if status == 0
    then "UNDEFINED"
    else if status == 1
    then "PENDING"
    else if status == 2
    then "CANCELLED"
    else if status == 3
    then "COMPLETED"
    else if status == 4
    then "FAILED"
    else if status == 5
    then "REJECTED"
    else "UNKNOWN"

unfoldable pub get_operation_name : String → String
get_operation_name operation_type =
    if str_eq operation_type ownership_transfer
    then "OWNERSHIP_TRANSFER"
    else if str_eq operation_type broadcaster_update
    then "BROADCASTER_UPDATE"
    else if str_eq operation_type recovery_update
    then "RECOVERY_UPDATE"
    else if str_eq operation_type timelock_update
    then "TIMELOCK_UPDATE"
    else "UNKNOWN"

unfoldable pub get_operation_type : String → String
get_operation_type name =
    if str_eq name "OWNERSHIP_TRANSFER"
    then ownership_transfer
    else if str_eq name "BROADCASTER_UPDATE"
    then broadcaster_update
    else if str_eq name "RECOVERY_UPDATE"
    then recovery_update
    else if str_eq name "TIMELOCK_UPDATE"
    then timelock_update
    else unknown_operation

-- `map[name]`
abbrev pub entry : String → List (String × ℕ) → Option ℕ
entry name [] = none
entry name ((key, v) ∷ rest) = if str_eq key name then some v else entry name rest

-- `value || default`: 0 is false too
abbrev pub or_default : Option ℕ → ℕ → ℕ
or_default none default = default
or_default (some v) default = if v == 0 then default else v

abbrev pub action_map : List (String × ℕ)
action_map =
    ("EXECUTE_TIME_DELAY_REQUEST", 0)
    ∷ ("EXECUTE_TIME_DELAY_APPROVE", 1)
    ∷ ("EXECUTE_TIME_DELAY_CANCEL", 2)
    ∷ ("SIGN_META_REQUEST_AND_APPROVE", 3)
    ∷ ("SIGN_META_APPROVE", 4)
    ∷ ("SIGN_META_CANCEL", 5)
    ∷ ("EXECUTE_META_REQUEST_AND_APPROVE", 6)
    ∷ ("EXECUTE_META_APPROVE", 7)
    ∷ ("EXECUTE_META_CANCEL", 8)
    ∷ []

unfoldable pub get_tx_action : String → ℕ
get_tx_action name = or_default (entry name action_map) 0

unfoldable pub get_execution_type : String → ℕ
get_execution_type name =
    or_default (entry name (("NONE", 0) ∷ ("STANDARD", 1) ∷ ("RAW", 2) ∷ [])) 1

-- ===== src/SecureOwnable/Names/Agreement.antt =====
-- The tables of the tests against the enumerations of the library.
use guardian_safe.Prelude.{
  String, ◌≡◌, refl, Bool, false, true, List, [], ◌∷◌, if◌then◌else◌, str_eq, eq_iff, sym,
  Bool-cases, inl, inr,
}
use guardian_safe.Text.{includes}
use guardian_safe.StateAbstraction.Enums.{
  TxStatus, undefined, TxAction, execute_time_delay_request, execute_update_payment, status_code,
  status_name, action_code, action_name,
}
use guardian_safe.SecureOwnable.Names.{
  get_status_name, get_operation_name, get_operation_type, get_tx_action,
}

-- The name that the tests print for the number of a status is the name of that status.
pub get_status_name-status_code : (s : TxStatus) → get_status_name (status_code s) ≡ status_name s
unfolding get_status_name status_code status_name
get_status_name-status_code undefined = refl
get_status_name-status_code _ = refl

-- The actions that the table of the tests has.
unfoldable pub has_entry : TxAction → Bool
has_entry execute_update_payment = false
has_entry _ = true

-- The tests pass the library's number for the name of every action but
-- `EXECUTE_UPDATE_PAYMENT`, for which they pass that of `EXECUTE_TIME_DELAY_REQUEST`.
pub get_tx_action-action_name :
    (a : TxAction)
    → get_tx_action (action_name a)
      ≡ (if has_entry a then action_code a else action_code execute_time_delay_request)
unfolding get_tx_action action_name action_code has_entry
get_tx_action-action_name execute_update_payment = refl
get_tx_action-action_name _ = refl

abbrev pub operation_names : List String
operation_names =
    "OWNERSHIP_TRANSFER" ∷ "BROADCASTER_UPDATE" ∷ "RECOVERY_UPDATE" ∷ "TIMELOCK_UPDATE" ∷ []

-- The operation type of a name has that name, and that of any other text has the name `UNKNOWN`.
pub get_operation_name-get_operation_type :
    (name : String)
    → get_operation_name (get_operation_type name)
      ≡ (if includes name operation_names then name else "UNKNOWN")
unfolding get_operation_name get_operation_type
get_operation_name-get_operation_type name = elim (Bool-cases (str_eq name "OWNERSHIP_TRANSFER")) [
  | inl e ↦ rw e (sym ((eq_iff _ _).0 e))
  | inr e₁ ↦ elim (Bool-cases (str_eq name "BROADCASTER_UPDATE")) [
    | inl e ↦ rw (e₁, e) (sym ((eq_iff _ _).0 e))
    | inr e₂ ↦ elim (Bool-cases (str_eq name "RECOVERY_UPDATE")) [
      | inl e ↦ rw (e₁, e₂, e) (sym ((eq_iff _ _).0 e))
      | inr e₃ ↦ elim (Bool-cases (str_eq name "TIMELOCK_UPDATE")) [
        | inl e ↦ rw (e₁, e₂, e₃, e) (sym ((eq_iff _ _).0 e))
        | inr e ↦ rw (e₁, e₂, e₃, e)
      ]
    ]
  ]
]

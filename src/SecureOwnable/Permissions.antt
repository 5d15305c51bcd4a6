-- ===== src/SecureOwnable/Permissions.antt =====
-- `getRoleHash` and `validateWorkflowPermissions`.
pub mod Granted
use guardian_safe.Prelude.{
  ℕ, String, Bool, true, false, Option, none, some, List, [], ◌∷◌, ◌==◌, if◌then◌else◌, find, every,
  any,
}
use guardian_safe.Text.{◌<>◌, same_address, codes, lower, codes_eq}
use guardian_safe.Script.{Result, Script, pure, throw, try_catch, ◌>>=◌, ◌>>◌}
use guardian_safe.SecureOwnable.Names.{unknown_operation}
use guardian_safe.SecureOwnable.Session.{
  FunctionPermission, Node, Session, on_node, call_contract_method,
}

pub record Permission : Type 0 where
  pub role : String
  pub function_selector : String
  pub expected_actions : List ℕ

module _ (keccak256 : String → String) where
  unfoldable pub get_role_hash : String → String
  get_role_hash name =
      if codes_eq (lower name) (codes "owner")
      then keccak256 "OWNER_ROLE"
      else if codes_eq (lower name) (codes "broadcaster")
      then keccak256 "BROADCASTER_ROLE"
      else if codes_eq (lower name) (codes "recovery")
      then keccak256 "RECOVERY_ROLE"
      else unknown_operation

-- `rolePermissions.find(…)`
abbrev pub function_permission : String → List FunctionPermission → Option FunctionPermission
function_permission selector permissions =
    find (λ p. same_address p.function_selector selector) permissions

-- `expectedActions.every(a => grantedActions.includes(a))`
abbrev pub grants : FunctionPermission → List ℕ → Bool
grants p actions = every (λ a. any (λ g. g == a) p.granted_actions) actions

-- the tests on what was read; the two errors carry the names of the permission
unfoldable pub check_permission :
    {S : Type 0} → Permission → Option FunctionPermission → Script S (Unit {0})
check_permission q none =
    throw ("Function " <> q.function_selector <> " not found in " <> q.role <> " role permissions")
check_permission q (some p) =
    if grants p q.expected_actions
    then pure tt
    else throw (q.role <> " missing required permissions for " <> q.function_selector)

abbrev pub timeout_error : String
timeout_error = "getRolePermission timeout after 5 seconds"

module _ {N : Type 0} (node : Node N) (keccak256 : String → String) where
  -- `Promise.race` of the call and of a timer
  abbrev pub read_permissions : String → Script (Session N) (List FunctionPermission)
  read_permissions hash = do
    late ← on_node node.timed_out
    if late then throw timeout_error else call_contract_method (node.get_role_permission hash) none

  unfoldable pub validate_permission : Permission → Script (Session N) (Unit {0})
  validate_permission q = do
    permissions ← read_permissions (get_role_hash keccak256 q.role)
    check_permission q (function_permission q.function_selector permissions)

  unfoldable pub validate_workflow_permissions : List Permission → Script (Session N) (Unit {0})
  validate_workflow_permissions [] = pure tt
  validate_workflow_permissions (q ∷ qs) = do
    validate_permission q
    validate_workflow_permissions qs

-- ===== src/StateAbstraction/Roles.antt =====
-- Roles: their creation, their wallets, and what they permit.
pub mod Changes
pub mod Wallets
pub mod Permitted
use guardian_safe.Prelude.{
  ℕ, ◌+◌, ◌-◌, String, Bool, true, false, not, ◌&&◌, ◌||◌, Option, none, some, List, [], ◌∷◌, ◌++◌,
  length, any, every, ltb, leb, ◌==◌, if◌then◌else◌,
}
use guardian_safe.StateAbstraction.Enums.{
  TxAction, action_code, sign_meta_request_and_approve, sign_meta_approve, sign_meta_cancel,
  execute_meta_request_and_approve, execute_meta_approve, execute_meta_cancel,
}
use guardian_safe.StateAbstraction.Revert.{
  Call, pure, gets, modify, require, ◌>>=◌, ◌>>◌, invalid_address, role_name_empty,
  role_already_exists, role_wallet_limit_reached, wallet_already_in_role, old_wallet_not_found,
  cannot_remove_last_wallet, action_not_supported, function_does_not_exist,
  conflicting_meta_tx_permissions, function_permission_exists,
}
use guardian_safe.StateAbstraction.Sets.{EnumerableSet}
use guardian_safe.StateAbstraction.Types.{
  FunctionPermission, Role, FunctionSchema, SecureOperationState, update,
}

abbrev pub action_eq : TxAction → TxAction → Bool
action_eq a b = action_code a == action_code b

abbrev pub includes_action : TxAction → List TxAction → Bool
includes_action action actions = any (λ a. action_eq a action) actions

abbrev pub grants : FunctionPermission → ℕ → TxAction → Bool
grants p selector action =
    p.function_selector == selector && includes_action action p.granted_actions

abbrev pub is_meta_sign : TxAction → Bool
is_meta_sign a =
    action_eq a sign_meta_request_and_approve
    || (action_eq a sign_meta_approve || action_eq a sign_meta_cancel)

abbrev pub is_meta_execute : TxAction → Bool
is_meta_execute a =
    action_eq a execute_meta_request_and_approve
    || (action_eq a execute_meta_approve || action_eq a execute_meta_cancel)

module _ (sets : EnumerableSet) where
  abbrev pub State : Type 0
  State = SecureOperationState sets.Set

  unfoldable pub role_has_action_permission : State → ℕ → ℕ → TxAction → Bool
  role_has_action_permission self role_hash selector action =
      any (λ p. grants p selector action) (self.roles role_hash).function_permissions

  abbrev pub is_member : State → ℕ → ℕ → Bool
  is_member self wallet role_hash = sets.contains wallet (self.roles role_hash).authorized_wallets

  unfoldable pub has_action_permission : State → ℕ → ℕ → TxAction → Bool
  has_action_permission self wallet selector action =
      any (λ r. is_member self wallet r && role_has_action_permission self r selector action)
        (sets.values self.supported_roles_set)

  unfoldable pub has_any_role : State → ℕ → Bool
  has_any_role self wallet =
      any (λ r. is_member self wallet r) (sets.values self.supported_roles_set)

  unfoldable pub is_action_supported_by_function : State → ℕ → TxAction → Bool
  is_action_supported_by_function self selector action =
      let schema = self.functions selector in
      not (schema.function_selector == 0) && includes_action action schema.supported_actions

  abbrev pub set_role : ℕ → Role sets.Set → State → State
  set_role role_hash role self = record self { roles = update self.roles role_hash role }

  -- `role_hash` is keccak256(bytes(roleName))
  unfoldable pub create_role : String → ℕ → ℕ → Bool → Call State (Unit {0})
  create_role name role_hash max_wallets is_protected = do
    self ← gets (λ s. s)
    require (not ((self.roles role_hash).role_hash == role_hash)) role_already_exists
    modify (λ s.
        record (set_role role_hash
          (record (s.roles role_hash) {
            role_name = name;
            role_hash = role_hash;
            max_wallets = max_wallets;
            wallet_count = 0;
            is_protected = is_protected;
          })
          s) { supported_roles_set = sets.add role_hash s.supported_roles_set })

  unfoldable pub assign_wallet : ℕ → ℕ → Call State (Unit {0})
  assign_wallet role_hash wallet = do
    require (not (wallet == 0)) (invalid_address wallet)
    role ← gets (λ s. s.roles role_hash)
    require (not (role.role_hash == 0)) role_name_empty
    require (ltb (length (sets.values role.authorized_wallets)) role.max_wallets)
        (role_wallet_limit_reached (length (sets.values role.authorized_wallets)) role.max_wallets)
    require (not (sets.contains wallet role.authorized_wallets)) (wallet_already_in_role wallet)
    modify (
        set_role role_hash (record role {
          authorized_wallets = sets.add wallet role.authorized_wallets;
          wallet_count = length (sets.values (sets.add wallet role.authorized_wallets));
        }))

  unfoldable pub update_assigned_wallet : ℕ → ℕ → ℕ → Call State (Unit {0})
  update_assigned_wallet role_hash new_wallet old_wallet = do
    role ← gets (λ s. s.roles role_hash)
    require (not (role.role_hash == 0)) role_name_empty
    require (not (new_wallet == 0)) (invalid_address new_wallet)
    require (sets.contains old_wallet role.authorized_wallets) (old_wallet_not_found old_wallet)
    if old_wallet == new_wallet
        then pure tt
        else modify (
            set_role role_hash (record role {
              authorized_wallets =
                  sets.add new_wallet (sets.remove old_wallet role.authorized_wallets);
            }))

  unfoldable pub revoke_wallet : ℕ → ℕ → Call State (Unit {0})
  revoke_wallet role_hash wallet = do
    role ← gets (λ s. s.roles role_hash)
    require (not (role.role_hash == 0)) role_name_empty
    require (sets.contains wallet role.authorized_wallets) (old_wallet_not_found wallet)
    require (ltb 1 (length (sets.values role.authorized_wallets)))
        (cannot_remove_last_wallet wallet)
    modify (
        set_role role_hash (record role {
          authorized_wallets = sets.remove wallet role.authorized_wallets;
          wallet_count = length (sets.values (sets.remove wallet role.authorized_wallets));
        }))

  unfoldable pub add_function_to_role : ℕ → FunctionPermission → Call State (Unit {0})
  add_function_to_role role_hash p = do
    self ← gets (λ s. s)
    require (sets.contains role_hash self.supported_roles_set) role_name_empty
    require ((self.functions p.function_selector).function_selector == p.function_selector)
        (function_does_not_exist p.function_selector)
    require
        (every (λ a. is_action_supported_by_function self p.function_selector a) p.granted_actions)
        action_not_supported
    require (not (any is_meta_sign p.granted_actions && any is_meta_execute p.granted_actions))
        (conflicting_meta_tx_permissions p.function_selector)
    require
        (not (
          any (λ q. q.function_selector == p.function_selector)
            (self.roles role_hash).function_permissions))
        (function_permission_exists p.function_selector)
    modify (
        set_role role_hash (record (self.roles role_hash) {
          function_permissions = (self.roles role_hash).function_permissions ++ p ∷ [];
        }))

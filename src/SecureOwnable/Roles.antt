-- ===== src/SecureOwnable/Roles.antt =====
-- `discoverRoleAssignments`, `getRoleWallet` and `getRoleWalletObject`.
pub mod Discovery
use guardian_safe.Prelude.{String, Bool, Option, none, some, List, [], ◌∷◌, if◌then◌else◌}
use guardian_safe.Text.{◌<>◌, same_address, codes, lower, codes_eq}
use guardian_safe.Script.{Result, Script, pure, throw, gets, modify, ◌>>=◌, ◌>>◌}
use guardian_safe.Accounts.{Wallet}
use guardian_safe.SecureOwnable.Session.{
  Node, RoleWallets, Session, prefix_errors, call_contract_method,
}

-- one round of the loop over `Object.entries(this.wallets)`
unfoldable pub serve_roles : String → String → String → RoleWallets → Wallet → RoleWallets
serve_roles owner broadcaster recovery rw w = record {
  owner = if same_address w.address owner then some w else rw.owner;
  broadcaster = if same_address w.address broadcaster then some w else rw.broadcaster;
  recovery = if same_address w.address recovery then some w else rw.recovery;
}

unfoldable pub map_wallets :
    String → String → String → List (String × Wallet) → RoleWallets → RoleWallets
unfolding serve_roles
map_wallets owner broadcaster recovery [] rw = rw
map_wallets owner broadcaster recovery ((name, w) ∷ ws) rw =
    map_wallets owner broadcaster recovery ws (serve_roles owner broadcaster recovery rw w)

-- `this.roleWallets[roleName.toLowerCase()]`, for the names of roles
abbrev pub role_wallet : String → RoleWallets → Option Wallet
role_wallet name rw =
    if codes_eq (lower name) (codes "owner")
    then rw.owner
    else if codes_eq (lower name) (codes "broadcaster")
    then rw.broadcaster
    else if codes_eq (lower name) (codes "recovery")
    then rw.recovery
    else none

abbrev pub found_wallet : {S : Type 0} → String → Option Wallet → Script S Wallet
found_wallet name none = throw ("No wallet found for role: " <> name)
found_wallet name (some w) = pure w

module _ {N : Type 0} where
  unfoldable pub discover_role_assignments : Node N → Script (Session N) (Unit {0})
  discover_role_assignments node = prefix_errors "Role discovery failed: " (do
    owner ← call_contract_method node.owner none
    modify (λ s. record s { roles = record s.roles { owner = some owner } })
    broadcaster ← call_contract_method node.get_broadcaster none
    modify (λ s. record s { roles = record s.roles { broadcaster = some broadcaster } })
    recovery ← call_contract_method node.get_recovery none
    modify (λ s. record s { roles = record s.roles { recovery = some recovery } })
    modify (λ s. record s {
      role_wallets = map_wallets owner broadcaster recovery s.wallets s.role_wallets;
    }))

  unfoldable pub get_role_wallet_object : String → Script (Session N) Wallet
  get_role_wallet_object name = do
    wallet ← gets (λ s. role_wallet name s.role_wallets)
    found_wallet name wallet

  unfoldable pub get_role_wallet : String → Script (Session N) String
  unfolding get_role_wallet_object
  get_role_wallet name = do wallet ← get_role_wallet_object name; pure wallet.private_key

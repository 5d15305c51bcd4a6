-- ===== src/Vault/Roles.antt =====
-- `loadRoleAssignments`.
pub mod Fallback
use guardian_safe.Prelude.{String, Option, none, some}
use guardian_safe.Script.{Script, pure, modify, try_catch, ◌>>=◌, ◌>>◌}
use guardian_safe.SecureOwnable.Roles.{map_wallets}
use guardian_safe.Vault.Session.{VaultNode, VaultSession, owner_address, call_method}

module _ {N : Type 0} (node : VaultNode N) where
  -- `this.callMethod(method, [], { from: this.wallets.owner.address })`
  abbrev pub call_as_owner : {A : Type 0} → (String → Script N A) → Script (VaultSession N) A
  call_as_owner method = do from ← owner_address; call_method method (some from)

  -- The loop over the wallets is that of `discoverRoleAssignments`.
  unfoldable pub load_role_assignments : Script (VaultSession N) (Unit {0})
  load_role_assignments = do
    owner ← call_as_owner node.owner
    modify (λ s. record s { roles = record s.roles { owner = some owner } })
    broadcaster ← try_catch (call_as_owner node.get_broadcaster) (λ _. pure owner)
    modify (λ s. record s { roles = record s.roles { broadcaster = some broadcaster } })
    recovery ← try_catch (call_as_owner node.get_recovery) (λ _. pure owner)
    modify (λ s. record s { roles = record s.roles { recovery = some recovery } })
    modify (λ s. record s {
      role_wallets = map_wallets owner broadcaster recovery s.wallets s.role_wallets;
    })

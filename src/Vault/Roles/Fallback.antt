-- ===== src/Vault/Roles/Fallback.antt =====
-- The roles of a vault test, where the contract may lack two of the methods.
use guardian_safe.Prelude.{String, ◌≡◌, refl, some, arith, str_eq, Bool-cases, inl, inr}
use guardian_safe.Script.{Result, ok, err, Script, pure, try_catch}
use guardian_safe.Accounts.{Wallet}
use guardian_safe.SecureOwnable.Session.{or_wallet, wallet_named}
use guardian_safe.SecureOwnable.Roles.Discovery.{last_at, map_wallets-last_at}
use guardian_safe.Vault.Session.{VaultNode, VaultSession, call_method}
use guardian_safe.Vault.Roles.{load_role_assignments, call_as_owner}

abbrev pub answer_or : Result String → String → String
answer_or (ok address) owner = address
answer_or (err message) owner = owner

module _ {N : Type 0} (node : VaultNode N) where
  call_as_owner_lem :
      {A : Type 0} (method : String → Script N A) (s : VaultSession N) (w : Wallet)
      → wallet_named "owner" s.wallets ≡ some w
      → call_as_owner node method s
        ≡ ((method w.address s.node).0, record s { node = (method w.address s.node).1 })
  unfolding call_method
  call_as_owner_lem method s w e = elim (Bool-cases (str_eq w.address "")) [
    | inl empty ↦ ground arith
    | inr given ↦ ground arith
  ]

  or_owner :
      (method : String → Script N String) (owner : String) (r : Result String) (n : N)
      (s : VaultSession N) (w : Wallet)
      → wallet_named "owner" s.wallets ≡ some w
      → method w.address s.node ≡ (r, n)
      → try_catch (call_as_owner node method) (λ _. pure owner) s
        ≡ (ok (answer_or r owner), record s { node = n })
  or_owner method owner (ok address) n s w e h = rw (call_as_owner_lem method s w e) (rw h refl)
  or_owner method owner (err message) n s w e h = rw (call_as_owner_lem method s w e) (rw h refl)

  -- If the test has an owner's wallet and the contract names its owner, then whatever the calls for
  -- the broadcaster and the recovery do, the roles are loaded: where a call failed the owner has the
  -- role, a wallet at the address of a role, the last one if there are several, serves it, and a role
  -- without such a wallet keeps the one that it had.
  pub load_role_assignments_lem :
      (s : VaultSession N) (w : Wallet) (owner : String) (broadcaster recovery : Result String)
      (n₁ n₂ n₃ : N)
      → wallet_named "owner" s.wallets ≡ some w
      → node.owner w.address s.node ≡ (ok owner, n₁)
      → node.get_broadcaster w.address n₁ ≡ (broadcaster, n₂)
      → node.get_recovery w.address n₂ ≡ (recovery, n₃)
      → load_role_assignments node s ≡ (
        ok tt,
        record s {
          node = n₃;
          roles = record {
            owner = some owner;
            broadcaster = some (answer_or broadcaster owner);
            recovery = some (answer_or recovery owner);
          };
          role_wallets = record {
            owner = or_wallet (last_at owner s.wallets) s.role_wallets.owner;
            broadcaster =
                or_wallet
                  (last_at (answer_or broadcaster owner) s.wallets)
                  s.role_wallets.broadcaster;
            recovery =
                or_wallet (last_at (answer_or recovery owner) s.wallets) s.role_wallets.recovery;
          };
        },
      )
  unfolding load_role_assignments
  load_role_assignments_lem s w owner broadcaster recovery n₁ n₂ n₃ e p q r =
      let s₁ : VaultSession N = record s {
        node = n₁;
        roles = record s.roles { owner = some owner };
      } in
      let s₂ : VaultSession N = record s₁ {
        node = n₂;
        roles = record s₁.roles { broadcaster = some (answer_or broadcaster owner) };
      } in
      ground (
        arith,
        call_as_owner_lem node.owner s w e,
        or_owner node.get_broadcaster owner broadcaster n₂ s₁ w e q,
        or_owner node.get_recovery owner recovery n₃ s₂ w e r,
        map_wallets-last_at owner (answer_or broadcaster owner) (answer_or recovery owner) s.wallets
            s.role_wallets,
      )

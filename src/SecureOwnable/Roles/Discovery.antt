-- ===== src/SecureOwnable/Roles/Discovery.antt =====
-- Which wallet serves which role after discovery.
use guardian_safe.Prelude.{
  String, ◌≡◌, refl, Option, none, some, List, [], ◌∷◌, if◌then◌else◌, arith,
}
use guardian_safe.Text.{same_address}
use guardian_safe.Script.{ok, Script}
use guardian_safe.Accounts.{Wallet}
use guardian_safe.SecureOwnable.Session.{
  Node, RoleWallets, Session, call_contract_method, or_wallet, wallet_named,
}
use guardian_safe.SecureOwnable.Roles.{serve_roles, map_wallets, discover_role_assignments}

-- The last wallet of the list at an address, letters compared without their case.
unfoldable pub last_at : String → List (String × Wallet) → Option Wallet
last_at address [] = none
last_at address ((name, w) ∷ ws) =
    or_wallet (last_at address ws) (if same_address w.address address then some w else none)

or_wallet_assoc :
    (a b c : Option Wallet) → or_wallet a (or_wallet b c) ≡ or_wallet (or_wallet a b) c
or_wallet_assoc none b c = refl
or_wallet_assoc (some w) b c = refl

pub map_wallets-last_at :
    (owner broadcaster recovery : String) (ws : List (String × Wallet)) (rw : RoleWallets)
    → map_wallets owner broadcaster recovery ws rw ≡ record {
      owner = or_wallet (last_at owner ws) rw.owner;
      broadcaster = or_wallet (last_at broadcaster ws) rw.broadcaster;
      recovery = or_wallet (last_at recovery ws) rw.recovery;
    }
unfolding map_wallets last_at
map_wallets-last_at owner broadcaster recovery [] rw = refl
map_wallets-last_at owner broadcaster recovery ((name, w) ∷ ws) rw = ground (
  arith,
  map_wallets-last_at owner broadcaster recovery ws (serve_roles owner broadcaster recovery rw w),
)

or_wallet-none : (a : Option Wallet) → or_wallet a none ≡ a
or_wallet-none none = refl
or_wallet-none (some w) = refl

abbrev pub empty : RoleWallets
empty = record { owner = none; broadcaster = none; recovery = none }

module _ {N : Type 0} (node : Node N) where
  call_lem :
      {A : Type 0} (method : String → Script N A) (s : Session N) (w : Wallet) (a : A) (n : N)
      → s.role_wallets ≡ empty
      → wallet_named "wallet1" s.wallets ≡ some w
      → method w.address s.node ≡ (ok a, n)
      → call_contract_method method none s ≡ (ok a, record s { node = n })
  unfolding call_contract_method
  call_lem method s w a n e h q = ground arith

  -- If a test that has no wallet for a role yet, but a `wallet1`, asks the contract for its owner,
  -- broadcaster and recovery, and these calls return, then discovery returns: the roles are the
  -- three answers, the wallet of each role is the last of the test's wallets at that address, or
  -- none, and but for these and the node nothing has changed.
  pub discover_role_assignments_lem :
      (s : Session N) (w : Wallet) (owner broadcaster recovery : String) (n₁ n₂ n₃ : N)
      → s.role_wallets ≡ empty
      → wallet_named "wallet1" s.wallets ≡ some w
      → node.owner w.address s.node ≡ (ok owner, n₁)
      → node.get_broadcaster w.address n₁ ≡ (ok broadcaster, n₂)
      → node.get_recovery w.address n₂ ≡ (ok recovery, n₃)
      → discover_role_assignments node s ≡ (
        ok tt,
        record s {
          node = n₃;
          roles = record {
            owner = some owner;
            broadcaster = some broadcaster;
            recovery = some recovery;
          };
          role_wallets = record {
            owner = last_at owner s.wallets;
            broadcaster = last_at broadcaster s.wallets;
            recovery = last_at recovery s.wallets;
          };
        },
      )
  unfolding discover_role_assignments
  discover_role_assignments_lem s w owner broadcaster recovery n₁ n₂ n₃ e h p q r =
      let s₁ : Session N = record s { node = n₁; roles = record s.roles { owner = some owner } } in
      let s₂ : Session N = record s₁ {
        node = n₂;
        roles = record s₁.roles { broadcaster = some broadcaster };
      } in
      ground (
        arith,
        call_lem node.owner s w owner n₁ e h p,
        call_lem node.get_broadcaster s₁ w broadcaster n₂ e h q,
        call_lem node.get_recovery s₂ w recovery n₃ e h r,
        map_wallets-last_at owner broadcaster recovery s.wallets s.role_wallets,
        or_wallet-none (last_at owner s.wallets),
        or_wallet-none (last_at broadcaster s.wallets),
        or_wallet-none (last_at recovery s.wallets),
      )

-- ===== src/OwnableSuites/Recovery.antt =====
-- scripts/sanity/secure-ownable/recovery-update-tests.js: the class `RecoveryUpdateTests`. Whether
-- the contract has the two functions is printed only.
use guardian_safe.Prelude.{String, not, Option, none, some, if◌then◌else◌}
use guardian_safe.Text.{◌<>◌, same_address}
use guardian_safe.Script.{Script, pure, gets, modify, ◌>>=◌, ◌>>◌}
use guardian_safe.Accounts.{Wallet}
use guardian_safe.SecureOwnable.Session.{
  update_recovery_request_and_approve, Node, Session, wallet_named, address_of,
  call_contract_method,
}
use guardian_safe.SecureOwnable.Pending.{check_pending_transactions}
use guardian_safe.SecureOwnable.Run.{assert_test}
use guardian_safe.OwnableSuites.{SuiteNode}
use guardian_safe.OwnableSuites.Wallets.{find_unused_wallet_for_recovery}
use guardian_safe.OwnableSuites.MetaTx.{sign_and_send_new}

module _ {N : Type 0} (node : Node N) (suite : SuiteNode N) where
  -- this.roleWallets.recovery = …
  abbrev pub recovery_wallet : Option Wallet → Script (Session N) (Unit {0})
  recovery_wallet wallet =
      modify (λ s. record s { role_wallets = record s.role_wallets { recovery = wallet } })

  -- Of the wallets of the tests only wallet4 and wallet3 are recognized.
  unfoldable pub follow_recovery : String → Script (Session N) (Unit {0})
  follow_recovery new_recovery = do
    wallet4 ← gets (λ s. wallet_named "wallet4" s.wallets)
    address4 ← address_of wallet4
    if same_address new_recovery address4 then recovery_wallet wallet4 else (do
      wallet3 ← gets (λ s. wallet_named "wallet3" s.wallets)
      address3 ← address_of wallet3
      if same_address new_recovery address3 then recovery_wallet wallet3 else pure tt)

  unfoldable pub test_recovery_change : String → String → Script (Session N) (Unit {0})
  test_recovery_change new_recovery description = do
    options ← call_contract_method (suite.update_recovery_execution_options new_recovery) none
    sign_and_send_new node suite "0x2aa09cf6" "RECOVERY_UPDATE" update_recovery_request_and_approve
        description options
    updated_recovery ← call_contract_method node.get_recovery none
    assert_test (same_address updated_recovery new_recovery)
        ("Recovery address updated to " <> new_recovery)
    modify (λ s. record s { roles = record s.roles { recovery = some updated_recovery } })
    follow_recovery new_recovery

  unfoldable pub test_recovery_update : Script (Session N) (Unit {0})
  test_recovery_update = do
    printed ← call_contract_method node.get_recovery none
    pending_check ← check_pending_transactions node
    owner ← call_contract_method node.owner none
    current_recovery ← call_contract_method node.get_recovery none
    if not (same_address current_recovery owner)
        then (do
          new_recovery ← find_unused_wallet_for_recovery current_recovery
          test_recovery_change new_recovery "unused wallet"
          test_recovery_change current_recovery "original recovery")
        else (do
          new_recovery ← find_unused_wallet_for_recovery current_recovery
          test_recovery_change new_recovery "unused wallet")

  abbrev pub execute_recovery_tests : Script (Session N) (Unit {0})
  execute_recovery_tests = test_recovery_update

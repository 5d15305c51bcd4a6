-- ===== src/OwnableSuites/Ownership.antt =====
-- scripts/sanity/secure-ownable/ownership-transfer-tests.js: the steps of the class
-- `OwnershipTransferTests`.
use guardian_safe.Prelude.{ℕ, String, Option, none, some, List, [], ◌∷◌, ◌==◌}
use guardian_safe.Text.{same_address}
use guardian_safe.Script.{Script, pure, throw, gets, modify, ◌>>=◌, ◌>>◌}
use guardian_safe.Accounts.{Wallet}
use guardian_safe.SecureOwnable.Session.{
  transfer_ownership_cancellation, transfer_ownership_delayed_approval,
  transfer_ownership_cancellation_with_meta_tx, transfer_ownership_approval_with_meta_tx,
  update_recovery_request_and_approve, Node, Session, call_contract_method, send_transaction,
}
use guardian_safe.SecureOwnable.Roles.{get_role_wallet_object}
use guardian_safe.SecureOwnable.Pending.{check_pending_transactions}
use guardian_safe.SecureOwnable.Permissions.{Permission, validate_workflow_permissions}
use guardian_safe.SecureOwnable.Run.{assert_test}
use guardian_safe.OwnableSuites.{SuiteNode}
use guardian_safe.OwnableSuites.Wallets.{find_unused_wallet_for_recovery, find_wallet_by_address}
use guardian_safe.OwnableSuites.Requests.{
  create_ownership_request, asserted, ownership_tx_record, cleanup_pending_transactions,
}
use guardian_safe.OwnableSuites.MetaTx.{
  new_tx_params, meta_tx_params, sign_by_owner, send_by_broadcaster, sign_and_send,
  wait_for_release,
}

abbrev pub permission : String → String → ℕ → Permission
permission role selector action = record {
  role = role;
  function_selector = selector;
  expected_actions = action ∷ [];
}

abbrev pub undefined_case : String
undefined_case = "Cannot read properties of undefined (reading 'toLowerCase')"

module _ {N : Type 0} (node : Node N) (suite : SuiteNode N) where
  abbrev validate : List Permission → Script (Session N) (Unit {0})
  validate permissions = validate_workflow_permissions node suite.web3.keccak256 permissions

  -- The transaction is read by the wallet that is given, or by the default one.
  abbrev pub assert_status : ℕ → String → Option Wallet → ℕ → Script (Session N) (Unit {0})
  assert_status status message wallet id = do
    t ← call_contract_method (node.get_transaction id) wallet
    assert_test (t.status == status) message

  unfoldable pub test_step1_create_ownership_request : Script (Session N) (Unit {0})
  test_step1_create_ownership_request = do
    validate (permission "recovery" "0x572be39b" 0 ∷ [])
    pending_check ← check_pending_transactions node
    id ← ownership_tx_record node suite pending_check
    assert_status 1 "Transaction is pending" none id

  unfoldable pub test_step2_meta_cancel : Script (Session N) (Unit {0})
  test_step2_meta_cancel = do
    validate (permission "owner" "0x1ef7c2ec" 5 ∷ permission "broadcaster" "0x1ef7c2ec" 8 ∷ [])
    pending_check ← check_pending_transactions node
    id ← ownership_tx_record node suite pending_check
    sign_and_send node suite suite.contract "0x1ef7c2ec" "SIGN_META_CANCEL"
        transfer_ownership_cancellation_with_meta_tx id
    assert_status 2 "Transaction cancelled successfully" none id

  -- what steps 3, 5 and 9 do
  unfoldable pub test_create_new_request : Script (Session N) (Unit {0})
  test_create_new_request = do
    pending_check ← check_pending_transactions node
    id ←
        asserted node suite "New ownership transfer request created"
          (create_ownership_request node suite)
    assert_status 1 "Transaction is pending" none id

  unfoldable pub test_step4_time_delay_cancel : Script (Session N) (Unit {0})
  test_step4_time_delay_cancel = do
    validate (permission "recovery" "0x9d8f6f90" 2 ∷ [])
    pending_check ← check_pending_transactions node
    id ← ownership_tx_record node suite pending_check
    wait_for_release node suite 10 id
    recovery ← get_role_wallet_object "recovery"
    send_transaction node (transfer_ownership_cancellation id) recovery
    assert_status 2 "Transaction cancelled successfully" none id

  unfoldable pub test_step6_meta_approve : Script (Session N) (Unit {0})
  test_step6_meta_approve = do
    validate (permission "owner" "0xb51ff5ce" 4 ∷ permission "broadcaster" "0xb51ff5ce" 7 ∷ [])
    pending_check ← check_pending_transactions node
    id ← ownership_tx_record node suite pending_check
    sign_and_send node suite suite.contract "0xb51ff5ce" "SIGN_META_APPROVE"
        transfer_ownership_approval_with_meta_tx id
    recovery ← get_role_wallet_object "recovery"
    assert_status 3 "Transaction completed successfully" (some recovery) id

  abbrev pub role_address : Option String → Script (Session N) String
  role_address none = throw undefined_case
  role_address (some address) = pure address

  -- what steps 7 and 11 do, which differ in the message
  unfoldable pub test_verify_ownership_change : String → Script (Session N) (Unit {0})
  test_verify_ownership_change message = do
    current_owner ← call_contract_method node.owner none
    known ← gets (λ s. s.roles.recovery)
    recovery ← role_address known
    assert_test (same_address current_owner recovery) message
    modify (λ s. record s {
      roles = record s.roles { owner = some current_owner };
      role_wallets = record s.role_wallets { owner = s.role_wallets.recovery };
    })

  unfoldable pub test_step8_update_recovery_address : Script (Session N) (Unit {0})
  test_step8_update_recovery_address = do
    current_recovery ← call_contract_method node.get_recovery none
    new_recovery ← find_unused_wallet_for_recovery current_recovery
    options ← call_contract_method (suite.update_recovery_execution_options new_recovery) none
    params ← meta_tx_params node suite "0x2aa09cf6" "SIGN_META_REQUEST_AND_APPROVE"
    owner ← get_role_wallet_object "owner"
    unsigned_meta_tx ←
        call_contract_method
          (suite.generate_unsigned_meta_transaction_for_new
            (new_tx_params "RECOVERY_UPDATE" owner.address suite.contract_address options) params)
          none
    signed ← sign_by_owner node suite suite.contract unsigned_meta_tx
    send_by_broadcaster node suite update_recovery_request_and_approve unsigned_meta_tx signed
    modify (λ s. record s { roles = record s.roles { recovery = some new_recovery } })
    wallet ← find_wallet_by_address new_recovery
    modify (λ s. record s { role_wallets = record s.role_wallets { recovery = some wallet } })

  unfoldable pub test_step10_time_delay_approve : Script (Session N) (Unit {0})
  test_step10_time_delay_approve = do
    validate (permission "owner" "0x6cd71b38" 1 ∷ [])
    pending_check ← check_pending_transactions node
    id ← ownership_tx_record node suite pending_check
    wait_for_release node suite 10 id
    owner ← get_role_wallet_object "owner"
    send_transaction node (transfer_ownership_delayed_approval id) owner
    recovery ← get_role_wallet_object "recovery"
    assert_status 3 "Transaction completed successfully" (some recovery) id

  abbrev cleanup : Script (Session N) (Unit {0})
  cleanup = cleanup_pending_transactions node suite "recovery" transfer_ownership_cancellation

  abbrev test_step3_create_new_request : Script (Session N) (Unit {0})
  test_step3_create_new_request = test_create_new_request

  abbrev test_step5_create_new_request : Script (Session N) (Unit {0})
  test_step5_create_new_request = test_create_new_request

  abbrev test_step7_verify_ownership_change : Script (Session N) (Unit {0})
  test_step7_verify_ownership_change =
      test_verify_ownership_change "Ownership transferred to recovery address"

  abbrev test_step9_create_new_request_with_new_recovery : Script (Session N) (Unit {0})
  test_step9_create_new_request_with_new_recovery = test_create_new_request

  abbrev test_step11_verify_final_ownership_change : Script (Session N) (Unit {0})
  test_step11_verify_final_ownership_change =
      test_verify_ownership_change "Ownership transferred to new recovery address"

  unfoldable pub execute_ownership_tests : Script (Session N) (Unit {0})
  execute_ownership_tests = do
    test_step1_create_ownership_request
    test_step2_meta_cancel
    cleanup
    test_step3_create_new_request
    test_step4_time_delay_cancel
    cleanup
    test_step5_create_new_request
    test_step6_meta_approve
    test_step7_verify_ownership_change
    test_step8_update_recovery_address
    test_step9_create_new_request_with_new_recovery
    test_step10_time_delay_approve
    test_step11_verify_final_ownership_change

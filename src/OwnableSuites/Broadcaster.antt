-- ===== src/OwnableSuites/Broadcaster.antt =====
-- scripts/sanity/secure-ownable/broadcaster-update-tests.js: the steps of the class
-- `BroadcasterUpdateTests`.
use guardian_safe.Prelude.{ℕ, not, Option, none, some, List, [], ◌∷◌, if◌then◌else◌, find}
use guardian_safe.Text.{same_address}
use guardian_safe.Script.{Script, pure, ◌>>=◌, ◌>>◌}
use guardian_safe.SecureOwnable.Names.{broadcaster_update}
use guardian_safe.SecureOwnable.Session.{
  update_broadcaster_cancellation, update_broadcaster_delayed_approval,
  update_broadcaster_cancellation_with_meta_tx, update_broadcaster_approval_with_meta_tx, Node,
  Session, call_contract_method, send_transaction,
}
use guardian_safe.SecureOwnable.Roles.{get_role_wallet_object}
use guardian_safe.SecureOwnable.Pending.{TxDetail, PendingCheck, check_pending_transactions}
use guardian_safe.SecureOwnable.Permissions.{Permission, validate_workflow_permissions}
use guardian_safe.SecureOwnable.Run.{assert_test}
use guardian_safe.OwnableSuites.{SuiteNode, no_contract}
use guardian_safe.OwnableSuites.Requests.{
  has_operation, create_broadcaster_request, create_broadcaster_request_for_time_delay_approval,
  asserted, cleanup_pending_transactions,
}
use guardian_safe.OwnableSuites.MetaTx.{sign_and_send, wait_for_release}
use guardian_safe.OwnableSuites.Ownership.{permission, assert_status}

module _ {N : Type 0} (node : Node N) (suite : SuiteNode N) where
  abbrev validate : List Permission → Script (Session N) (Unit {0})
  validate permissions = validate_workflow_permissions node suite.web3.keccak256 permissions

  abbrev pub broadcaster_created : Script (Session N) ℕ
  broadcaster_created =
      asserted node suite "Broadcaster update request created"
        (create_broadcaster_request node suite)

  abbrev pub detail_id : Option TxDetail → Script (Session N) ℕ
  detail_id none = broadcaster_created
  detail_id (some detail) = pure detail.tx_id

  -- the pending update of the broadcaster, or else a new one
  unfoldable pub broadcaster_tx_record : PendingCheck → Script (Session N) ℕ
  broadcaster_tx_record check =
      if check.has_pending
      then detail_id (find (has_operation broadcaster_update) check.transactions)
      else broadcaster_created

  unfoldable pub test_meta_transaction_cancellation : Script (Session N) (Unit {0})
  test_meta_transaction_cancellation = do
    validate (permission "owner" "0xf1209daa" 5 ∷ permission "broadcaster" "0xf1209daa" 8 ∷ [])
    pending_check ← check_pending_transactions node
    id ← broadcaster_tx_record pending_check
    sign_and_send node suite suite.contract "0xf1209daa" "SIGN_META_CANCEL"
        update_broadcaster_cancellation_with_meta_tx id
    assert_status node suite 2 "Transaction cancelled successfully" none id

  unfoldable pub test_time_delay_cancellation : Script (Session N) (Unit {0})
  test_time_delay_cancellation = do
    validate (permission "owner" "0x62544d90" 2 ∷ [])
    pending_check ← check_pending_transactions node
    id ← broadcaster_created
    wait_for_release node suite 2 id
    owner ← get_role_wallet_object "owner"
    send_transaction node (update_broadcaster_cancellation id) owner
    assert_status node suite 2 "Transaction cancelled successfully" none id

  -- The signer is called without its contract.
  unfoldable pub test_meta_transaction_approval : Script (Session N) (Unit {0})
  test_meta_transaction_approval = do
    validate (permission "owner" "0xd04d6238" 4 ∷ permission "broadcaster" "0xd04d6238" 7 ∷ [])
    pending_check ← check_pending_transactions node
    id ← broadcaster_created
    sign_and_send node suite no_contract "0xd04d6238" "SIGN_META_APPROVE"
        update_broadcaster_approval_with_meta_tx id
    assert_status node suite 3 "Transaction completed successfully" none id
    -- the new broadcaster is printed
    new_broadcaster ← call_contract_method node.get_broadcaster none
    pure tt

  unfoldable pub test_time_delay_approval : Script (Session N) (Unit {0})
  test_time_delay_approval = do
    validate (permission "owner" "0xb7d254d6" 1 ∷ [])
    pending_check ← check_pending_transactions node
    current_broadcaster ← call_contract_method node.get_broadcaster none
    id ←
        asserted node suite "Broadcaster update request created"
          (create_broadcaster_request_for_time_delay_approval node suite)
    wait_for_release node suite 2 id
    owner ← get_role_wallet_object "owner"
    send_transaction node (update_broadcaster_delayed_approval id) owner
    reader ← get_role_wallet_object "owner"
    assert_status node suite 3 "Transaction completed successfully" (some reader) id
    final_broadcaster ← call_contract_method node.get_broadcaster none
    -- it is printed, but read here
    current_recovery ← call_contract_method node.get_recovery none
    assert_test (not (same_address final_broadcaster current_broadcaster))
        "Broadcaster was successfully updated to a different address"

  abbrev cleanup : Script (Session N) (Unit {0})
  cleanup = cleanup_pending_transactions node suite "owner" update_broadcaster_cancellation

  unfoldable pub execute_broadcaster_tests : Script (Session N) (Unit {0})
  execute_broadcaster_tests = do
    test_meta_transaction_cancellation
    cleanup
    test_time_delay_cancellation
    cleanup
    test_meta_transaction_approval
    cleanup
    test_time_delay_approval

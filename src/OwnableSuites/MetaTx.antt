-- ===== src/OwnableSuites/MetaTx.antt =====
-- The signing and sending of a meta-transaction, and the wait for a release time, as the steps of
-- the suites do them.
use guardian_safe.Prelude.{ℕ, ◌+◌, ◌-◌, String, false, not, none, if◌then◌else◌, str_eq, ltb}
use guardian_safe.Text.{◌<>◌}
use guardian_safe.Script.{Script, pure, ◌>>=◌, ◌>>◌}
use guardian_safe.Eip712.Value.{Value, number, text, TxParams, MetaTxParams, MetaTransaction}
use guardian_safe.Eip712.Library.{Contract}
use guardian_safe.Eip712.Signer.{sign_meta_transaction}
use guardian_safe.SecureOwnable.Names.{get_tx_action, get_operation_type, get_execution_type}
use guardian_safe.SecureOwnable.Session.{
  Method, Node, Session, on_node, call_contract_method, send_transaction,
}
use guardian_safe.SecureOwnable.Roles.{get_role_wallet_object, get_role_wallet}
use guardian_safe.SecureOwnable.Timelock.{advance_blockchain_time}
use guardian_safe.SecureOwnable.Run.{assert_test}
use guardian_safe.OwnableSuites.{SuiteNode}

-- the record of a new meta-transaction of the operation, as its arguments are passed on
abbrev pub new_tx_params : String → String → String → Value → TxParams
new_tx_params operation owner target options = record {
  indexed = false;
  requester = text owner;
  target = text target;
  value = number 0;
  gas_limit = number 0;
  operation_type = text (get_operation_type operation);
  execution_type = number (get_execution_type "STANDARD");
  execution_options = options;
}

module _ {N : Type 0} (node : Node N) (suite : SuiteNode N) where
  -- with a deadline of an hour, no limit of the gas price, and the owner as the signer
  unfoldable pub meta_tx_params : String → String → Script (Session N) MetaTxParams
  meta_tx_params selector action = do
    owner ← get_role_wallet_object "owner"
    call_contract_method
        (suite.create_meta_tx_params suite.contract_address selector (get_tx_action action) 3600 0
          owner.address)
        none

  -- `contract` is the third argument of signMetaTransaction
  unfoldable pub sign_by_owner : Contract N → MetaTransaction → Script (Session N) MetaTransaction
  sign_by_owner contract unsigned_meta_tx = do
    key ← get_role_wallet "owner"
    on_node (sign_meta_transaction suite.web3 contract unsigned_meta_tx key)

  unfoldable pub send_by_broadcaster :
      (MetaTransaction → Method) → MetaTransaction → MetaTransaction → Script (Session N) (Unit {0})
  send_by_broadcaster method unsigned_meta_tx signed = do
    broadcaster ← get_role_wallet_object "broadcaster"
    send_transaction node (method (record unsigned_meta_tx { signature = signed.signature }))
        broadcaster

  -- a meta-transaction of the owner's for a transaction that exists
  unfoldable pub sign_and_send :
      Contract N → String → String → (MetaTransaction → Method) → ℕ → Script (Session N) (Unit {0})
  sign_and_send contract selector action method id = do
    params ← meta_tx_params selector action
    unsigned_meta_tx ←
        call_contract_method (suite.generate_unsigned_meta_transaction_for_existing id params) none
    signed ← sign_by_owner contract unsigned_meta_tx
    assert_test (not (str_eq signed.signature "")) "Meta-transaction signed successfully"
    send_by_broadcaster method unsigned_meta_tx signed

  -- a new meta-transaction of the owner's, of which all that was signed is sent
  unfoldable pub sign_and_send_new :
      String → String → (MetaTransaction → Method) → String → Value → Script (Session N) (Unit {0})
  sign_and_send_new selector operation method description options = do
    params ← meta_tx_params selector "SIGN_META_REQUEST_AND_APPROVE"
    owner ← get_role_wallet_object "owner"
    unsigned_meta_tx ←
        call_contract_method
          (suite.generate_unsigned_meta_transaction_for_new
            (new_tx_params operation owner.address suite.contract_address options) params)
          none
    signed ← sign_by_owner suite.contract unsigned_meta_tx
    assert_test (not (str_eq signed.signature ""))
        ("Meta-transaction signed successfully for " <> description)
    broadcaster ← get_role_wallet_object "broadcaster"
    send_transaction node (method signed) broadcaster

  -- `releaseTime - currentBlockchainTime + buffer`, where it is positive
  unfoldable pub wait_for_release : ℕ → ℕ → Script (Session N) (Unit {0})
  wait_for_release buffer id = do
    t ← call_contract_method (node.get_transaction id) none
    current_time ← on_node node.block_timestamp
    if ltb current_time (t.release_time + buffer)
        then (do advance_blockchain_time node (t.release_time + buffer - current_time); pure tt)
        else pure tt

-- ===== src/OwnableSuites/Requests.antt =====
-- Requests and the identifiers of their transactions: `createOwnershipRequestAndDeriveTxId`,
-- `createBroadcasterRequestAndDeriveTxId`, `createBroadcasterRequestForTimeDelayApproval`, the
-- choice of a pending transaction, and `cleanupPendingTransactions`. Of a record that is returned
-- only the identifier is used, which is the one in the contract's record where there is one.
use guardian_safe.Prelude.{
  ℕ, zero, suc, String, Bool, false, not, ◌&&◌, Option, none, some, List, [], ◌∷◌, find, last?,
  if◌then◌else◌, str_eq, ltb, ◌==◌,
}
use guardian_safe.Text.{same_address}
use guardian_safe.Script.{Script, pure, throw, gets, try_catch, ◌>>=◌, ◌>>◌}
use guardian_safe.SecureOwnable.Names.{ownership_transfer, get_operation_type}
use guardian_safe.SecureOwnable.Session.{
  Transaction, Method, transfer_ownership_request, update_broadcaster_request, Node, Session,
  call_contract_method, send_transaction,
}
use guardian_safe.SecureOwnable.Roles.{get_role_wallet_object}
use guardian_safe.SecureOwnable.Pending.{TxDetail, PendingCheck}
use guardian_safe.SecureOwnable.Run.{assert_test}
use guardian_safe.OwnableSuites.{SuiteNode}
use guardian_safe.OwnableSuites.Wallets.{find_unused_wallet_for_broadcaster}

abbrev pub has_operation : String → TxDetail → Bool
has_operation operation t = str_eq t.operation_type operation

-- A pending record of the operation, requested by the account of the role. Without such an account
-- the comparison throws, which the caller turns into the answer 0 too.
abbrev pub is_request : String → Option String → Transaction → Bool
is_request hash none t = false
is_request hash (some requester) t =
    t.status == 1
    && (not (str_eq t.operation_type "")
        && (same_address t.operation_type hash
            && (not (str_eq t.requester "") && same_address t.requester requester)))

-- for (let i = history.length - 1; i >= 0; i--)
abbrev pub newest : (Transaction → Bool) → List Transaction → Option Transaction
newest p [] = none
newest p (t ∷ ts) = elim (newest p ts) [ some u ↦ some u | none ↦ if p t then some t else none ]

abbrev pub id_or_zero : Option Transaction → ℕ
id_or_zero none = 0
id_or_zero (some t) = t.tx_id

module _ {N : Type 0} (node : Node N) (suite : SuiteNode N) where
  unfoldable pub from_history : String → (Session N → Option String) → Script (Session N) ℕ
  from_history operation requester =
      try_catch
        (do
          history ← call_contract_method (suite.get_transaction_history 1 50) none
          account ← gets requester
          pure (id_or_zero (newest (is_request (suite.web3.keccak256 operation) account) history)))
        (λ _. pure 0)

  -- the number is of the attempts that are left
  unfoldable pub poll_ownership_request : ℕ → Script (Session N) ℕ
  poll_ownership_request zero = from_history "OWNERSHIP_TRANSFER" (λ s. s.roles.recovery)
  poll_ownership_request (suc attempts) = do
    ids ← call_contract_method node.get_pending_transactions none
    elim (last? ids) [
      | none ↦ poll_ownership_request attempts
      | some id ↦ do t ← call_contract_method (node.get_transaction id) none; pure t.tx_id
    ]

  unfoldable pub create_ownership_request : Script (Session N) ℕ
  create_ownership_request = do
    wallet ← get_role_wallet_object "recovery"
    send_transaction node transfer_ownership_request wallet
    poll_ownership_request 5

  unfoldable pub poll_broadcaster_request : ℕ → Script (Session N) ℕ
  poll_broadcaster_request zero = from_history "BROADCASTER_UPDATE" (λ s. s.roles.owner)
  poll_broadcaster_request (suc attempts) = do
    ids ← call_contract_method node.get_pending_transactions none
    elim (last? ids) [ none ↦ poll_broadcaster_request attempts | some id ↦ pure id ]

  abbrev pub request_broadcaster : Script (Session N) (Unit {0})
  request_broadcaster = do
    current_broadcaster ← call_contract_method node.get_broadcaster none
    new_broadcaster ← find_unused_wallet_for_broadcaster current_broadcaster
    wallet ← get_role_wallet_object "owner"
    send_transaction node (update_broadcaster_request new_broadcaster) wallet

  unfoldable pub create_broadcaster_request : Script (Session N) ℕ
  create_broadcaster_request = do request_broadcaster; poll_broadcaster_request 5

  abbrev pub first_of : List ℕ → Option ℕ
  first_of [] = none
  first_of (id ∷ ids) = some id

  unfoldable pub poll_first_request : ℕ → Script (Session N) ℕ
  poll_first_request zero = throw "Failed to create broadcaster update request"
  poll_first_request (suc attempts) = do
    ids ← call_contract_method node.get_pending_transactions none
    elim (first_of ids) [
      | none ↦ poll_first_request attempts
      | some id ↦ do
        t ← call_contract_method (node.get_transaction id) none
        if str_eq t.operation_type (get_operation_type "BROADCASTER_UPDATE")
            then pure t.tx_id
            else poll_first_request attempts
    ]

  unfoldable pub create_broadcaster_request_for_time_delay_approval : Script (Session N) ℕ
  create_broadcaster_request_for_time_delay_approval = do request_broadcaster; poll_first_request 5

  -- this.assertTest(txRecord.txId > 0, …) after a request
  abbrev pub asserted : String → Script (Session N) ℕ → Script (Session N) ℕ
  asserted message create = do id ← create; assert_test (ltb 0 id) message; pure id

  abbrev pub ownership_created : Script (Session N) ℕ
  ownership_created = asserted "Ownership transfer request created" create_ownership_request

  abbrev pub full_transaction : Option TxDetail → Script (Session N) ℕ
  full_transaction none = ownership_created
  full_transaction (some detail) = do
    t ← call_contract_method (node.get_transaction detail.tx_id) none
    pure t.tx_id

  -- the pending transfer of ownership, or else a new one
  unfoldable pub ownership_tx_record : PendingCheck → Script (Session N) ℕ
  ownership_tx_record check =
      if check.has_pending
      then full_transaction (find (has_operation ownership_transfer) check.transactions)
      else ownership_created

  abbrev pub tolerated : Script (Session N) (Unit {0}) → Script (Session N) (Unit {0})
  tolerated m = try_catch m (λ _. pure tt)

  unfoldable pub cancel_each : String → (ℕ → Method) → List ℕ → Script (Session N) (Unit {0})
  cancel_each role method [] = pure tt
  cancel_each role method (id ∷ ids) = do
    t ← call_contract_method (node.get_transaction id) none
    tolerated (do wallet ← get_role_wallet_object role; send_transaction node (method id) wallet)
    cancel_each role method ids

  abbrev pub cleanup_ids : String → (ℕ → Method) → List ℕ → Script (Session N) (Unit {0})
  cleanup_ids role method [] = pure tt
  cleanup_ids role method (id ∷ ids) = do
    cancel_each role method (id ∷ ids)
    -- what is left is printed
    remaining ← call_contract_method node.get_pending_transactions none
    pure tt

  -- `cleanupPendingTransactions` of the two suites, which differ in who cancels what
  unfoldable pub cleanup_pending_transactions :
      String → (ℕ → Method) → Script (Session N) (Unit {0})
  cleanup_pending_transactions role method = tolerated (do
    ids ← call_contract_method node.get_pending_transactions none
    cleanup_ids role method ids)

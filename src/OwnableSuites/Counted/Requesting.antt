-- ===== src/OwnableSuites/Counted/Requesting.antt =====
-- The requests, the meta-transactions and the waits.
use guardian_safe.Prelude.{
  ℕ, zero, suc, ◌+◌, ◌-◌, String, not, Option, none, some, List, [], ◌∷◌, find, last?, str_eq, ltb,
}
use guardian_safe.Text.{◌<>◌}
use guardian_safe.Script.{Script}
use guardian_safe.Eip712.Value.{Value, MetaTransaction}
use guardian_safe.Eip712.Library.{Contract}
use guardian_safe.Eip712.Signer.{sign_meta_transaction}
use guardian_safe.SecureOwnable.Names.{ownership_transfer, get_operation_type, get_tx_action}
use guardian_safe.SecureOwnable.Session.{
  RoleWallets, Method, transfer_ownership_request, update_broadcaster_request, Node, Session,
}
use guardian_safe.SecureOwnable.Pending.{TxDetail, PendingCheck}
use guardian_safe.OwnableSuites.{SuiteNode}
use guardian_safe.OwnableSuites.Wallets.{
  test_wallets, addresses, first_other, first_at, find_unused_wallet, find_wallet_by_address,
}
use guardian_safe.OwnableSuites.Requests.{
  has_operation, is_request, newest, id_or_zero, from_history, poll_ownership_request,
  create_ownership_request, poll_broadcaster_request, request_broadcaster,
  create_broadcaster_request, first_of, poll_first_request,
  create_broadcaster_request_for_time_delay_approval, asserted, ownership_created, full_transaction,
  ownership_tx_record, cancel_each, cleanup_ids, cleanup_pending_transactions,
}
use guardian_safe.OwnableSuites.MetaTx.{
  new_tx_params, sign_and_send_new, meta_tx_params, sign_by_owner, send_by_broadcaster,
  sign_and_send, wait_for_release,
}
use guardian_safe.OwnableSuites.Counted.Base.{
  Keeps, pure-Keeps, throw-Keeps, on_node-Keeps, >>=-Keeps, gets-Keeps, try_catch-Keeps, if-Keeps,
  option-Keeps, call-Keeps, send-Keeps,
}
use guardian_safe.OwnableSuites.Counted.Ground.{
  lift-Keeps, assert-Keeps, wallet-Keeps, key-Keeps, advance-Keeps,
}

module _ {N : Type 0} {K : RoleWallets → Type 0} where
  pub unused-Keeps : (role current : String) → Keeps K (find_unused_wallet {N = N} role current)
  unfolding find_unused_wallet
  unused-Keeps role current = gets-Keeps test_wallets _ λ ws.
      >>=-Keeps _ _ (lift-Keeps (addresses ws))
        λ available. lift-Keeps (first_other role current available)

  pub find_wallet-Keeps : (address : String) → Keeps K (find_wallet_by_address {N = N} address)
  unfolding find_wallet_by_address
  find_wallet-Keeps address = gets-Keeps test_wallets _ λ ws. lift-Keeps (first_at address ws)

module _ {N : Type 0} {K : RoleWallets → Type 0} (node : Node N) (suite : SuiteNode N) where
  history-Keeps :
      (operation : String) (requester : Session N → Option String)
      → Keeps K (from_history node suite operation requester)
  unfolding from_history
  history-Keeps operation requester =
      try_catch-Keeps _ _
        (>>=-Keeps _ _ (call-Keeps (suite.get_transaction_history 1 50) none) λ history.
          gets-Keeps requester _ λ account.
            pure-Keeps
              (id_or_zero (newest (is_request (suite.web3.keccak256 operation) account) history)))
        (λ message. pure-Keeps 0)

  poll_ownership-Keeps : (n : ℕ) → Keeps K (poll_ownership_request node suite n)
  unfolding poll_ownership_request
  poll_ownership-Keeps zero = history-Keeps "OWNERSHIP_TRANSFER" (λ s. s.roles.recovery)
  poll_ownership-Keeps (suc n) =
      >>=-Keeps _ _ (call-Keeps node.get_pending_transactions none) λ ids.
        option-Keeps (last? ids) _ _ (poll_ownership-Keeps n)
          λ id. >>=-Keeps _ _ (call-Keeps (node.get_transaction id) none) λ t. pure-Keeps t.tx_id

  pub create_ownership-Keeps : Keeps K (create_ownership_request node suite)
  unfolding create_ownership_request
  create_ownership-Keeps =
      >>=-Keeps _ _ (wallet-Keeps "recovery") λ w.
        >>=-Keeps _ _ (send-Keeps node transfer_ownership_request w) λ u. poll_ownership-Keeps 5

  poll_broadcaster-Keeps : (n : ℕ) → Keeps K (poll_broadcaster_request node suite n)
  unfolding poll_broadcaster_request
  poll_broadcaster-Keeps zero = history-Keeps "BROADCASTER_UPDATE" (λ s. s.roles.owner)
  poll_broadcaster-Keeps (suc n) =
      >>=-Keeps _ _ (call-Keeps node.get_pending_transactions none)
        λ ids. option-Keeps (last? ids) _ _ (poll_broadcaster-Keeps n) λ id. pure-Keeps id

  request_broadcaster-Keeps : Keeps K (request_broadcaster node suite)
  request_broadcaster-Keeps = >>=-Keeps _ _ (call-Keeps node.get_broadcaster none) λ current.
      >>=-Keeps _ _ (unused-Keeps "broadcaster" current) λ new.
        >>=-Keeps _ _ (wallet-Keeps "owner") λ w. send-Keeps node (update_broadcaster_request new) w

  pub create_broadcaster-Keeps : Keeps K (create_broadcaster_request node suite)
  unfolding create_broadcaster_request
  create_broadcaster-Keeps = >>=-Keeps _ _ request_broadcaster-Keeps λ u. poll_broadcaster-Keeps 5

  poll_first-Keeps : (n : ℕ) → Keeps K (poll_first_request node suite n)
  unfolding poll_first_request
  poll_first-Keeps zero = throw-Keeps "Failed to create broadcaster update request"
  poll_first-Keeps (suc n) = >>=-Keeps _ _ (call-Keeps node.get_pending_transactions none) λ ids.
      option-Keeps (first_of node suite ids) _ _ (poll_first-Keeps n) λ id.
        >>=-Keeps _ _ (call-Keeps (node.get_transaction id) none) λ t.
          if-Keeps (str_eq t.operation_type (get_operation_type "BROADCASTER_UPDATE")) _ _
            (pure-Keeps t.tx_id) (poll_first-Keeps n)

  pub create_delayed-Keeps : Keeps K (create_broadcaster_request_for_time_delay_approval node suite)
  unfolding create_broadcaster_request_for_time_delay_approval
  create_delayed-Keeps = >>=-Keeps _ _ request_broadcaster-Keeps λ u. poll_first-Keeps 5

  pub asserted-Keeps :
      (message : String) (create : Script (Session N) ℕ)
      → Keeps K create
      → Keeps K (asserted node suite message create)
  asserted-Keeps message create p =
      >>=-Keeps _ _ p λ id. >>=-Keeps _ _ (assert-Keeps (ltb 0 id) message) λ u. pure-Keeps id

  ownership_created-Keeps : Keeps K (ownership_created node suite)
  ownership_created-Keeps =
      asserted-Keeps "Ownership transfer request created" _ create_ownership-Keeps

  full-Keeps : (o : Option TxDetail) → Keeps K (full_transaction node suite o)
  full-Keeps none = ownership_created-Keeps
  full-Keeps (some d) =
      >>=-Keeps _ _ (call-Keeps (node.get_transaction d.tx_id) none) λ t. pure-Keeps t.tx_id

  pub ownership_record-Keeps :
      (check : PendingCheck) → Keeps K (ownership_tx_record node suite check)
  unfolding ownership_tx_record
  ownership_record-Keeps check =
      if-Keeps check.has_pending _ _
        (full-Keeps (find (has_operation ownership_transfer) check.transactions))
        ownership_created-Keeps

  cancel_each-Keeps :
      (role : String) (method : ℕ → Method) (ids : List ℕ)
      → Keeps K (cancel_each node suite role method ids)
  unfolding cancel_each
  cancel_each-Keeps role method [] = pure-Keeps tt
  cancel_each-Keeps role method (id ∷ ids) =
      >>=-Keeps _ _ (call-Keeps (node.get_transaction id) none) λ t.
        >>=-Keeps _ _
          (try_catch-Keeps _ _
            (>>=-Keeps _ _ (wallet-Keeps role) λ w. send-Keeps node (method id) w)
            (λ message. pure-Keeps tt))
          λ u. cancel_each-Keeps role method ids

  cleanup_ids-Keeps :
      (role : String) (method : ℕ → Method) (ids : List ℕ)
      → Keeps K (cleanup_ids node suite role method ids)
  cleanup_ids-Keeps role method [] = pure-Keeps tt
  cleanup_ids-Keeps role method (id ∷ ids) =
      >>=-Keeps _ _ (cancel_each-Keeps role method (id ∷ ids)) λ u.
        >>=-Keeps _ _ (call-Keeps node.get_pending_transactions none) λ remaining. pure-Keeps tt

  pub cleanup-Keeps :
      (role : String) (method : ℕ → Method)
      → Keeps K (cleanup_pending_transactions node suite role method)
  unfolding cleanup_pending_transactions
  cleanup-Keeps role method =
      try_catch-Keeps _ _
        (>>=-Keeps _ _ (call-Keeps node.get_pending_transactions none)
          λ ids. cleanup_ids-Keeps role method ids)
        (λ message. pure-Keeps tt)

  pub params-Keeps :
      (selector action : String) → Keeps K (meta_tx_params node suite selector action)
  unfolding meta_tx_params
  params-Keeps selector action = >>=-Keeps _ _ (wallet-Keeps "owner") λ owner.
      call-Keeps
        (suite.create_meta_tx_params suite.contract_address selector (get_tx_action action) 3600 0
          owner.address)
        none

  pub sign-Keeps :
      (contract : Contract N) (m : MetaTransaction) → Keeps K (sign_by_owner node suite contract m)
  unfolding sign_by_owner
  sign-Keeps contract m =
      >>=-Keeps _ _ (key-Keeps "owner")
        λ key. on_node-Keeps (sign_meta_transaction suite.web3 contract m key)

  pub send_meta-Keeps :
      (method : MetaTransaction → Method) (m signed : MetaTransaction)
      → Keeps K (send_by_broadcaster node suite method m signed)
  unfolding send_by_broadcaster
  send_meta-Keeps method m signed =
      >>=-Keeps _ _ (wallet-Keeps "broadcaster")
        λ w. send-Keeps node (method (record m { signature = signed.signature })) w

  pub sign_and_send-Keeps :
      (contract : Contract N) (selector action : String) (method : MetaTransaction → Method)
      (id : ℕ)
      → Keeps K (sign_and_send node suite contract selector action method id)
  unfolding sign_and_send
  sign_and_send-Keeps contract selector action method id =
      >>=-Keeps _ _ (params-Keeps selector action) λ p.
        >>=-Keeps _ _ (call-Keeps (suite.generate_unsigned_meta_transaction_for_existing id p) none)
          λ m. >>=-Keeps _ _ (sign-Keeps contract m) λ signed.
            >>=-Keeps _ _
              (assert-Keeps (not (str_eq signed.signature ""))
                "Meta-transaction signed successfully")
              λ u. send_meta-Keeps method m signed

  pub wait-Keeps : (buffer id : ℕ) → Keeps K (wait_for_release node suite buffer id)
  unfolding wait_for_release
  wait-Keeps buffer id = >>=-Keeps _ _ (call-Keeps (node.get_transaction id) none) λ t.
      >>=-Keeps _ _ (on_node-Keeps node.block_timestamp) λ now.
        if-Keeps (ltb now (t.release_time + buffer)) _ _
          (>>=-Keeps _ _ (advance-Keeps node (t.release_time + buffer - now)) λ b. pure-Keeps tt)
          (pure-Keeps tt)

  pub sign_and_send_new-Keeps :
      (selector operation : String) (method : MetaTransaction → Method) (description : String)
      (options : Value)
      → Keeps K (sign_and_send_new node suite selector operation method description options)
  unfolding sign_and_send_new
  sign_and_send_new-Keeps selector operation method description options =
      >>=-Keeps _ _ (params-Keeps selector "SIGN_META_REQUEST_AND_APPROVE") λ p.
        >>=-Keeps _ _ (wallet-Keeps "owner") λ owner.
          >>=-Keeps _ _
            (call-Keeps
              (suite.generate_unsigned_meta_transaction_for_new
                (new_tx_params operation owner.address suite.contract_address options) p)
              none)
            λ m. >>=-Keeps _ _ (sign-Keeps suite.contract m) λ signed.
              >>=-Keeps _ _
                (assert-Keeps (not (str_eq signed.signature ""))
                  ("Meta-transaction signed successfully for " <> description))
                λ u.
                  >>=-Keeps _ _ (wallet-Keeps "broadcaster") λ w. send-Keeps node (method signed) w

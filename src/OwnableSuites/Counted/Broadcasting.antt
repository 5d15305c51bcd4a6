-- ===== src/OwnableSuites/Counted/Broadcasting.antt =====
-- The steps of the suite of the update of the broadcaster.
use guardian_safe.Prelude.{not, Option, none, some, [], ◌∷◌, find}
use guardian_safe.Text.{same_address}
use guardian_safe.SecureOwnable.Names.{broadcaster_update}
use guardian_safe.SecureOwnable.Session.{
  update_broadcaster_cancellation, update_broadcaster_delayed_approval,
  update_broadcaster_cancellation_with_meta_tx, update_broadcaster_approval_with_meta_tx, Node,
}
use guardian_safe.SecureOwnable.Pending.{TxDetail, PendingCheck}
use guardian_safe.OwnableSuites.{SuiteNode, no_contract}
use guardian_safe.OwnableSuites.Requests.{has_operation}
use guardian_safe.OwnableSuites.Ownership.{permission}
use guardian_safe.OwnableSuites.Broadcaster.{
  broadcaster_created, detail_id, broadcaster_tx_record, test_meta_transaction_cancellation,
  test_time_delay_cancellation, test_meta_transaction_approval, test_time_delay_approval,
  execute_broadcaster_tests,
}
use guardian_safe.OwnableSuites.Counted.Base.{
  Counts, pure-Keeps, >>=-Keeps, if-Keeps, call-Keeps, send-Keeps,
}
use guardian_safe.OwnableSuites.Counted.Ground.{
  assert-Keeps, wallet-Keeps, check-Keeps, validate-Keeps,
}
use guardian_safe.OwnableSuites.Counted.Requesting.{
  create_broadcaster-Keeps, create_delayed-Keeps, asserted-Keeps, cleanup-Keeps,
  sign_and_send-Keeps, wait-Keeps,
}
use guardian_safe.OwnableSuites.Counted.Stepping.{status-Keeps}

module _ {N : Type 0} (node : Node N) (suite : SuiteNode N) where
  created-Keeps : Counts (broadcaster_created node suite)
  created-Keeps =
      asserted-Keeps node suite "Broadcaster update request created" _
        (create_broadcaster-Keeps node suite)

  detail-Keeps : (o : Option TxDetail) → Counts (detail_id node suite o)
  detail-Keeps none = created-Keeps
  detail-Keeps (some d) = pure-Keeps d.tx_id

  broadcaster_record-Keeps :
      (check : PendingCheck) → Counts (broadcaster_tx_record node suite check)
  unfolding broadcaster_tx_record
  broadcaster_record-Keeps check =
      if-Keeps check.has_pending _ _
        (detail-Keeps (find (has_operation broadcaster_update) check.transactions)) created-Keeps

  meta_cancel-Keeps : Counts (test_meta_transaction_cancellation node suite)
  unfolding test_meta_transaction_cancellation
  meta_cancel-Keeps =
      >>=-Keeps _ _
        (validate-Keeps node suite.web3.keccak256
          (permission "owner" "0xf1209daa" 5 ∷ permission "broadcaster" "0xf1209daa" 8 ∷ []))
        λ u. >>=-Keeps _ _ (check-Keeps node) λ check.
          >>=-Keeps _ _ (broadcaster_record-Keeps check) λ id.
            >>=-Keeps _ _
              (sign_and_send-Keeps node suite suite.contract "0xf1209daa" "SIGN_META_CANCEL"
                update_broadcaster_cancellation_with_meta_tx id)
              λ v. status-Keeps node suite 2 "Transaction cancelled successfully" none id

  delayed_cancel-Keeps : Counts (test_time_delay_cancellation node suite)
  unfolding test_time_delay_cancellation
  delayed_cancel-Keeps =
      >>=-Keeps _ _
        (validate-Keeps node suite.web3.keccak256 (permission "owner" "0x62544d90" 2 ∷ []))
        λ u. >>=-Keeps _ _ (check-Keeps node) λ check. >>=-Keeps _ _ created-Keeps λ id.
          >>=-Keeps _ _ (wait-Keeps node suite 2 id) λ v. >>=-Keeps _ _ (wallet-Keeps "owner") λ w.
            >>=-Keeps _ _ (send-Keeps node (update_broadcaster_cancellation id) w)
              λ x. status-Keeps node suite 2 "Transaction cancelled successfully" none id

  meta_approve-Keeps : Counts (test_meta_transaction_approval node suite)
  unfolding test_meta_transaction_approval
  meta_approve-Keeps =
      >>=-Keeps _ _
        (validate-Keeps node suite.web3.keccak256
          (permission "owner" "0xd04d6238" 4 ∷ permission "broadcaster" "0xd04d6238" 7 ∷ []))
        λ u. >>=-Keeps _ _ (check-Keeps node) λ check. >>=-Keeps _ _ created-Keeps λ id.
          >>=-Keeps _ _
            (sign_and_send-Keeps node suite no_contract "0xd04d6238" "SIGN_META_APPROVE"
              update_broadcaster_approval_with_meta_tx id)
            λ v.
              >>=-Keeps _ _ (status-Keeps node suite 3 "Transaction completed successfully" none id)
                λ w. >>=-Keeps _ _ (call-Keeps node.get_broadcaster none) λ x. pure-Keeps tt

  delayed_approve-Keeps : Counts (test_time_delay_approval node suite)
  unfolding test_time_delay_approval
  delayed_approve-Keeps =
      >>=-Keeps _ _
        (validate-Keeps node suite.web3.keccak256 (permission "owner" "0xb7d254d6" 1 ∷ []))
        λ u. >>=-Keeps _ _ (check-Keeps node) λ check.
          >>=-Keeps _ _ (call-Keeps node.get_broadcaster none) λ current.
            >>=-Keeps _ _
              (asserted-Keeps node suite "Broadcaster update request created" _
                (create_delayed-Keeps node suite))
              λ id. >>=-Keeps _ _ (wait-Keeps node suite 2 id) λ v.
                >>=-Keeps _ _ (wallet-Keeps "owner") λ w.
                  >>=-Keeps _ _ (send-Keeps node (update_broadcaster_delayed_approval id) w) λ x.
                    >>=-Keeps _ _ (wallet-Keeps "owner") λ r.
                      >>=-Keeps _ _
                        (status-Keeps node suite 3 "Transaction completed successfully" (some r) id)
                        λ y. >>=-Keeps _ _ (call-Keeps node.get_broadcaster none) λ final.
                          >>=-Keeps _ _ (call-Keeps node.get_recovery none) λ z.
                            assert-Keeps (not (same_address final current))
                              "Broadcaster was successfully updated to a different address"

  pub broadcaster-Keeps : Counts (execute_broadcaster_tests node suite)
  unfolding execute_broadcaster_tests
  broadcaster-Keeps =
      let clean = cleanup-Keeps node suite "owner" update_broadcaster_cancellation in
      >>=-Keeps _ _ meta_cancel-Keeps λ a. >>=-Keeps _ _ clean λ b.
        >>=-Keeps _ _ delayed_cancel-Keeps λ c.
          >>=-Keeps _ _ clean λ d.
            >>=-Keeps _ _ meta_approve-Keeps λ e. >>=-Keeps _ _ clean λ f. delayed_approve-Keeps

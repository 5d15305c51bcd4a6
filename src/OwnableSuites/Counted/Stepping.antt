-- ===== src/OwnableSuites/Counted/Stepping.antt =====
-- The steps, and the runs of the suites.
use guardian_safe.Prelude.{ℕ, String, refl, Option, none, some, [], ◌∷◌, ◌==◌}
use guardian_safe.Text.{same_address}
use guardian_safe.Accounts.{Wallet}
use guardian_safe.SecureOwnable.Session.{
  transfer_ownership_cancellation, transfer_ownership_delayed_approval,
  transfer_ownership_cancellation_with_meta_tx, transfer_ownership_approval_with_meta_tx,
  update_recovery_request_and_approve, Node,
}
use guardian_safe.OwnableSuites.{SuiteNode}
use guardian_safe.OwnableSuites.MetaTx.{new_tx_params}
use guardian_safe.OwnableSuites.Ownership.{
  permission, assert_status, test_step1_create_ownership_request, test_step2_meta_cancel,
  test_create_new_request, test_step4_time_delay_cancel, test_step6_meta_approve, role_address,
  test_verify_ownership_change, test_step8_update_recovery_address, test_step10_time_delay_approve,
  execute_ownership_tests,
}
use guardian_safe.OwnableSuites.Counted.Base.{
  Counts, pure-Keeps, throw-Keeps, >>=-Keeps, gets-Keeps, call-Keeps, send-Keeps, modify-Keeps,
}
use guardian_safe.OwnableSuites.Counted.Ground.{
  assert-Keeps, wallet-Keeps, check-Keeps, validate-Keeps,
}
use guardian_safe.OwnableSuites.Counted.Requesting.{
  unused-Keeps, find_wallet-Keeps, create_ownership-Keeps, asserted-Keeps, ownership_record-Keeps,
  cleanup-Keeps, params-Keeps, sign-Keeps, send_meta-Keeps, sign_and_send-Keeps, wait-Keeps,
}

module _ {N : Type 0} (node : Node N) (suite : SuiteNode N) where
  pub status-Keeps :
      (status : ℕ) (message : String) (wallet : Option Wallet) (id : ℕ)
      → Counts (assert_status node suite status message wallet id)
  status-Keeps status message wallet id =
      >>=-Keeps _ _ (call-Keeps (node.get_transaction id) wallet)
        λ t. assert-Keeps (t.status == status) message

  step1-Keeps : Counts (test_step1_create_ownership_request node suite)
  unfolding test_step1_create_ownership_request
  step1-Keeps =
      >>=-Keeps _ _
        (validate-Keeps node suite.web3.keccak256 (permission "recovery" "0x572be39b" 0 ∷ []))
        λ u. >>=-Keeps _ _ (check-Keeps node) λ check.
          >>=-Keeps _ _ (ownership_record-Keeps node suite check)
            λ id. status-Keeps 1 "Transaction is pending" none id

  step2-Keeps : Counts (test_step2_meta_cancel node suite)
  unfolding test_step2_meta_cancel
  step2-Keeps =
      >>=-Keeps _ _
        (validate-Keeps node suite.web3.keccak256
          (permission "owner" "0x1ef7c2ec" 5 ∷ permission "broadcaster" "0x1ef7c2ec" 8 ∷ []))
        λ u. >>=-Keeps _ _ (check-Keeps node) λ check.
          >>=-Keeps _ _ (ownership_record-Keeps node suite check) λ id.
            >>=-Keeps _ _
              (sign_and_send-Keeps node suite suite.contract "0x1ef7c2ec" "SIGN_META_CANCEL"
                transfer_ownership_cancellation_with_meta_tx id)
              λ v. status-Keeps 2 "Transaction cancelled successfully" none id

  request-Keeps : Counts (test_create_new_request node suite)
  unfolding test_create_new_request
  request-Keeps = >>=-Keeps _ _ (check-Keeps node) λ check.
      >>=-Keeps _ _
        (asserted-Keeps node suite "New ownership transfer request created" _
          (create_ownership-Keeps node suite))
        λ id. status-Keeps 1 "Transaction is pending" none id

  step4-Keeps : Counts (test_step4_time_delay_cancel node suite)
  unfolding test_step4_time_delay_cancel
  step4-Keeps =
      >>=-Keeps _ _
        (validate-Keeps node suite.web3.keccak256 (permission "recovery" "0x9d8f6f90" 2 ∷ []))
        λ u. >>=-Keeps _ _ (check-Keeps node) λ check.
          >>=-Keeps _ _ (ownership_record-Keeps node suite check) λ id.
            >>=-Keeps _ _ (wait-Keeps node suite 10 id) λ v.
              >>=-Keeps _ _ (wallet-Keeps "recovery") λ w.
                >>=-Keeps _ _ (send-Keeps node (transfer_ownership_cancellation id) w)
                  λ x. status-Keeps 2 "Transaction cancelled successfully" none id

  step6-Keeps : Counts (test_step6_meta_approve node suite)
  unfolding test_step6_meta_approve
  step6-Keeps =
      >>=-Keeps _ _
        (validate-Keeps node suite.web3.keccak256
          (permission "owner" "0xb51ff5ce" 4 ∷ permission "broadcaster" "0xb51ff5ce" 7 ∷ []))
        λ u. >>=-Keeps _ _ (check-Keeps node) λ check.
          >>=-Keeps _ _ (ownership_record-Keeps node suite check) λ id.
            >>=-Keeps _ _
              (sign_and_send-Keeps node suite suite.contract "0xb51ff5ce" "SIGN_META_APPROVE"
                transfer_ownership_approval_with_meta_tx id)
              λ v.
                >>=-Keeps _ _ (wallet-Keeps "recovery")
                  λ w. status-Keeps 3 "Transaction completed successfully" (some w) id

  address-Keeps : (o : Option String) → Counts (role_address node suite o)
  address-Keeps none = throw-Keeps _
  address-Keeps (some a) = pure-Keeps a

  verify-Keeps : (message : String) → Counts (test_verify_ownership_change node suite message)
  unfolding test_verify_ownership_change
  verify-Keeps message = >>=-Keeps _ _ (call-Keeps node.owner none) λ owner.
      gets-Keeps (λ s. s.roles.recovery) _
        λ known. >>=-Keeps _ _ (address-Keeps known) λ recovery.
          >>=-Keeps _ _ (assert-Keeps (same_address owner recovery) message) λ u.
            modify-Keeps
              (λ s. record s {
                roles = record s.roles { owner = some owner };
                role_wallets = record s.role_wallets { owner = s.role_wallets.recovery };
              })
              (λ s. refl)

  step8-Keeps : Counts (test_step8_update_recovery_address node suite)
  unfolding test_step8_update_recovery_address
  step8-Keeps = >>=-Keeps _ _ (call-Keeps node.get_recovery none) λ current.
      >>=-Keeps _ _ (unused-Keeps "recovery" current) λ new.
        >>=-Keeps _ _ (call-Keeps (suite.update_recovery_execution_options new) none) λ options.
          >>=-Keeps _ _ (params-Keeps node suite "0x2aa09cf6" "SIGN_META_REQUEST_AND_APPROVE") λ p.
            >>=-Keeps _ _ (wallet-Keeps "owner") λ owner.
              >>=-Keeps _ _
                (call-Keeps
                  (suite.generate_unsigned_meta_transaction_for_new
                    (new_tx_params "RECOVERY_UPDATE" owner.address suite.contract_address options)
                    p)
                  none)
                λ m. >>=-Keeps _ _ (sign-Keeps node suite suite.contract m) λ signed.
                  >>=-Keeps _ _
                    (send_meta-Keeps node suite update_recovery_request_and_approve m signed)
                    λ u.
                      >>=-Keeps _ _
                        (modify-Keeps
                          (λ s. record s { roles = record s.roles { recovery = some new } })
                          (λ s. refl))
                        λ v. >>=-Keeps _ _ (find_wallet-Keeps new) λ w.
                          modify-Keeps
                            (λ s. record s {
                              role_wallets = record s.role_wallets { recovery = some w };
                            })
                            (λ s. refl)

  step10-Keeps : Counts (test_step10_time_delay_approve node suite)
  unfolding test_step10_time_delay_approve
  step10-Keeps =
      >>=-Keeps _ _
        (validate-Keeps node suite.web3.keccak256 (permission "owner" "0x6cd71b38" 1 ∷ []))
        λ u. >>=-Keeps _ _ (check-Keeps node) λ check.
          >>=-Keeps _ _ (ownership_record-Keeps node suite check) λ id.
            >>=-Keeps _ _ (wait-Keeps node suite 10 id) λ v.
              >>=-Keeps _ _ (wallet-Keeps "owner") λ w.
                >>=-Keeps _ _ (send-Keeps node (transfer_ownership_delayed_approval id) w) λ x.
                  >>=-Keeps _ _ (wallet-Keeps "recovery")
                    λ r. status-Keeps 3 "Transaction completed successfully" (some r) id

  pub ownership-Keeps : Counts (execute_ownership_tests node suite)
  unfolding execute_ownership_tests
  ownership-Keeps =
      let clean = cleanup-Keeps node suite "recovery" transfer_ownership_cancellation in
      >>=-Keeps _ _ step1-Keeps λ a. >>=-Keeps _ _ step2-Keeps λ b. >>=-Keeps _ _ clean λ c.
        >>=-Keeps _ _ request-Keeps λ d. >>=-Keeps _ _ step4-Keeps λ e. >>=-Keeps _ _ clean λ f.
          >>=-Keeps _ _ request-Keeps λ g. >>=-Keeps _ _ step6-Keeps λ h.
            >>=-Keeps _ _ (verify-Keeps "Ownership transferred to recovery address") λ i.
              >>=-Keeps _ _ step8-Keeps λ j. >>=-Keeps _ _ request-Keeps λ k.
                >>=-Keeps _ _ step10-Keeps
                  λ l. verify-Keeps "Ownership transferred to new recovery address"

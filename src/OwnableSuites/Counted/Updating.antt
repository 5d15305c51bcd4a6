-- ===== src/OwnableSuites/Counted/Updating.antt =====
-- The updates of the recovery address and of the time lock.
use guardian_safe.Prelude.{ℕ, String, not, Option, none, some, ◌==◌, refl}
use guardian_safe.Text.{◌<>◌, same_address}
use guardian_safe.Accounts.{Wallet}
use guardian_safe.SecureOwnable.Session.{
  update_recovery_request_and_approve, update_time_lock_request_and_approve, Node, wallet_named,
}
use guardian_safe.OwnableSuites.{SuiteNode}
use guardian_safe.OwnableSuites.Recovery.{
  recovery_wallet, follow_recovery, test_recovery_change, test_recovery_update,
}
use guardian_safe.OwnableSuites.TimelockPeriod.{
  verify_timelock, test_timelock_change, test_timelock_period_update,
}
use guardian_safe.OwnableSuites.Counted.Base.{
  Counts, pure-Keeps, throw-Keeps, >>=-Keeps, gets-Keeps, try_catch-Keeps, if-Keeps,
  address_of-Keeps, call-Keeps, modify-Keeps,
}
use guardian_safe.OwnableSuites.Counted.Ground.{assert-Keeps, check-Keeps}
use guardian_safe.OwnableSuites.Counted.Requesting.{unused-Keeps, sign_and_send_new-Keeps}

module _ {N : Type 0} (node : Node N) (suite : SuiteNode N) where
  recovery_wallet-Keeps : (w : Option Wallet) → Counts (recovery_wallet node suite w)
  recovery_wallet-Keeps w =
      modify-Keeps (λ s. record s { role_wallets = record s.role_wallets { recovery = w } })
        (λ s. refl)

  follow-Keeps : (new : String) → Counts (follow_recovery node suite new)
  unfolding follow_recovery
  follow-Keeps new =
      gets-Keeps (λ s. wallet_named "wallet4" s.wallets) _
        λ w₄. >>=-Keeps _ _ (address_of-Keeps w₄) λ a₄.
          if-Keeps (same_address new a₄) _ _ (recovery_wallet-Keeps w₄) (
            gets-Keeps (λ s. wallet_named "wallet3" s.wallets) _
              λ w₃.
                >>=-Keeps _ _ (address_of-Keeps w₃) λ a₃.
                  if-Keeps (same_address new a₃) _ _ (recovery_wallet-Keeps w₃) (pure-Keeps tt))

  recovery_change-Keeps :
      (new description : String) → Counts (test_recovery_change node suite new description)
  unfolding test_recovery_change
  recovery_change-Keeps new description =
      >>=-Keeps _ _ (call-Keeps (suite.update_recovery_execution_options new) none) λ options.
        >>=-Keeps _ _
          (sign_and_send_new-Keeps node suite "0x2aa09cf6" "RECOVERY_UPDATE"
            update_recovery_request_and_approve description options)
          λ u. >>=-Keeps _ _ (call-Keeps node.get_recovery none) λ updated.
            >>=-Keeps _ _
              (assert-Keeps (same_address updated new) ("Recovery address updated to " <> new))
              λ v.
                >>=-Keeps _ _
                  (modify-Keeps
                    (λ s. record s { roles = record s.roles { recovery = some updated } })
                    (λ s. refl))
                  λ x. follow-Keeps new

  pub recovery-Keeps : Counts (test_recovery_update node suite)
  unfolding test_recovery_update
  recovery-Keeps = >>=-Keeps _ _ (call-Keeps node.get_recovery none) λ printed.
      >>=-Keeps _ _ (check-Keeps node) λ check. >>=-Keeps _ _ (call-Keeps node.owner none) λ owner.
        >>=-Keeps _ _ (call-Keeps node.get_recovery none) λ current.
          if-Keeps (not (same_address current owner)) _ _
            (>>=-Keeps _ _ (unused-Keeps "recovery" current) λ new.
              >>=-Keeps _ _ (recovery_change-Keeps new "unused wallet")
                λ u. recovery_change-Keeps current "original recovery")
            (>>=-Keeps _ _ (unused-Keeps "recovery" current)
              λ new. recovery_change-Keeps new "unused wallet")

  verify_timelock-Keeps :
      (seconds : ℕ) (digits : String) → Counts (verify_timelock node suite seconds digits)
  unfolding verify_timelock
  verify_timelock-Keeps seconds digits =
      try_catch-Keeps _ _
        (>>=-Keeps _ _ (call-Keeps suite.get_time_lock_period_sec none) λ updated.
          assert-Keeps (updated == seconds)
            ("Timelock period updated to " <> digits <> " second(s)"))
        (λ message. throw-Keeps ("Timelock period update verification failed: " <> message))

  timelock_change-Keeps :
      (seconds : ℕ) (digits description : String)
      → Counts (test_timelock_change node suite seconds digits description)
  unfolding test_timelock_change
  timelock_change-Keeps seconds digits description =
      >>=-Keeps _ _ (call-Keeps (suite.update_time_lock_execution_options seconds) none) λ options.
        >>=-Keeps _ _
          (sign_and_send_new-Keeps node suite "0x59474230" "TIMELOCK_UPDATE"
            update_time_lock_request_and_approve description options)
          λ u. verify_timelock-Keeps seconds digits

  pub timelock-Keeps : Counts (test_timelock_period_update node suite)
  unfolding test_timelock_period_update
  timelock-Keeps =
      >>=-Keeps _ _
        (try_catch-Keeps _ _ (call-Keeps suite.get_time_lock_period_sec none)
          (λ message. pure-Keeps 0))
        λ printed. >>=-Keeps _ _ (check-Keeps node) λ check.
          >>=-Keeps _ _
            (try_catch-Keeps _ _ (call-Keeps suite.get_time_lock_period_sec none)
              (λ message. pure-Keeps 1))
            λ current. if-Keeps (current == 1) _ _ (timelock_change-Keeps 2 "2" "2 seconds") (
              if-Keeps (current == 2) _ _ (timelock_change-Keeps 1 "1" "1 second")
                (timelock_change-Keeps 1 "1" "1 second"))

-- ===== src/OwnableSuites/TimelockPeriod.antt =====
-- scripts/sanity/secure-ownable/timelock-period-tests.js: the class `TimelockPeriodTests`. Whether
-- the contract has the two functions is printed only.
use guardian_safe.Prelude.{ℕ, String, none, if◌then◌else◌, ◌==◌}
use guardian_safe.Text.{◌<>◌}
use guardian_safe.Script.{Script, pure, try_catch, ◌>>=◌, ◌>>◌}
use guardian_safe.SecureOwnable.Session.{
  update_time_lock_request_and_approve, Node, Session, prefix_errors, call_contract_method,
}
use guardian_safe.SecureOwnable.Pending.{check_pending_transactions}
use guardian_safe.SecureOwnable.Run.{assert_test}
use guardian_safe.OwnableSuites.{SuiteNode}
use guardian_safe.OwnableSuites.MetaTx.{sign_and_send_new}

module _ {N : Type 0} (node : Node N) (suite : SuiteNode N) where
  unfoldable pub verify_timelock : ℕ → String → Script (Session N) (Unit {0})
  verify_timelock new_timelock digits =
      prefix_errors "Timelock period update verification failed: " (do
        updated_timelock ← call_contract_method suite.get_time_lock_period_sec none
        assert_test (updated_timelock == new_timelock)
            ("Timelock period updated to " <> digits <> " second(s)"))

  -- with the period in digits, as it is printed into the message
  unfoldable pub test_timelock_change : ℕ → String → String → Script (Session N) (Unit {0})
  test_timelock_change new_timelock digits description = do
    options ← call_contract_method (suite.update_time_lock_execution_options new_timelock) none
    sign_and_send_new node suite "0x59474230" "TIMELOCK_UPDATE" update_time_lock_request_and_approve
        description options
    verify_timelock new_timelock digits

  unfoldable pub test_timelock_period_update : Script (Session N) (Unit {0})
  test_timelock_period_update = do
    printed ← try_catch (call_contract_method suite.get_time_lock_period_sec none) (λ _. pure 0)
    pending_check ← check_pending_transactions node
    current_timelock ←
        try_catch (call_contract_method suite.get_time_lock_period_sec none) (λ _. pure 1)
    if current_timelock == 1
        then test_timelock_change 2 "2" "2 seconds"
        else if current_timelock == 2
        then test_timelock_change 1 "1" "1 second"
        else test_timelock_change 1 "1" "1 second"

  abbrev pub execute_timelock_tests : Script (Session N) (Unit {0})
  execute_timelock_tests = test_timelock_period_update

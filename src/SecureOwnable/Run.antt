-- ===== src/SecureOwnable/Run.antt =====
-- `assertTest`, `handleTestError` and `runTest`.
pub mod Counts
use guardian_safe.Prelude.{
  ℕ, ◌+◌, String, Bool, true, false, Option, none, some, if◌then◌else◌, ◌==◌,
}
use guardian_safe.Text.{◌<>◌}
use guardian_safe.Script.{Result, Script, pure, throw, gets, modify, try_catch, ◌>>=◌, ◌>>◌}
use guardian_safe.SecureOwnable.Session.{TestResults, Node, Session, now}

abbrev pub count_test : TestResults → TestResults
count_test r = record r { total_tests = r.total_tests + 1 }

abbrev pub count_passed : TestResults → TestResults
count_passed r = record r { passed_tests = r.passed_tests + 1 }

abbrev pub count_failed : TestResults → TestResults
count_failed r = record r { failed_tests = r.failed_tests + 1 }

module _ {N : Type 0} where
  abbrev pub on_results : (TestResults → TestResults) → Script (Session N) (Unit {0})
  on_results f = modify (λ s. record s { test_results = f s.test_results })

  unfoldable pub assert_test : Bool → String → Script (Session N) (Unit {0})
  assert_test condition message = do
    on_results count_test
    if condition
        then on_results count_passed
        else (do on_results count_failed; throw ("Test assertion failed: " <> message))

  unfoldable pub handle_test_error : String → Script (Session N) (Unit {0})
  handle_test_error message = on_results count_failed

module _ {N : Type 0} (node : Node N) where
  -- `initialize` and `executeTests` of the class of the test
  module _ (initialize execute_tests : Script (Session N) (Unit {0})) where
    unfoldable pub run_test : Script (Session N) Bool
    unfolding handle_test_error
    run_test = do
      start ← now node
      on_results (λ r. record r { start_time = some start })
      try_catch
          (do
            initialize
            execute_tests
            end ← now node
            on_results (λ r. record r { end_time = some end })
            gets (λ s. s.test_results.failed_tests == 0))
          (λ message. do
            end ← now node
            on_results (λ r. record r { end_time = some end })
            handle_test_error message
            pure false)

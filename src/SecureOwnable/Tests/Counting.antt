-- ===== src/SecureOwnable/Tests/Counting.antt =====
-- The counts of a run on the small node.
use guardian_safe.Prelude.{◌≡◌, refl, true, false, some}
use guardian_safe.Script.{err, Script, pure}
use guardian_safe.SecureOwnable.Session.{Session}
use guardian_safe.SecureOwnable.Run.{assert_test, run_test}
use guardian_safe.SecureOwnable.Run.Counts.{
  IsCounted, KeepsCount, assert_test-KeepsCount, Outcome, run_test-Outcome,
}
use guardian_safe.SecureOwnable.Tests.{suite, Chain, node, no_results, ready}

abbrev nothing : Script (Session Chain) (Unit {0})
nothing = pure tt

abbrev failing : Script (Session Chain) (Unit {0})
failing = assert_test false "x"

nothing-KeepsCount : KeepsCount nothing
nothing-KeepsCount = record { at = λ s h. h }

twice_counted : (run_test (node true) nothing failing ready).1.test_results ≡ record no_results {
  total_tests = 1;
  failed_tests = 2;
  start_time = some 7;
  end_time = some 7;
}
unfolding suite
twice_counted = refl

run_test-Outcome_example :
    Outcome
      (node true)
      nothing
      failing
      (run_test (node true) nothing failing ready).0
      (run_test (node true) nothing failing ready).1.test_results
run_test-Outcome_example =
    run_test-Outcome (node true) nothing failing ready nothing-KeepsCount
      (assert_test-KeepsCount false "x") refl

abbrev failed_once : Session Chain
failed_once = record ready {
  test_results = record no_results { total_tests = 1; failed_tests = 1; start_time = some 7 };
}

assertion_throws :
    failing (record ready { test_results = record no_results { start_time = some 7 } })
    ≡ (err "Test assertion failed: x", failed_once)
unfolding suite
assertion_throws = refl

failed_once-IsCounted : IsCounted failed_once.test_results
failed_once-IsCounted = refl

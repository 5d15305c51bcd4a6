-- ===== src/SecureOwnable/Run/Counts.antt =====
-- The counts of a run.
use guardian_safe.Prelude.{some, ◌+◌, ◌<◌, String, ◌≡◌, Bool, true, false, ◌⊎◌, arith}
use guardian_safe.Script.{Result, ok, err, Script}
use guardian_safe.SecureOwnable.Session.{TestResults, Node, Session}
use guardian_safe.SecureOwnable.Run.{assert_test, run_test}

-- Every test that was begun has passed or failed.
abbrev pub IsCounted : TestResults → Type 0
IsCounted r = r.passed_tests + r.failed_tests ≡ r.total_tests

pub record KeepsCount {N : Type 0} (m : Script (Session N) (Unit {0})) : Type 0 where
  pub at : (s : Session N) → IsCounted s.test_results → IsCounted (m s).1.test_results

-- An assertion counts its test once, as passed or as failed.
pub assert_test-KeepsCount :
    {N : Type 0} (condition : Bool) (message : String)
    → KeepsCount {N = N} (assert_test condition message)
unfolding assert_test
assert_test-KeepsCount true message = record { at = λ s h. ground arith }
assert_test-KeepsCount false message = record { at = λ s h. ground arith }

module _ {N : Type 0} (node : Node N)
    (initialize execute_tests : Script (Session N) (Unit {0})) where
  abbrev started : Session N → Session N
  started s =
      let (time, n) = node.date_now s.node in
      record s { node = n; test_results = record s.test_results { start_time = some time } }

  -- What a run returns and counts: true, and then every test passed; or false, and then at least
  -- one failure is counted, and as many outcomes as tests, or one more.
  abbrev pub Outcome : Result Bool → TestResults → Type 0
  Outcome r t =
      ((r ≡ ok true) × (t.failed_tests ≡ 0) × (t.passed_tests ≡ t.total_tests))
      ⊎ ((r ≡ ok false)
          × (0 < t.failed_tests)
          × (IsCounted t ⊎ (t.passed_tests + t.failed_tests ≡ t.total_tests + 1)))

  -- If the initialization and the tests of a run keep the count of tests, and every test begun
  -- before is counted, the run does not throw: it returns true, and then no test failed and all
  -- passed, or false, and then a failure is on record, and as many outcomes as tests or one more.
  pub run_test-Outcome :
      (s : Session N)
      → KeepsCount initialize
      → KeepsCount execute_tests
      → IsCounted s.test_results
      → Outcome
          (run_test node initialize execute_tests s).0
          (run_test node initialize execute_tests s).1.test_results
  unfolding run_test
  run_test-Outcome s i e h =
      let s₁ : Session N = (initialize (started s)).1 in
      let counted₁ : IsCounted s₁.test_results = i.at (started s) h in
      let counted₂ : IsCounted (execute_tests s₁).1.test_results = e.at s₁ counted₁ in ground arith

  -- When the tests throw after every begun test was counted once, as a failed assertion does, the
  -- run returns false with one outcome more than tests.
  pub run_test-thrown :
      (s s₁ s₂ : Session N) (message : String)
      → initialize (started s) ≡ (ok tt, s₁)
      → execute_tests s₁ ≡ (err message, s₂)
      → IsCounted s₂.test_results
      → ((run_test node initialize execute_tests s).0 ≡ ok false)
        × ((run_test node initialize execute_tests s).1.test_results.passed_tests
              + (run_test node initialize execute_tests s).1.test_results.failed_tests
            ≡ (run_test node initialize execute_tests s).1.test_results.total_tests + 1)
  unfolding run_test
  run_test-thrown s s₁ s₂ message p q h = ground arith

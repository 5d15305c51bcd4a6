-- ===== src/Workflow/Execution/Counted.antt =====
-- The counts of a workflow test.
use guardian_safe.Prelude.{
  ◌+◌, String, ◌≡◌, refl, Bool, true, false, ◌↔◌, inl, inr, [], ◌∷◌, arith, length, length-append,
}
use guardian_safe.Script.{ok, Script, Result-cases}
use guardian_safe.Workflow.Execution.{WorkflowResults, WorkflowTest, count_total, execute_test}

-- Every test has passed or failed, and every failure has its error on record.
pub record IsComplete (r : WorkflowResults) : Type 0 where
  pub counted : r.passed_tests + r.failed_tests ≡ r.total_tests
  pub recorded : length r.errors ≡ r.failed_tests

module _ {N : Type 0} (test : Script (WorkflowTest N) (Unit {0})) where
  abbrev begun : WorkflowTest N → WorkflowTest N
  begun s = record s { test_results = count_total s.test_results }

  -- A test that leaves the counts alone is counted once: `executeTest` does not throw, answers
  -- whether the test returned, and keeps the counts complete.
  pub execute_test-IsComplete :
      (name : String) (s : WorkflowTest N)
      → (test (begun s)).1.test_results ≡ count_total s.test_results
      → IsComplete s.test_results
      → (b : Bool) × ((execute_test name test s).0 ≡ ok b)
        × ((b ≡ true) ↔ ((test (begun s)).0 ≡ ok tt))
        × IsComplete (execute_test name test s).1.test_results
  unfolding execute_test
  execute_test-IsComplete name s e h = elim (Result-cases (test (begun s)).0) [
    | inl (u, p) ↦ (true, ground arith, ((λ _. cc (p)), (λ _. refl)), ground arith)
    | inr (message, p) ↦ (
      false,
      ground arith,
      ((λ c. cc), (λ q. cc (p, q))),
      record {
        counted = ground arith;
        recorded = ground (
          arith,
          length-append s.test_results.errors (record { test = name; error = message } ∷ []),
        );
      },
    )
  ]

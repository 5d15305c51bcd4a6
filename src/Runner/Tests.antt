-- ===== src/Runner/Tests.antt =====
-- Runs of the runners on a small world, and their theorems at them.
use guardian_safe.Prelude.{ℕ, suc, ◌+◌, ◌≡◌, refl, Bool, true, false, none, some, [], ◌∷◌}
use guardian_safe.Script.{ok, Script, pure, throw}
use guardian_safe.Runner.Results.{Results, Runner}
use guardian_safe.Runner.Suites.{
  parse_arguments, TestSuites, test_suite, run_test_suite, run_suites, run_tests, run,
}
use guardian_safe.Runner.Suites.Counts.{Exits, run-Exits}
use guardian_safe.Runner.Standalone
use guardian_safe.Runner.Standalone.{TestClass, exit_code}
use guardian_safe.Runner.Standalone.Passing.{run_test_suite-passed, exit_code_zero}

suite : Unit {0}
unfolding parse_arguments test_suite run_test_suite run_suites run_tests run
suite = tt

-- The world counts the suites that were run; it is the clock as well.
abbrev now : ℕ → ℕ × ℕ
now w = (w, w)

abbrev in_time : Script ℕ Bool
in_time = pure false

abbrev passing : Script ℕ Bool
passing w = (ok true, suc w)

abbrev throwing : Script ℕ Bool
throwing = throw "no node"

abbrev suites : TestSuites ℕ
suites = record {
  timelock = passing;
  recovery = throwing;
  broadcaster = passing;
  ownership = passing;
  eip712 = passing;
}

abbrev results : Results
results = record {
  total_suites = 0;
  passed_suites = 0;
  failed_suites = 0;
  start_time = none;
  end_time = none;
}

abbrev idle : Runner ℕ
idle = record { world = 3; results = results }

run_two : run now in_time suites ("--recovery" ∷ "--timelock" ∷ []) idle ≡ (
  some 1,
  record {
    world = 4;
    results = record {
      total_suites = 2;
      passed_suites = 1;
      failed_suites = 1;
      start_time = some 3;
      end_time = some 4;
    };
  },
)
unfolding suite
run_two = refl

parsed : parse_arguments ("--eip712" ∷ "--timelock" ∷ []) ≡ some ("timelock" ∷ "eip712" ∷ [])
unfolding suite
parsed = refl

abbrev after : Runner ℕ
after = (run now in_time suites ("--recovery" ∷ "--timelock" ∷ []) idle).1

selected : parse_arguments ("--recovery" ∷ "--timelock" ∷ []) ≡ some ("timelock" ∷ "recovery" ∷ [])
unfolding suite
selected = refl

run-Exits_example :
    (code : ℕ) × ((run now in_time suites ("--recovery" ∷ "--timelock" ∷ []) idle).0 ≡ some code)
    × (after.results.passed_suites + after.results.failed_suites ≡ 2)
    × Exits in_time suites now code after.results
run-Exits_example =
    run-Exits in_time suites now ("--recovery" ∷ "--timelock" ∷ []) ("timelock" ∷ "recovery" ∷ [])
      idle selected refl refl

-- A suite that cannot reach its node.
abbrev unreachable : TestClass ℕ
unreachable = record { construct = pure tt; initialize = throw "no node"; execute_tests = pure tt }

run_test_suite-passed_example :
    ((Standalone.run_test_suite unreachable idle).0 ≡ ok tt)
    × ((Standalone.run_test_suite unreachable idle).1.results
        ≡ record results { passed_suites = 0 + 1 })
run_test_suite-passed_example = run_test_suite-passed unreachable idle 3 refl

exit_code_zero_example : exit_code now "--withdrawal" unreachable ("--all" ∷ []) idle ≡ 0
exit_code_zero_example = exit_code_zero unreachable now "--withdrawal" ("--all" ∷ []) idle

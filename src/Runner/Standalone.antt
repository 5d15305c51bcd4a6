-- ===== src/Runner/Standalone.antt =====
-- `SimpleVaultTestRunner` and `SimpleRWA20TestRunner`, which differ in the name of their one suite,
-- and `runTests` of the suite's base class, which catches what a test throws.
pub mod Passing
use guardian_safe.Prelude.{
  ℕ, ◌+◌, String, Bool, true, false, Option, none, some, List, [], ◌∷◌, ◌==◌, ◌&&◌, ◌||◌, not,
  if◌then◌else◌, str_eq, select,
}
use guardian_safe.Text.{codes, includes}
use guardian_safe.Script.{Result, ok, err, Script, pure, try_catch, ◌>>=◌, ◌>>◌}
use guardian_safe.Runner.Results.{Results, Runner, count_passed, count_failed, in_world, on_results}
use guardian_safe.Runner.Suites.{no_arguments}

-- `arg.startsWith('--')`
abbrev pub starts_with_dashes : List ℕ → Bool
starts_with_dashes (a ∷ b ∷ rest) = a == b'-' && b == b'-'
starts_with_dashes _ = false

abbrev exit_of : Result (Unit {0}) → ℕ
exit_of (ok u) = 0
exit_of (err message) = 1

-- `new TestClass()`, which may throw, and then `initialize` and `executeTests` of the object.
pub record TestClass (W : Type 0) : Type 0 where
  pub construct : Script W (Unit {0})
  pub initialize : Script W (Unit {0})
  pub execute_tests : Script W (Unit {0})

abbrev pub count_suite : Results → Results
count_suite r = record r { total_suites = r.total_suites + 1 }

module _ {W : Type 0} where
  -- `runTests` of `BaseSimpleVaultTest`: the end time and the printed results are left out.
  unfoldable pub suite_run_tests : TestClass W → Script W (Unit {0})
  suite_run_tests c = try_catch (do c.initialize; c.execute_tests) (λ _. pure tt)

  unfoldable pub run_test_suite : TestClass W → Script (Runner W) (Unit {0})
  unfolding suite_run_tests
  run_test_suite c =
      try_catch (do in_world c.construct; in_world (suite_run_tests c); on_results count_passed)
        (λ _. on_results count_failed)

  module _ (now : W → ℕ × W) (key : String) (suite : TestClass W) where
    abbrev time : Script (Runner W) ℕ
    time s = let (t, w) = now s.world in (ok t, record s { world = w })

    abbrev counted_suite : Script (Runner W) (Unit {0})
    counted_suite = do on_results count_suite; run_test_suite suite

    -- the loop over `Object.entries(this.testSuites)` has one round
    unfoldable pub run_all_tests : Script (Runner W) (Unit {0})
    run_all_tests = do
      start ← time
      on_results (λ r. record r { start_time = some start })
      counted_suite
      end ← time
      on_results (λ r. record r { end_time = some end })

    unfoldable pub run_requested : List String → Script (Runner W) (Unit {0})
    run_requested [] = pure tt
    run_requested (name ∷ names) = do
      (if str_eq name key then counted_suite else pure tt)
      run_requested names

    unfoldable pub run_specific_tests : List String → Script (Runner W) (Unit {0})
    run_specific_tests names = do
      start ← time
      on_results (λ r. record r { start_time = some start })
      run_requested names
      end ← time
      on_results (λ r. record r { end_time = some end })

    abbrev pub run_unless_empty : List String → Script (Runner W) (Unit {0})
    run_unless_empty [] = pure tt
    run_unless_empty (name ∷ names) = run_specific_tests (name ∷ names)

    -- The printed usage is left out.
    unfoldable pub run : List String → Script (Runner W) (Unit {0})
    run args =
        if no_arguments args || includes "--help" args
        then pure tt
        else if includes "--all" args
        then run_all_tests
        else run_unless_empty (select (λ arg. not (starts_with_dashes (codes arg))) args)

    -- `runner.run().catch(error => { …; process.exit(1); })`

    unfoldable pub exit_code : List String → Runner W → ℕ
    unfolding run
    exit_code args s = exit_of (run args s).0

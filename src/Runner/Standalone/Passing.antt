-- ===== src/Runner/Standalone/Passing.antt =====
-- What the runner reports of a suite that fails.
use guardian_safe.Prelude.{
  ℕ, ◌+◌, String, ◌≡◌, refl, true, false, some, List, [], ◌∷◌, arith, str_eq, Bool-cases, inl, inr,
  All, not, select,
}
use guardian_safe.Script.{ok}
use guardian_safe.Text.{codes, includes}
use guardian_safe.Runner.Results.{Runner}
use guardian_safe.Runner.Standalone.{
  starts_with_dashes, TestClass, run_test_suite, run_all_tests, run_requested, run_specific_tests,
  run, exit_code, count_suite, run_unless_empty,
}

module _ {W : Type 0} (suite : TestClass W) where
  -- A suite whose object can be made counts as passed, whatever its initialisation and its tests
  -- throw.
  pub run_test_suite-passed :
      (s : Runner W) (w : W)
      → suite.construct s.world ≡ (ok tt, w)
      → ((run_test_suite suite s).0 ≡ ok tt)
        × ((run_test_suite suite s).1.results
            ≡ record s.results { passed_suites = s.results.passed_suites + 1 })
  unfolding run_test_suite
  run_test_suite-passed s w e = ground arith

  run_test_suite-returns : (s : Runner W) → (run_test_suite suite s).0 ≡ ok tt
  unfolding run_test_suite
  run_test_suite-returns s = ground arith

  module _ (now : W → ℕ × W) (key : String) where
    run_requested-returns :
        (names : List String) (s : Runner W) → (run_requested now key suite names s).0 ≡ ok tt
    unfolding run_requested
    run_requested-returns [] s = refl
    run_requested-returns (name ∷ names) s =
        let s₁ : Runner W = record s { results = count_suite s.results } in
        elim (Bool-cases (str_eq name key)) [
          | inl same ↦ rw same (
              ground (
                arith,
                run_test_suite-returns s₁,
                run_requested-returns names (run_test_suite suite s₁).1,
              ))
          | inr other ↦ rw other (run_requested-returns names s)
        ]

    run_all_tests-returns : (s : Runner W) → (run_all_tests now key suite s).0 ≡ ok tt
    unfolding run_all_tests
    run_all_tests-returns s = ground (
      arith,
      run_test_suite-returns (record s {
        world = (now s.world).1;
        results = count_suite (record s.results { start_time = some (now s.world).0 });
      }),
    )

    run_unless_empty-returns :
        (names : List String) (s : Runner W) → (run_unless_empty now key suite names s).0 ≡ ok tt
    unfolding run_specific_tests
    run_unless_empty-returns [] s = refl
    run_unless_empty-returns (name ∷ names) s = ground (
      arith,
      run_requested-returns (name ∷ names) (record s {
        world = (now s.world).1;
        results = record s.results { start_time = some (now s.world).0 };
      }),
    )

    -- The process exits with 0 whatever the arguments and however the suite ends.
    pub exit_code_zero : (args : List String) (s : Runner W) → exit_code now key suite args s ≡ 0
    unfolding exit_code
    exit_code_zero args s = ground (
      arith,
      run_all_tests-returns s,
      run_unless_empty-returns (select (λ arg. not (starts_with_dashes (codes arg))) args) s,
    )

    select-options :
        (args : List String)
        → All (λ arg. starts_with_dashes (codes arg) ≡ true) args
        → select (λ arg. not (starts_with_dashes (codes arg))) args ≡ []
    select-options [] h = refl
    select-options (arg ∷ args) (p, h) = rw p (select-options args h)

    -- Arguments that all begin with two dashes, with no `--all` among them, run no suite: the
    -- results stay as they were.
    pub run_of_options :
        (args : List String) (s : Runner W)
        → All (λ arg. starts_with_dashes (codes arg) ≡ true) args
        → includes "--all" args ≡ false
        → run now key suite args s ≡ (ok tt, s)
    unfolding run
    run_of_options args s h e = rw (e, select-options args h) (ground arith)

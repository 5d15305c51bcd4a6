-- ===== src/Runner/Suites/Counts.antt =====
-- What a run of the suites counts and which code it exits with.
use guardian_safe.Prelude.{
  ℕ, ◌+◌, ◌<◌, String, ◌≡◌, refl, Bool, true, ◌⊎◌, inl, inr, subst, some-injective, some, List, [],
  ◌∷◌, ◌++◌, arith, length, All, Option-cases, ◌≢◌,
}
use guardian_safe.Script.{ok, Script, Result-cases}
use guardian_safe.Text.{includes}
use guardian_safe.Runner.Results.{Results, Runner}
use guardian_safe.Runner.Suites.{
  parse_arguments, some_unless_empty, option_suite, TestSuites, test_suite, run_test_suite,
  run_suites, run_tests, run, exit_code,
}

-- The names that have a suite.
abbrev pub suite_names : List String
suite_names = "timelock" ∷ "recovery" ∷ "broadcaster" ∷ "ownership" ∷ "eip712" ∷ []

abbrev pub IsKnown : String → Type 0
IsKnown name = includes name suite_names ≡ true

All-append : (xs ys : List String) → All IsKnown xs → All IsKnown ys → All IsKnown (xs ++ ys)
All-append [] ys h k = k
All-append (x ∷ xs) ys (p, h) k = (p, All-append xs ys h k)

option_suite-IsKnown :
    (args : List String) (option suite : String)
    → IsKnown suite
    → All IsKnown (option_suite args option suite)
option_suite-IsKnown args option suite h = ground arith

some_unless_empty-IsKnown :
    (xs names : List String)
    → some_unless_empty xs ≡ some names
    → All IsKnown xs
    → (names ≢ []) × All IsKnown names
some_unless_empty-IsKnown [] names h k = cc
some_unless_empty-IsKnown (x ∷ xs) names h k =
    subst (λ ys. (ys ≢ []) × All IsKnown ys) (some-injective _ _ h) ((λ e. cc), k)

-- Whatever the arguments, the selection is nothing or a list, not empty, of names of suites.
pub parse_arguments-IsKnown :
    (args names : List String)
    → parse_arguments args ≡ some names
    → (names ≢ []) × All IsKnown names
unfolding parse_arguments
parse_arguments-IsKnown args names h = ground (
  arith,
  some_unless_empty-IsKnown
      (option_suite args "--timelock" "timelock"
        ++ (option_suite args "--recovery" "recovery"
            ++ (option_suite args "--broadcaster" "broadcaster"
                ++ (option_suite args "--ownership" "ownership"
                    ++ option_suite args "--eip712" "eip712"))))
      names,
)

abbrev outcomes : Results → ℕ
outcomes r = r.passed_suites + r.failed_suites

module _ {W : Type 0} (timed_out : Script W Bool) (suites : TestSuites W) where
  test_suite-IsKnown :
      (name : String) → IsKnown name → (m : Script W Bool) × (test_suite suites name ≡ some m)
  unfolding test_suite
  test_suite-IsKnown name h = elim (Option-cases (test_suite suites name)) [
    | inl missing ↦ absurd (ground arith)
    | inr found ↦ found
  ]

  run_test_suite-counts :
      (name : String) (suite : Script W Bool) (s : Runner W)
      → (b : Bool) × ((run_test_suite timed_out name suite s).0 ≡ ok b)
        × (outcomes (run_test_suite timed_out name suite s).1.results ≡ outcomes s.results + 1)
        × ((run_test_suite timed_out name suite s).1.results.total_suites ≡ s.results.total_suites)
  unfolding run_test_suite
  run_test_suite-counts name suite s =
      elim (Result-cases (run_test_suite timed_out name suite s).0) [
        | inl (b, e) ↦ (b, e, ground arith, ground arith)
        | inr (message, e) ↦ absurd (ground arith)
      ]

  run_suites-counts :
      (names : List String) (s : Runner W)
      → All IsKnown names
      → (l : List (String × Bool)) × ((run_suites timed_out suites names s).0 ≡ ok l)
        × (outcomes (run_suites timed_out suites names s).1.results
            ≡ outcomes s.results + length names)
        × ((run_suites timed_out suites names s).1.results.total_suites ≡ s.results.total_suites)
  unfolding run_suites
  run_suites-counts [] s h = ([], refl, omega arith, refl)
  run_suites-counts (name ∷ names) s (k, h) =
      let (m, found) = test_suite-IsKnown name k in
      let (b, ran, counted, same) = run_test_suite-counts name m s in
      let s₁ = (run_test_suite timed_out name m s).1 in
      let (l, rest, counted₁, same₁) = run_suites-counts names s₁ h in
      ((name, b) ∷ l, ground arith, ground arith, ground arith)

  module _ (now : W → ℕ × W) where
    -- The code that a run with these results exits with.
    abbrev pub Exits : ℕ → Results → Type 0
    Exits code r = ((code ≡ 0) × (r.failed_suites ≡ 0)) ⊎ ((code ≡ 1) × (0 < r.failed_suites))

    abbrev started : List String → Runner W → Runner W
    started names s =
        let (t, w) = now s.world in
        record s {
          world = w;
          results = record s.results { start_time = some t; total_suites = length names };
        }

    run_tests-Exits :
        (names : List String) (s : Runner W)
        → All IsKnown names
        → s.results.passed_suites ≡ 0
        → s.results.failed_suites ≡ 0
        → (outcomes (run_tests now timed_out suites names s).1.results ≡ length names)
          × Exits
              (exit_code (run_tests now timed_out suites names s).0)
              (run_tests now timed_out suites names s).1.results
    unfolding run_tests
    run_tests-Exits names s k p f =
        let (l, ran, counted, same) = run_suites-counts names (started names s) k in
        (ground arith, ground arith)

    -- A runner that starts with no suite counted, and with arguments that select some suites, counts
    -- as many outcomes as it selected suites, each passed or failed, and exits: with 0 if none
    -- failed, and with 1 otherwise.
    pub run-Exits :
        (args names : List String) (s : Runner W)
        → parse_arguments args ≡ some names
        → s.results.passed_suites ≡ 0
        → s.results.failed_suites ≡ 0
        → (code : ℕ) × ((run now timed_out suites args s).0 ≡ some code)
          × ((run now timed_out suites args s).1.results.passed_suites
                + (run now timed_out suites args s).1.results.failed_suites
              ≡ length names)
          × Exits code (run now timed_out suites args s).1.results
    unfolding run
    run-Exits args names s e p f =
        let (counted, exits) =
          run_tests-Exits names s (parse_arguments-IsKnown args names e).1 p f in
        (exit_code (run_tests now timed_out suites names s).0, rw e, rw e counted, rw e exits)

-- ===== src/Runner/Suites.antt =====
-- `SecureOwnableTestRunner`. A suite is its class: `new TestClass()` and `runTest()` as one action.
-- `W` is the world of the suites, with the clock and the timers.
pub mod Counts
use guardian_safe.Prelude.{
  ℕ, String, Bool, true, false, Option, none, some, List, [], ◌∷◌, ◌++◌, ◌==◌, ◌||◌, if◌then◌else◌,
  str_eq, length,
}
use guardian_safe.Text.{◌<>◌, includes}
use guardian_safe.Script.{Result, ok, err, Script, pure, throw, gets, try_catch, ◌>>=◌, ◌>>◌}
use guardian_safe.Runner.Results.{Results, Runner, count_passed, count_failed, in_world, on_results}

-- the answers of `parseArguments`; `null` is `none`
abbrev pub some_unless_empty : List String → Option (List String)
some_unless_empty [] = none
some_unless_empty (x ∷ xs) = some (x ∷ xs)

abbrev pub option_suite : List String → String → String → List String
option_suite args option suite = if includes option args then suite ∷ [] else []

abbrev pub no_arguments : List String → Bool
no_arguments [] = true
no_arguments (x ∷ xs) = false

unfoldable pub parse_arguments : List String → Option (List String)
parse_arguments args =
    if no_arguments args || includes "--help" args
    then none
    else if includes "--all" args
    then some ("timelock" ∷ "recovery" ∷ "broadcaster" ∷ "ownership" ∷ "eip712" ∷ [])
    else some_unless_empty (
        option_suite args "--timelock" "timelock"
        ++ (option_suite args "--recovery" "recovery"
            ++ (option_suite args "--broadcaster" "broadcaster"
                ++ (option_suite args "--ownership" "ownership"
                    ++ option_suite args "--eip712" "eip712"))))

-- `this.testSuites`
pub record TestSuites (W : Type 0) : Type 0 where
  pub timelock : Script W Bool
  pub recovery : Script W Bool
  pub broadcaster : Script W Bool
  pub ownership : Script W Bool
  pub eip712 : Script W Bool

abbrev pub exit_code : Result Bool → ℕ
exit_code (ok success) = if success then 0 else 1
exit_code (err message) = 1

module _ {W : Type 0} where
  unfoldable pub test_suite : TestSuites W → String → Option (Script W Bool)
  test_suite suites name =
      if str_eq name "timelock"
      then some suites.timelock
      else if str_eq name "recovery"
      then some suites.recovery
      else if str_eq name "broadcaster"
      then some suites.broadcaster
      else if str_eq name "ownership"
      then some suites.ownership
      else if str_eq name "eip712"
      then some suites.eip712
      else none

  -- `Promise.race` of the suite and a timer of five minutes: the timer is first if `timed_out`
  -- says so.
  unfoldable pub run_test_suite : Script W Bool → String → Script W Bool → Script (Runner W) Bool
  run_test_suite timed_out name suite =
      try_catch
        (do
          late ← in_world timed_out
          success ←
              if late
              then throw ("Test suite '" <> name <> "' timed out after 5 minutes")
              else in_world suite
          on_results (if success then count_passed else count_failed)
          pure success)
        (λ message. do on_results count_failed; pure false)

  -- one round of the loop: the entry of `suiteResults`, if the suite is known
  abbrev run_named :
      Script W Bool → String → Option (Script W Bool) → Script (Runner W) (List (String × Bool))
  run_named timed_out name none = pure []
  run_named timed_out name (some suite) = do
    success ← run_test_suite timed_out name suite
    pure ((name, success) ∷ [])

  unfoldable pub run_suites :
      Script W Bool → TestSuites W → List String → Script (Runner W) (List (String × Bool))
  run_suites timed_out suites [] = pure []
  run_suites timed_out suites (name ∷ names) = do
    entry ← run_named timed_out name (test_suite suites name)
    rest ← run_suites timed_out suites names
    pure (entry ++ rest)

  module _ (now : W → ℕ × W) where
    abbrev time : Script (Runner W) ℕ
    time s = let (t, w) = now s.world in (ok t, record s { world = w })

    unfoldable pub run_tests : Script W Bool → TestSuites W → List String → Script (Runner W) Bool
    run_tests timed_out suites names = do
      start ← time
      on_results (λ r. record r { start_time = some start; total_suites = length names })
      suite_results ← run_suites timed_out suites names
      end ← time
      on_results (λ r. record r { end_time = some end })
      gets (λ s. s.results.failed_suites == 0)

    abbrev run_selected :
        Script W Bool → TestSuites W → Option (List String) → Runner W → Option ℕ × Runner W
    run_selected timed_out suites none s = (none, s)
    run_selected timed_out suites (some names) s =
        let (r, s') = run_tests timed_out suites names s in (some (exit_code r), s')

    -- The code of `process.exit`, or none where the function only returns.
    unfoldable pub run : Script W Bool → TestSuites W → List String → Runner W → Option ℕ × Runner W
    run timed_out suites args = run_selected timed_out suites (parse_arguments args)

-- ===== src/OwnableSuites/Counted/Running.antt =====
-- The runs of the suites.
use guardian_safe.Prelude.{Option}
use guardian_safe.Script.{Script}
use guardian_safe.SecureOwnable.Session.{Node, Session}
use guardian_safe.SecureOwnable.Run.{run_test}
use guardian_safe.SecureOwnable.Run.Counts.{IsCounted, KeepsCount, Outcome, run_test-Outcome}
use guardian_safe.OwnableSuites.{SuiteNode}
use guardian_safe.OwnableSuites.Ownership.{execute_ownership_tests}
use guardian_safe.OwnableSuites.Broadcaster.{execute_broadcaster_tests}
use guardian_safe.OwnableSuites.Recovery.{execute_recovery_tests}
use guardian_safe.OwnableSuites.TimelockPeriod.{execute_timelock_tests}
use guardian_safe.OwnableSuites.Signing.{SignerFields, execute_signing_tests}
use guardian_safe.OwnableSuites.Counted.Signing.{signing_suite-Keeps}
use guardian_safe.OwnableSuites.Counted.Stepping.{ownership-Keeps}
use guardian_safe.OwnableSuites.Counted.Broadcasting.{broadcaster-Keeps}
use guardian_safe.OwnableSuites.Counted.Updating.{recovery-Keeps, timelock-Keeps}

pub data Suite : Type 0 where
  ownership broadcaster recovery timelock : Suite
  signing : Option SignerFields → Suite

module _ {N : Type 0} (node : Node N) (suite : SuiteNode N) where
  -- `executeTests` of the class of the suite
  abbrev pub execute_tests : Suite → Script (Session N) (Unit {0})
  execute_tests ownership = execute_ownership_tests node suite
  execute_tests broadcaster = execute_broadcaster_tests node suite
  execute_tests recovery = execute_recovery_tests node suite
  execute_tests timelock = execute_timelock_tests node suite
  execute_tests (signing signer) = execute_signing_tests node suite signer

  execute_tests-KeepsCount : (which : Suite) → KeepsCount (execute_tests which)
  execute_tests-KeepsCount ownership = record { at = (ownership-Keeps node suite).at }
  execute_tests-KeepsCount broadcaster = record { at = (broadcaster-Keeps node suite).at }
  execute_tests-KeepsCount recovery = record { at = (recovery-Keeps node suite).at }
  execute_tests-KeepsCount timelock = record { at = (timelock-Keeps node suite).at }
  execute_tests-KeepsCount (signing signer) = record {
    at = (signing_suite-Keeps node suite signer).at;
  }

  -- A run of each of the five suites, from counts in which every test has an outcome and with an
  -- initialization that keeps them so, does not throw: it returns true, and then every test has
  -- passed, or false, and then a failure is counted.
  pub execute_tests-Outcome :
      (which : Suite) (initialize : Script (Session N) (Unit {0})) (s : Session N)
      → KeepsCount initialize
      → IsCounted s.test_results
      → Outcome node initialize
          (execute_tests which)
          (run_test node initialize (execute_tests which) s).0
          (run_test node initialize (execute_tests which) s).1.test_results
  execute_tests-Outcome which initialize s i h =
      run_test-Outcome node initialize (execute_tests which) s i (execute_tests-KeepsCount which) h

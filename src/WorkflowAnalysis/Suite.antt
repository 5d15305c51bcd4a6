-- ===== src/WorkflowAnalysis/Suite.antt =====
-- `testWorkflowSecurityAnalysis` and `testWorkflowCompletenessAnalysis`.
pub mod Passing
use guardian_safe.Prelude.{
  ℕ, suc, ◌*◌, ◌+◌, String, List, [], ◌∷◌, ◌++◌, length, leb, ltb, if◌then◌else◌,
}
use guardian_safe.Text.{◌<>◌}
use guardian_safe.Script.{Script, pure, throw, ◌>>=◌}
use guardian_safe.Workflow.Types.{WorkflowPath, Workflow}
use guardian_safe.Workflow.Cache.{Tester, get_all_workflows}
use guardian_safe.WorkflowAnalysis.Scores.{
  Score, analyze_path_security, analyze_workflow_completeness,
}

-- How many of the paths, or workflows, reach the threshold, and the issues of the others.
pub record Tally : Type 0 where
  pub total : ℕ
  pub reached : ℕ
  pub missed : ℕ
  pub issues : List String

abbrev pub empty_tally : Tally
empty_tally = record { total = 0; reached = 0; missed = 0; issues = [] }

unfoldable pub tally_score : ℕ → Tally → Score → Tally
tally_score threshold t s =
    if leb threshold s.score
    then record t { total = t.total + 1; reached = t.reached + 1 }
    else record {
      total = t.total + 1;
      reached = t.reached;
      missed = t.missed + 1;
      issues = t.issues ++ s.issues;
    }

unfoldable pub tally_paths : Tally → List WorkflowPath → Tally
tally_paths t [] = t
tally_paths t (p ∷ ps) = tally_paths (tally_score 80 t (analyze_path_security p)) ps

unfoldable pub security_analysis : Tally → List Workflow → Tally
security_analysis t [] = t
security_analysis t (w ∷ ws) = security_analysis (tally_paths t w.paths) ws

unfoldable pub completeness_analysis : Tally → List Workflow → Tally
completeness_analysis t [] = t
completeness_analysis t (w ∷ ws) =
    completeness_analysis (tally_score 90 t (analyze_workflow_completeness w)) ws

-- `if (rate < threshold) throw`, where the rate is `(reached / total) * 100`; without anything to
-- count it is `NaN`, which is not below the threshold. The rate in the message is left out.
unfoldable pub check_rate : {S : Type 0} → String → ℕ → Tally → Script S (Unit {0})
check_rate name threshold t =
    if ltb (t.reached * 100) (threshold * t.total)
    then throw (name <> " rate is below threshold")
    else pure tt

module _ {C : Type 0} (date_now : C → ℕ × C) (keccak256 : String → String) where
  unfoldable pub test_workflow_security_analysis : Script (Tester C) (Unit {0})
  test_workflow_security_analysis = do
    workflows ← get_all_workflows date_now keccak256
    check_rate "Security" 80 (security_analysis empty_tally workflows)

  unfoldable pub test_workflow_completeness_analysis : Script (Tester C) (Unit {0})
  test_workflow_completeness_analysis = do
    workflows ← get_all_workflows date_now keccak256
    check_rate "Completeness" 90 (completeness_analysis empty_tally workflows)

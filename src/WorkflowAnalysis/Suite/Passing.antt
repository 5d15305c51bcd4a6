-- ===== src/WorkflowAnalysis/Suite/Passing.antt =====
-- Which workflows pass the tests.
use guardian_safe.Prelude.{
  ℕ, ◌+◌, ◌*◌, ◌≤◌, String, ◌≡◌, ◌↔◌, Bool, not, ◌&&◌, List, [], ◌∷◌, arith, length, any, ◌==◌,
  if◌then◌else◌, ltb, Bool-cases, inl, inr,
}
use guardian_safe.Script.{ok}
use guardian_safe.Workflow.Types.{WorkflowPath, Workflow}
use guardian_safe.Workflow.Cache.{Tester, get_all_workflows}
use guardian_safe.WorkflowAnalysis.Scores.{
  lacks_signature, delays_nothing, is_off_chain_only, analyze_workflow_completeness,
}
use guardian_safe.WorkflowAnalysis.Scores.Threshold.{
  is_usable, analyze_workflow_completeness_complete,
}
use guardian_safe.WorkflowAnalysis.Suite.{
  Tally, empty_tally, tally_score, completeness_analysis, check_rate,
  test_workflow_completeness_analysis,
}

-- A path with a step on the chain that lacks at most one of a signature and a delay.
abbrev pub is_secure : WorkflowPath → Bool
is_secure p = not (is_off_chain_only p) && not (lacks_signature p && delays_nothing p)

-- A workflow with a role and a path with a time delay or a phase off the chain.
abbrev pub is_complete : Workflow → Bool
is_complete w = not (length w.supported_roles == 0) && any is_usable w.paths

-- How many of the paths are secure, how many paths there are, and how many workflows are complete.
abbrev pub secure_count : List WorkflowPath → ℕ
secure_count [] = 0
secure_count (p ∷ ps) = (if is_secure p then 1 else 0) + secure_count ps

abbrev pub secure_paths : List Workflow → ℕ
secure_paths [] = 0
secure_paths (w ∷ ws) = secure_count w.paths + secure_paths ws

abbrev pub path_count : List Workflow → ℕ
path_count [] = 0
path_count (w ∷ ws) = length w.paths + path_count ws

abbrev pub complete_count : List Workflow → ℕ
complete_count [] = 0
complete_count (w ∷ ws) = (if is_complete w then 1 else 0) + complete_count ws

completeness_analysis-counts :
    (t : Tally) (ws : List Workflow)
    → ((completeness_analysis t ws).reached ≡ t.reached + complete_count ws)
      × ((completeness_analysis t ws).total ≡ t.total + length ws)
unfolding completeness_analysis tally_score
completeness_analysis-counts t [] = omega arith
completeness_analysis-counts t (w ∷ ws) =
    let complete = analyze_workflow_completeness_complete w in
    let ih = completeness_analysis-counts (tally_score 90 t (analyze_workflow_completeness w)) ws in
    ground arith

check_rate-passes :
    {S : Type 0} (name : String) (threshold reached total : ℕ) (t : Tally) (s : S)
    → (t.reached ≡ 0 + reached) × (t.total ≡ 0 + total)
    → (check_rate name threshold t s ≡ (ok tt, s)) ↔ (threshold * total ≤ reached * 100)
unfolding check_rate
check_rate-passes name threshold r n t s (e, f) =
    let reached_is : t.reached ≡ r = omega arith in
    let total_is : t.total ≡ n = omega arith in
    rw (reached_is, total_is)
      (elim (Bool-cases (ltb (r * 100) (threshold * n))) [
        | inl below ↦ ((λ h. absurd (ground arith)), (λ h. absurd (ground arith)))
        | inr reached ↦ ((λ h. ground arith), (λ h. ground arith))
      ])

module _ {C : Type 0} (date_now : C → ℕ × C) (keccak256 : String → String) where
  -- Whatever workflows the cache or the catalog gives, the test of the completeness passes exactly
  -- if at least 90 percent of them have a role and a path that is of the type with a time delay or
  -- has a phase off the chain.
  pub test_workflow_completeness_analysis_iff :
      (s s' : Tester C) (ws : List Workflow)
      → get_all_workflows date_now keccak256 s ≡ (ok ws, s')
      → (test_workflow_completeness_analysis date_now keccak256 s ≡ (ok tt, s'))
        ↔ (90 * length ws ≤ complete_count ws * 100)
  unfolding test_workflow_completeness_analysis
  test_workflow_completeness_analysis_iff s s' ws h = rw h (
      check_rate-passes "Completeness" 90 (complete_count ws) (length ws)
        (completeness_analysis empty_tally ws) s' (completeness_analysis-counts empty_tally ws))

-- ===== src/WorkflowAnalysis/Scores.antt =====
-- `analyzePathSecurity`, `analyzeWorkflowCompleteness` and `analyzeWorkflowMaintainability`.
pub mod Threshold
use guardian_safe.Prelude.{
  ℕ, ◌-◌, String, Bool, not, ◌&&◌, ◌||◌, List, [], ◌∷◌, ◌++◌, length, select, any, every, ltb, leb,
  ◌==◌, if◌then◌else◌,
}
use guardian_safe.Text.{codes}
use guardian_safe.Workflow.Types.{Step, WorkflowPath, Workflow}

pub record Score : Type 0 where
  pub score : ℕ
  pub issues : List String

abbrev pub full_score : Score
full_score = record { score = 100; issues = [] }

-- if (condition) { score -= points; issues.push(issue); }, where the result is not below 0
unfoldable pub deduct : Bool → ℕ → String → Score → Score
deduct condition points issue s =
    if condition then record { score = s.score - points; issues = s.issues ++ issue ∷ [] } else s

abbrev pub lacks_signature : WorkflowPath → Bool
lacks_signature p = not p.requires_signature && p.has_off_chain_phase

abbrev pub delays_nothing : WorkflowPath → Bool
delays_nothing p = p.estimated_time_sec == 0 && p.workflow_type == 0

abbrev pub is_off_chain_only : WorkflowPath → Bool
is_off_chain_only p =
    ltb 0 (length (select (λ x. x.is_off_chain) p.steps))
    && length (select (λ x. not x.is_off_chain) p.steps) == 0

unfoldable pub analyze_path_security : WorkflowPath → Score
analyze_path_security p = deduct (is_off_chain_only p) 25 "Path with only off-chain steps" (
    deduct (delays_nothing p) 15 "Time-delay path with immediate execution" (
      deduct (lacks_signature p) 20 "Meta-transaction path without signature requirement"
        full_score))

unfoldable pub analyze_workflow_completeness : Workflow → Score
analyze_workflow_completeness w =
    let has_time_delay_path = any (λ p. p.workflow_type == 0) w.paths in
    let has_meta_tx_path = any (λ p. p.has_off_chain_phase) w.paths in
    deduct (not has_time_delay_path && not has_meta_tx_path) 30
      "No time-delay or meta-transaction paths"
      (deduct (length w.supported_roles == 0) 20 "No supported roles defined"
        (deduct (length w.paths == 0) 50 "No workflow paths defined" full_score))

-- `text && text.length > n`
abbrev pub is_longer : String → ℕ → Bool
is_longer s n = ltb n (length (codes s))

unfoldable pub analyze_workflow_maintainability : Workflow → Score
analyze_workflow_maintainability w =
    deduct (not (every (λ p. every (λ x. is_longer x.description 5) p.steps) w.paths)) 20
      "Missing or insufficient step descriptions"
      (deduct (not (every (λ p. is_longer p.description 10) w.paths)) 15
        "Missing or insufficient descriptions"
        (deduct (is_longer w.operation_name 50) 10 "Operation name too long" full_score))

-- ===== src/WorkflowAnalysis/Consistency.antt =====
-- Three of the five checks of consistency, each a loop over all steps; the other two put numbers into
-- their issues.
pub mod Valid
use guardian_safe.Prelude.{
  ℕ, String, Bool, not, ◌||◌, List, [], ◌∷◌, ◌++◌, length, ltb, ◌==◌, str_eq, if◌then◌else◌,
}
use guardian_safe.Text.{◌<>◌, codes, includes}
use guardian_safe.Workflow.Types.{Step, WorkflowPath, Workflow}

-- `isConsistent` with the issues
pub record Consistency : Type 0 where
  pub is_consistent : Bool
  pub issues : List String

abbrev pub consistency_of : List String → Consistency
consistency_of issues = record { is_consistent = length issues == 0; issues = issues }

-- for each element, in order, its issues
unfoldable pub collect {ℓ} : {A : Type ℓ} → (A → List String) → List A → List String
collect f [] = []
collect f (x ∷ xs) = f x ++ collect f xs

abbrev pub collect_steps : (Workflow → Step → List String) → List Workflow → List String
collect_steps f workflows =
    collect (λ w. collect (λ (p : WorkflowPath). collect (f w) p.steps) w.paths) workflows

-- if (!valid) issues.push(issue)
abbrev pub unless : Bool → String → List String
unless valid issue = if valid then [] else issue ∷ []

abbrev pub valid_roles : List String
valid_roles = "OWNER" ∷ "BROADCASTER" ∷ "RECOVERY" ∷ []

unfoldable pub check_role_naming_consistency : List Workflow → Consistency
check_role_naming_consistency workflows = consistency_of (
    collect_steps
      (λ w x.
        collect
          (λ role.
            unless (includes role valid_roles)
              ("Invalid role: " <> role <> " in " <> w.operation_name))
          x.roles)
      workflows)

unfoldable pub check_function_naming_consistency : List Workflow → Consistency
check_function_naming_consistency workflows = consistency_of (
    collect_steps
      (λ w x.
        unless (not (str_eq x.function_name "" || ltb (length (codes x.function_name)) 3))
          ("Invalid function name: " <> x.function_name <> " in " <> w.operation_name))
      workflows)

unfoldable pub check_phase_type_consistency : List Workflow → Consistency
check_phase_type_consistency workflows = consistency_of (
    collect_steps
      (λ w x.
        unless (includes x.phase_type ("SIGNING" ∷ "EXECUTION" ∷ []))
          ("Invalid phase type: " <> x.phase_type <> " in " <> w.operation_name))
      workflows)

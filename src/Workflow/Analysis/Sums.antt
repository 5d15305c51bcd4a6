-- ===== src/Workflow/Analysis/Sums.antt =====
-- What the analysis of a workflow computes.
use guardian_safe.Prelude.{
  ℕ, ◌+◌, String, ◌≡◌, refl, ◌∙◌, Bool, false, ◌||◌, List, [], ◌∷◌, ◌++◌, arith, ◌==◌, str_eq,
  eq_iff, length, if◌then◌else◌, Bool-cases, inl, inr,
}
use guardian_safe.Text.{includes}
use guardian_safe.Workflow.Types.{Step, WorkflowPath, Workflow}
use guardian_safe.Workflow.Analysis.{
  Analysis, empty_analysis, add_role, add_roles, add_step_roles, analyze_path, analyze_paths,
  analyze_workflow_structure,
}

abbrev pub step_count : List WorkflowPath → ℕ
step_count [] = 0
step_count (p ∷ ps) = length p.steps + step_count ps

abbrev pub signed_count : List WorkflowPath → ℕ
signed_count [] = 0
signed_count (p ∷ ps) = (if p.requires_signature then 1 else 0) + signed_count ps

abbrev pub immediate_count : List WorkflowPath → ℕ
immediate_count [] = 0
immediate_count (p ∷ ps) = (if p.estimated_time_sec == 0 then 1 else 0) + immediate_count ps

analyze_paths-counts :
    (a : Analysis) (ps : List WorkflowPath)
    → ((analyze_paths a ps).total_steps ≡ a.total_steps + step_count ps)
      × ((analyze_paths a ps).signature_required ≡ a.signature_required + signed_count ps)
      × ((analyze_paths a ps).immediate_execution ≡ a.immediate_execution + immediate_count ps)
      × ((analyze_paths a ps).immediate_execution + (analyze_paths a ps).time_delayed_execution
          ≡ a.immediate_execution + a.time_delayed_execution + length ps)
      × ((analyze_paths a ps).total_paths ≡ a.total_paths)
unfolding analyze_paths analyze_path
analyze_paths-counts a [] = omega arith
analyze_paths-counts a (p ∷ ps) =
    let ih = analyze_paths-counts (analyze_path a p) ps in ground arith

-- The analysis of a workflow counts its steps, the paths that need a signature and those without a
-- waiting time, and sorts every path into those with and those without a waiting time.
pub analyze_workflow_structure-counts :
    (w : Workflow)
    → ((analyze_workflow_structure w).total_steps ≡ step_count w.paths)
      × ((analyze_workflow_structure w).signature_required ≡ signed_count w.paths)
      × ((analyze_workflow_structure w).immediate_execution ≡ immediate_count w.paths)
      × ((analyze_workflow_structure w).immediate_execution
            + (analyze_workflow_structure w).time_delayed_execution
          ≡ (analyze_workflow_structure w).total_paths)
unfolding analyze_workflow_structure
analyze_workflow_structure-counts w =
    let all = analyze_paths-counts (empty_analysis w) w.paths in ground arith

-- Whether some step has the role.
abbrev pub in_steps : String → List Step → Bool
in_steps role [] = false
in_steps role (x ∷ xs) = includes role x.roles || in_steps role xs

-- Whether some step of some path has the role.
abbrev pub takes_part : String → List WorkflowPath → Bool
takes_part role [] = false
takes_part role (p ∷ ps) = in_steps role p.steps || takes_part role ps

includes-append :
    (role : String) (xs ys : List String)
    → includes role (xs ++ ys) ≡ (includes role xs || includes role ys)
includes-append role [] ys = refl
includes-append role (x ∷ xs) ys = ground (arith, includes-append role xs ys)

includes-add_role :
    (role r : String) (set : List String)
    → includes role (add_role set r) ≡ (includes role set || str_eq role r)
unfolding add_role
includes-add_role role r set = elim (Bool-cases (includes r set)) [
  | inl old ↦ ground (arith, eq_iff role r)
  | inr new ↦ rw new (includes-append role set (r ∷ []) ∙ ground arith)
]

includes-add_roles :
    (role : String) (roles set : List String)
    → includes role (add_roles set roles) ≡ (includes role set || includes role roles)
unfolding add_roles
includes-add_roles role [] set = ground arith
includes-add_roles role (r ∷ rs) set =
    ground (arith, includes-add_roles role rs (add_role set r), includes-add_role role r set)

includes-add_step_roles :
    (role : String) (xs : List Step) (set : List String)
    → includes role (add_step_roles set xs) ≡ (includes role set || in_steps role xs)
unfolding add_step_roles
includes-add_step_roles role [] set = ground arith
includes-add_step_roles role (x ∷ xs) set = ground (
  arith,
  includes-add_step_roles role xs (add_roles set x.roles),
  includes-add_roles role x.roles set,
)

includes-analyze_paths :
    (role : String) (ps : List WorkflowPath) (a : Analysis)
    → includes role (analyze_paths a ps).roles ≡ (includes role a.roles || takes_part role ps)
unfolding analyze_paths analyze_path
includes-analyze_paths role [] a = ground arith
includes-analyze_paths role (p ∷ ps) a = ground (
  arith,
  includes-analyze_paths role ps (analyze_path a p),
  includes-add_step_roles role p.steps a.roles,
)

-- The roles of the analysis are exactly those that some step of some path has.
pub includes-analyze_workflow_structure :
    (role : String) (w : Workflow)
    → includes role (analyze_workflow_structure w).roles ≡ takes_part role w.paths
unfolding analyze_workflow_structure
includes-analyze_workflow_structure role w = includes-analyze_paths role w.paths (empty_analysis w)

-- ===== src/Workflow/Analysis.antt =====
-- `analyzeWorkflowStructure`. A JavaScript `Set` is a list without repetitions, in the order of
-- insertion.
pub mod Sums
use guardian_safe.Prelude.{
  ℕ, ◌+◌, String, Bool, true, false, not, ◌||◌, List, [], ◌∷◌, ◌++◌, ◌==◌, if◌then◌else◌, str_eq,
  length, any,
}
use guardian_safe.Text.{includes}
use guardian_safe.Workflow.Types.{Step, WorkflowPath, Workflow}

pub record Analysis : Type 0 where
  pub operation_name : String
  pub operation_type : String
  pub total_paths : ℕ
  pub total_steps : ℕ
  pub workflow_types : List ℕ
  pub roles : List String
  pub has_off_chain_phase : Bool
  pub has_on_chain_phase : Bool
  pub signature_required : ℕ
  pub immediate_execution : ℕ
  pub time_delayed_execution : ℕ

abbrev pub includes_number : ℕ → List ℕ → Bool
includes_number n [] = false
includes_number n (m ∷ ms) = m == n || includes_number n ms

-- set.add(x)
unfoldable pub add_number : List ℕ → ℕ → List ℕ
add_number set n = if includes_number n set then set else set ++ n ∷ []

unfoldable pub add_role : List String → String → List String
add_role set role = if includes role set then set else set ++ role ∷ []

unfoldable pub add_roles : List String → List String → List String
add_roles set [] = set
add_roles set (role ∷ roles) = add_roles (add_role set role) roles

-- the inner loop, over the steps of a path
unfoldable pub add_step_roles : List String → List Step → List String
add_step_roles set [] = set
add_step_roles set (x ∷ xs) = add_step_roles (add_roles set x.roles) xs

-- one round of the loop over the paths
unfoldable pub analyze_path : Analysis → WorkflowPath → Analysis
analyze_path a p = record a {
  total_steps = a.total_steps + length p.steps;
  workflow_types = add_number a.workflow_types p.workflow_type;
  roles = add_step_roles a.roles p.steps;
  has_off_chain_phase = if p.has_off_chain_phase then true else a.has_off_chain_phase;
  has_on_chain_phase = if any (λ x. not x.is_off_chain) p.steps then true else a.has_on_chain_phase;
  signature_required =
      if p.requires_signature then a.signature_required + 1 else a.signature_required;
  immediate_execution =
      if p.estimated_time_sec == 0 then a.immediate_execution + 1 else a.immediate_execution;
  time_delayed_execution =
      if p.estimated_time_sec == 0 then a.time_delayed_execution else a.time_delayed_execution + 1;
}

unfoldable pub analyze_paths : Analysis → List WorkflowPath → Analysis
analyze_paths a [] = a
analyze_paths a (p ∷ ps) = analyze_paths (analyze_path a p) ps

abbrev pub empty_analysis : Workflow → Analysis
empty_analysis w = record {
  operation_name = w.operation_name;
  operation_type = w.operation_type;
  total_paths = length w.paths;
  total_steps = 0;
  workflow_types = [];
  roles = [];
  has_off_chain_phase = false;
  has_on_chain_phase = false;
  signature_required = 0;
  immediate_execution = 0;
  time_delayed_execution = 0;
}

unfoldable pub analyze_workflow_structure : Workflow → Analysis
analyze_workflow_structure w = analyze_paths (empty_analysis w) w.paths

-- ===== src/Workflow/Types.antt =====
-- Workflows, their paths and steps.
use guardian_safe.Prelude.{ℕ, String, Bool, List}

pub record Step : Type 0 where
  pub function_name : String
  pub function_selector : String
  pub action : ℕ
  pub roles : List String
  pub description : String
  pub is_off_chain : Bool
  pub phase_type : String

abbrev pub step : String → String → ℕ → List String → String → Bool → String → Step
step name selector action roles description off_chain phase = record {
  function_name = name;
  function_selector = selector;
  action = action;
  roles = roles;
  description = description;
  is_off_chain = off_chain;
  phase_type = phase;
}

pub record WorkflowPath : Type 0 where
  pub name : String
  pub description : String
  pub workflow_type : ℕ
  pub estimated_time_sec : ℕ
  pub requires_signature : Bool
  pub has_off_chain_phase : Bool
  pub steps : List Step

pub record Workflow : Type 0 where
  pub operation_type : String
  pub operation_name : String
  pub supported_roles : List String
  pub paths : List WorkflowPath

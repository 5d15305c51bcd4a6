-- ===== src/Workflow/Actions.antt =====
-- `findNextAvailableActions`.
pub mod Available
use guardian_safe.Prelude.{
  ℕ, zero, suc, ◌+◌, String, Bool, true, false, List, [], ◌∷◌, ◌==◌, if◌then◌else◌, drop,
}
use guardian_safe.Text.{includes}
use guardian_safe.Workflow.Types.{Step, WorkflowPath, Workflow}

pub record PathAction : Type 0 where
  pub path_index : ℕ
  pub path_name : String
  pub step_index : ℕ
  pub action_step : Step
  pub is_next : Bool

pub record PathActions : Type 0 where
  pub path : WorkflowPath
  pub actions : List PathAction

module _ (user_role : String) (current_step : ℕ) where
  abbrev pub action_at : WorkflowPath → ℕ → ℕ → Step → PathAction
  action_at path path_index i x = record {
    path_index = path_index;
    path_name = path.name;
    step_index = i;
    action_step = x;
    is_next = i == current_step;
  }

  -- the inner loop, at the index `i` of the step that comes first in the list
  unfoldable pub actions_from : WorkflowPath → ℕ → ℕ → List Step → List PathAction
  actions_from path path_index i [] = []
  actions_from path path_index i (x ∷ xs) =
      let rest = actions_from path path_index (suc i) xs in
      if includes user_role x.roles then action_at path path_index i x ∷ rest else rest

  -- `for (let i = currentStep; i < path.steps.length; i++)`
  unfoldable pub path_actions : WorkflowPath → ℕ → List PathAction
  path_actions path path_index =
      actions_from path path_index current_step (drop current_step path.steps)

  abbrev pub unless_empty : WorkflowPath → List PathAction → List PathActions → List PathActions
  unless_empty path [] rest = rest
  unless_empty path (a ∷ as') rest = record { path = path; actions = a ∷ as' } ∷ rest

  unfoldable pub actions_of_paths : ℕ → List WorkflowPath → List PathActions
  actions_of_paths path_index [] = []
  actions_of_paths path_index (p ∷ ps) =
      unless_empty p (path_actions p path_index) (actions_of_paths (suc path_index) ps)

  unfoldable pub find_next_available_actions : Workflow → List PathActions
  find_next_available_actions w = actions_of_paths 0 w.paths

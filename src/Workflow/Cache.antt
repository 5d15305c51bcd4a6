-- ===== src/Workflow/Cache.antt =====
-- `getAllWorkflows`, `getWorkflowForOperation` and `getWorkflowPaths` with their cache.
pub mod Coherent
use guardian_safe.Prelude.{
  ℕ, ◌-◌, String, Bool, true, false, Option, none, some, List, [], ◌∷◌, ◌==◌, ltb, leb,
  if◌then◌else◌, str_eq, find,
}
use guardian_safe.Text.{◌<>◌}
use guardian_safe.Script.{Result, ok, err, Script, pure, throw, ◌>>=◌}
use guardian_safe.Workflow.Types.{WorkflowPath, Workflow}
use guardian_safe.Workflow.Catalog.{generate_workflow_data}

-- `null` is `none`. The clock is part of the state: each `Date.now()` takes its next reading, in
-- milliseconds, and readings need not grow.
pub record Cache : Type 0 where
  pub all_workflows : Option (List Workflow)
  pub operation_workflows : List (String × Workflow)
  pub last_update : Option ℕ

pub record Tester (C : Type 0) : Type 0 where
  pub clock : C
  pub cache : Cache

-- `this.workflowCache.operationWorkflows.get(operationType)`
abbrev pub cached : String → List (String × Workflow) → Option Workflow
cached key [] = none
cached key ((k, w) ∷ rest) = if str_eq k key then some w else cached key rest

-- `a - b < 30000` for times that may be in any order
abbrev pub is_recent : ℕ → ℕ → Bool
is_recent now last = if ltb now last then true else ltb (now - last) 30000

-- `workflows.find(w => w.operationType === operationType)`
abbrev pub of_type : String → List Workflow → Option Workflow
of_type operation_type workflows = find (λ w. str_eq w.operation_type operation_type) workflows

module _ {C : Type 0} (date_now : C → ℕ × C) (keccak256 : String → String) where
  abbrev pub now : Script (Tester C) ℕ
  now s = let (t, c) = date_now s.clock in (ok t, record s { clock = c })

  unfoldable pub refresh : Script (Tester C) (List Workflow)
  refresh s =
      let (t, c) = date_now s.clock in
      (
        ok (generate_workflow_data keccak256),
        record s {
          clock = c;
          cache = record s.cache {
            all_workflows = some (generate_workflow_data keccak256);
            last_update = some t;
          };
        },
      )

  -- `allWorkflows && lastUpdate`: a time of 0 is false
  abbrev pub from_cache : Option (List Workflow) → Option ℕ → Script (Tester C) (List Workflow)
  from_cache (some workflows) (some last) s =
      let (t, c) = date_now s.clock in
      if last == 0
      then refresh s
      else if is_recent t last
      then (ok workflows, record s { clock = c })
      else refresh (record s { clock = c })
  from_cache none last s = refresh s
  from_cache (some workflows) none s = refresh s

  unfoldable pub get_all_workflows : Script (Tester C) (List Workflow)
  unfolding refresh
  get_all_workflows s = from_cache s.cache.all_workflows s.cache.last_update s

  abbrev pub remember : String → Option Workflow → Script (Tester C) Workflow
  remember operation_type none s =
      (err ("Workflow not found for operation type: " <> operation_type), s)
  remember operation_type (some w) s = (
    ok w,
    record s {
      cache = record s.cache {
        operation_workflows = (operation_type, w) ∷ s.cache.operation_workflows;
      };
    },
  )

  abbrev pub or_search : String → Option Workflow → Script (Tester C) Workflow
  or_search operation_type (some w) = pure w
  or_search operation_type none = do
    workflows ← get_all_workflows
    remember operation_type (of_type operation_type workflows)

  unfoldable pub get_workflow_for_operation : String → Script (Tester C) Workflow
  get_workflow_for_operation operation_type s =
      or_search operation_type (cached operation_type s.cache.operation_workflows) s

  unfoldable pub get_workflow_paths : String → Script (Tester C) (List WorkflowPath)
  get_workflow_paths operation_type = do
    workflow ← get_workflow_for_operation operation_type
    pure workflow.paths

-- ===== src/Workflow/Catalog.antt =====
-- `generateWorkflowData`.
use guardian_safe.Prelude.{String, List, [], ◌∷◌}
use guardian_safe.Workflow.Types.{Workflow}
use guardian_safe.Workflow.Ownership.{ownership_transfer_workflow}
use guardian_safe.Workflow.Broadcaster.{broadcaster_update_workflow}
use guardian_safe.Workflow.Single.{recovery_update_workflow, timelock_update_workflow}

-- `keccak256` is that of web3: a parameter.
unfoldable pub generate_workflow_data : (String → String) → List Workflow
generate_workflow_data keccak256 =
    ownership_transfer_workflow keccak256
    ∷ broadcaster_update_workflow keccak256
    ∷ recovery_update_workflow keccak256
    ∷ timelock_update_workflow keccak256
    ∷ []

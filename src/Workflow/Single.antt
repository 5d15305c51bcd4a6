-- ===== src/Workflow/Single.antt =====
-- The workflows of one phase, of an update of the recovery address and of the time lock, as
-- `generateWorkflowData` lists them.
use guardian_safe.Prelude.{String, true, false, List, [], ◌∷◌}
use guardian_safe.Workflow.Types.{step, WorkflowPath, Workflow}

abbrev pub recovery_update_workflow_paths : List WorkflowPath
recovery_update_workflow_paths =
    record {
      name = "Single-Phase Meta-Transaction";
      description = "Owner signs request and approval off-chain, Broadcaster executes on-chain";
      workflow_type = 3;
      estimated_time_sec = 0;
      requires_signature = true;
      has_off_chain_phase = true;
      steps =
          step "signRecoveryRequestAndApprove" "0x00000000" 3 ("OWNER" ∷ [])
            "Owner signs request and approval off-chain" true "SIGNING"
          ∷ step "updateRecoveryRequestAndApprove" "0x2aa09cf6" 6 ("BROADCASTER" ∷ [])
              "Broadcaster executes signed request and approval" false "EXECUTION"
          ∷ [];
    }
    ∷ []

abbrev pub timelock_update_workflow_paths : List WorkflowPath
timelock_update_workflow_paths =
    record {
      name = "Single-Phase Meta-Transaction";
      description = "Owner signs request and approval off-chain, Broadcaster executes on-chain";
      workflow_type = 3;
      estimated_time_sec = 0;
      requires_signature = true;
      has_off_chain_phase = true;
      steps =
          step "signTimeLockRequestAndApprove" "0x00000000" 3 ("OWNER" ∷ [])
            "Owner signs request and approval off-chain" true "SIGNING"
          ∷ step "updateTimeLockRequestAndApprove" "0x87654321" 6 ("BROADCASTER" ∷ [])
              "Broadcaster executes signed request and approval" false "EXECUTION"
          ∷ [];
    }
    ∷ []

abbrev pub recovery_update_workflow : (String → String) → Workflow
recovery_update_workflow keccak256 = record {
  operation_type = keccak256 "RECOVERY_UPDATE";
  operation_name = "RECOVERY_UPDATE";
  supported_roles = "BROADCASTER" ∷ [];
  paths = recovery_update_workflow_paths;
}

abbrev pub timelock_update_workflow : (String → String) → Workflow
timelock_update_workflow keccak256 = record {
  operation_type = keccak256 "TIMELOCK_UPDATE";
  operation_name = "TIMELOCK_UPDATE";
  supported_roles = "BROADCASTER" ∷ [];
  paths = timelock_update_workflow_paths;
}

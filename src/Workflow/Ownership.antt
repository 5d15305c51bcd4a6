-- ===== src/Workflow/Ownership.antt =====
-- The workflow of a transfer of ownership, as `generateWorkflowData` lists it.
use guardian_safe.Prelude.{String, true, false, List, [], ◌∷◌}
use guardian_safe.Workflow.Types.{step, WorkflowPath, Workflow}

abbrev pub ownership_transfer_workflow_paths : List WorkflowPath
ownership_transfer_workflow_paths =
    record {
      name = "Time-Delay Only";
      description = "Traditional two-phase operation with mandatory waiting period";
      workflow_type = 0;
      estimated_time_sec = 86400;
      requires_signature = false;
      has_off_chain_phase = false;
      steps =
          step "transferOwnershipRequest" "0x572be39b" 0 ("RECOVERY" ∷ [])
            "Recovery creates ownership transfer request" false "EXECUTION"
          ∷ step "transferOwnershipDelayedApproval" "0x6cd71b38" 1 ("OWNER" ∷ "RECOVERY" ∷ [])
              "Owner or Recovery approves after time delay" false "EXECUTION"
          ∷ [];
    }
    ∷ record {
      name = "Meta-Transaction Approval";
      description = "Owner signs approval off-chain, Broadcaster executes on-chain";
      workflow_type = 2;
      estimated_time_sec = 0;
      requires_signature = true;
      has_off_chain_phase = true;
      steps =
          step "transferOwnershipRequest" "0x572be39b" 0 ("RECOVERY" ∷ [])
            "Recovery creates ownership transfer request" false "EXECUTION"
          ∷ step "signTransferOwnershipApproval" "0x00000000" 4 ("OWNER" ∷ [])
              "Owner signs approval off-chain" true "SIGNING"
          ∷ step "transferOwnershipApprovalWithMetaTx" "0xb51ff5ce" 7 ("BROADCASTER" ∷ [])
              "Broadcaster executes signed approval" false "EXECUTION"
          ∷ [];
    }
    ∷ record {
      name = "Meta-Transaction Cancellation";
      description = "Owner signs cancellation off-chain, Broadcaster executes on-chain";
      workflow_type = 2;
      estimated_time_sec = 0;
      requires_signature = true;
      has_off_chain_phase = true;
      steps =
          step "transferOwnershipRequest" "0x572be39b" 0 ("RECOVERY" ∷ [])
            "Recovery creates ownership transfer request" false "EXECUTION"
          ∷ step "signTransferOwnershipCancellation" "0x00000000" 5 ("OWNER" ∷ [])
              "Owner signs cancellation off-chain" true "SIGNING"
          ∷ step "transferOwnershipCancellationWithMetaTx" "0x1ef7c2ec" 8 ("BROADCASTER" ∷ [])
              "Broadcaster executes signed cancellation" false "EXECUTION"
          ∷ [];
    }
    ∷ record {
      name = "Time-Delay Cancellation";
      description = "Cancel pending ownership transfer request after timelock";
      workflow_type = 0;
      estimated_time_sec = 0;
      requires_signature = false;
      has_off_chain_phase = false;
      steps =
          step "transferOwnershipRequest" "0x572be39b" 0 ("RECOVERY" ∷ [])
            "Recovery creates ownership transfer request" false "EXECUTION"
          ∷ step "transferOwnershipCancellation" "0x9d8f6f90" 2 ("RECOVERY" ∷ [])
              "Recovery cancels pending request" false "EXECUTION"
          ∷ [];
    }
    ∷ []

abbrev pub ownership_transfer_workflow : (String → String) → Workflow
ownership_transfer_workflow keccak256 = record {
  operation_type = keccak256 "OWNERSHIP_TRANSFER";
  operation_name = "OWNERSHIP_TRANSFER";
  supported_roles = "OWNER" ∷ "BROADCASTER" ∷ "RECOVERY" ∷ [];
  paths = ownership_transfer_workflow_paths;
}

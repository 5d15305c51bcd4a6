-- ===== src/Workflow/Broadcaster.antt =====
-- The workflow of an update of the broadcaster, as `generateWorkflowData` lists it.
use guardian_safe.Prelude.{String, true, false, List, [], ◌∷◌}
use guardian_safe.Workflow.Types.{step, WorkflowPath, Workflow}

abbrev pub broadcaster_update_workflow_paths : List WorkflowPath
broadcaster_update_workflow_paths =
    record {
      name = "Time-Delay Only";
      description = "Traditional two-phase operation with mandatory waiting period";
      workflow_type = 0;
      estimated_time_sec = 86400;
      requires_signature = false;
      has_off_chain_phase = false;
      steps =
          step "updateBroadcasterRequest" "0x12345678" 0 ("OWNER" ∷ [])
            "Owner creates broadcaster update request" false "EXECUTION"
          ∷ step "updateBroadcasterDelayedApproval" "0xb7d254d6" 1 ("OWNER" ∷ [])
              "Owner approves after time delay" false "EXECUTION"
          ∷ [];
    }
    ∷ record {
      name = "Meta-Transaction Approval";
      description = "Owner signs approval off-chain, Broadcaster executes on-chain";
      workflow_type = 2;
      estimated_time_sec = 0;
      requires_signature = true;
      has_off_chain_phase = true;
      steps =
          step "updateBroadcasterRequest" "0x12345678" 0 ("OWNER" ∷ [])
            "Owner creates broadcaster update request" false "EXECUTION"
          ∷ step "signBroadcasterApproval" "0x00000000" 4 ("OWNER" ∷ [])
              "Owner signs approval off-chain" true "SIGNING"
          ∷ step "updateBroadcasterApprovalWithMetaTx" "0xd04d6238" 7 ("BROADCASTER" ∷ [])
              "Broadcaster executes signed approval" false "EXECUTION"
          ∷ [];
    }
    ∷ record {
      name = "Meta-Transaction Cancellation";
      description = "Owner signs cancellation off-chain, Broadcaster executes on-chain";
      workflow_type = 2;
      estimated_time_sec = 0;
      requires_signature = true;
      has_off_chain_phase = true;
      steps =
          step "updateBroadcasterRequest" "0x12345678" 0 ("OWNER" ∷ [])
            "Owner creates broadcaster update request" false "EXECUTION"
          ∷ step "signBroadcasterCancellation" "0x00000000" 5 ("OWNER" ∷ [])
              "Owner signs cancellation off-chain" true "SIGNING"
          ∷ step "updateBroadcasterCancellationWithMetaTx" "0xf1209daa" 8 ("BROADCASTER" ∷ [])
              "Broadcaster executes signed cancellation" false "EXECUTION"
          ∷ [];
    }
    ∷ record {
      name = "Time-Delay Cancellation";
      description = "Cancel pending broadcaster update request after timelock";
      workflow_type = 0;
      estimated_time_sec = 0;
      requires_signature = false;
      has_off_chain_phase = false;
      steps =
          step "updateBroadcasterRequest" "0x12345678" 0 ("OWNER" ∷ [])
            "Owner creates broadcaster update request" false "EXECUTION"
          ∷ step "updateBroadcasterCancellation" "0x62544d90" 2 ("OWNER" ∷ [])
              "Owner cancels pending request" false "EXECUTION"
          ∷ [];
    }
    ∷ []

abbrev pub broadcaster_update_workflow : (String → String) → Workflow
broadcaster_update_workflow keccak256 = record {
  operation_type = keccak256 "BROADCASTER_UPDATE";
  operation_name = "BROADCASTER_UPDATE";
  supported_roles = "OWNER" ∷ "BROADCASTER" ∷ [];
  paths = broadcaster_update_workflow_paths;
}

-- ===== src/Workflow/Tests.antt =====
-- Runs of the workflow tests, and the theorems of this part at them.
use guardian_safe.Prelude.{
  ℕ, ◌+◌, String, ◌≡◌, refl, Bool, true, false, ◌↔◌, none, some, List, [], ◌∷◌, arith, length, All,
  any,
}
use guardian_safe.Text.{◌<>◌, includes, same_address}
use guardian_safe.Script.{Result, ok, err, Script, throw}
use guardian_safe.Workflow.Types.{WorkflowPath, Workflow}
use guardian_safe.Workflow.Ownership.{ownership_transfer_workflow}
use guardian_safe.Workflow.Single.{recovery_update_workflow}
use guardian_safe.Workflow.Catalog.{generate_workflow_data}
use guardian_safe.Workflow.Analysis.{
  add_number, add_role, add_roles, add_step_roles, analyze_path, analyze_paths,
  analyze_workflow_structure,
}
use guardian_safe.Workflow.Analysis.Sums.{takes_part, includes-analyze_workflow_structure}
use guardian_safe.Workflow.Actions.{
  actions_from, path_actions, actions_of_paths, find_next_available_actions,
}
use guardian_safe.Workflow.Actions.Available.{
  IsAvailable, is_at, find_next_available_actions-IsAvailable, find_next_available_actions_complete,
}
use guardian_safe.Workflow.Cache.{Tester, of_type, get_all_workflows, get_workflow_for_operation}
use guardian_safe.Workflow.Cache.Coherent.{
  IsCoherent, not_found, get_workflow_for_operation-IsCoherent,
}
use guardian_safe.Workflow.Execution.{
  find_wallet_by_address, WorkflowTest, WorkflowNode, wait_loop, wait_for_transaction, execute_test,
}
use guardian_safe.Workflow.Execution.Counted.{IsComplete, execute_test-IsComplete}
use guardian_safe.Workflow.Execution.Waiting.{Ticks, Finished, wait_for_transaction-Finished}

suite : Unit {0}
unfolding generate_workflow_data add_number add_role add_roles add_step_roles analyze_path
    analyze_paths analyze_workflow_structure actions_from path_actions actions_of_paths
    find_next_available_actions get_all_workflows get_workflow_for_operation same_address
    find_wallet_by_address wait_loop wait_for_transaction execute_test
suite = tt

abbrev hash : String → String
hash s = "0x" <> s

abbrev transfer : Workflow
transfer = ownership_transfer_workflow hash

analyzed : analyze_workflow_structure transfer ≡ record {
  operation_name = "OWNERSHIP_TRANSFER";
  operation_type = "0xOWNERSHIP_TRANSFER";
  total_paths = 4;
  total_steps = 10;
  workflow_types = 0 ∷ 2 ∷ [];
  roles = "RECOVERY" ∷ "OWNER" ∷ "BROADCASTER" ∷ [];
  has_off_chain_phase = true;
  has_on_chain_phase = true;
  signature_required = 2;
  immediate_execution = 3;
  time_delayed_execution = 1;
}
unfolding suite
analyzed = refl

first_actions : length (find_next_available_actions "OWNER" 1 transfer) ≡ 3
unfolding suite
first_actions = refl

includes-analyze_workflow_structure_example :
    includes "OWNER" (analyze_workflow_structure transfer).roles ≡ takes_part "OWNER" transfer.paths
includes-analyze_workflow_structure_example = includes-analyze_workflow_structure "OWNER" transfer

find_next_available_actions-IsAvailable_example :
    All
      (λ g. All (IsAvailable "OWNER" 1 g.path) g.actions)
      (find_next_available_actions "OWNER" 1 transfer)
find_next_available_actions-IsAvailable_example =
    find_next_available_actions-IsAvailable "OWNER" 1 transfer

-- The second path, with the signature of an approval at its second step.
abbrev approval : WorkflowPath
approval = second transfer.paths
  where
    second : List WorkflowPath → WorkflowPath
    second (a ∷ b ∷ rest) = b
    second _ = record {
      name = "";
      description = "";
      workflow_type = 0;
      estimated_time_sec = 0;
      requires_signature = false;
      has_off_chain_phase = false;
      steps = [];
    }

find_next_available_actions_complete_example :
    any (λ g. any (is_at 1 1) g.actions) (find_next_available_actions "OWNER" 1 transfer) ≡ true
find_next_available_actions_complete_example =
    find_next_available_actions_complete "OWNER" 1 1 1 transfer approval _ refl refl (omega arith)
      refl

-- The clock is its own state, and stands still.
abbrev still : ℕ → ℕ × ℕ
still t = (t, t)

abbrev fresh : Tester ℕ
fresh = record {
  clock = 5;
  cache = record { all_workflows = none; operation_workflows = []; last_update = none };
}

fresh-IsCoherent : IsCoherent still hash fresh.cache
fresh-IsCoherent = record { all = λ ws p. cc; each = λ key w p. cc }

found :
    (get_workflow_for_operation still hash "0xRECOVERY_UPDATE" fresh).0
    ≡ ok (recovery_update_workflow hash)
unfolding suite
found = refl

get_workflow_for_operation-IsCoherent_example :
    ((get_workflow_for_operation still hash "0xRECOVERY_UPDATE" fresh).0
      ≡ not_found still hash "0xRECOVERY_UPDATE"
          (of_type "0xRECOVERY_UPDATE" (generate_workflow_data hash)))
    × IsCoherent still hash
        (get_workflow_for_operation still hash "0xRECOVERY_UPDATE" fresh).1.cache
get_workflow_for_operation-IsCoherent_example =
    get_workflow_for_operation-IsCoherent still hash "0xRECOVERY_UPDATE" fresh fresh-IsCoherent

-- The node is its clock, in milliseconds, and has the receipt from 2500 on.
abbrev node : WorkflowNode ℕ String
node = record {
  owner = λ n. (ok "0x01", n);
  get_broadcaster = λ n. (ok "0x02", n);
  get_recovery = λ n. (ok "0x03", n);
  get_transaction_receipt = λ tx n. (err "no receipt", n);
  date_now = still;
  sleep = λ ms n. n + ms;
}

ticks : Ticks node (λ n. n)
ticks = record { reads = λ n. refl; asks = λ tx n. omega arith; sleeps = λ ms n. omega arith }

timed_out :
    wait_for_transaction node "0xt" 1500 0
    ≡ some (err "Transaction 0xt not confirmed within timeout", 2000)
unfolding suite
timed_out = refl

wait_for_transaction-Finished_example :
    (r : Result String) × (n' : ℕ) × (wait_for_transaction node "0xt" 1500 0 ≡ some (r, n'))
    × Finished node (λ n. n) ticks "0xt" (0 + 1500) r n'
wait_for_transaction-Finished_example =
    wait_for_transaction-Finished node (λ n. n) ticks "0xt" 1500 0

abbrev begun : WorkflowTest ℕ
begun = record {
  node = 0;
  wallets = [];
  roles = none;
  role_wallets = none;
  test_results = record { total_tests = 0; passed_tests = 0; failed_tests = 0; errors = [] };
}

abbrev failing : Script (WorkflowTest ℕ) (Unit {0})
failing = throw "no"

begun-IsComplete : IsComplete begun.test_results
begun-IsComplete = omega arith

execute_test-IsComplete_example :
    (b : Bool) × ((execute_test "t" failing begun).0 ≡ ok b)
    × ((b ≡ true) ↔ (◌≡◌ {A = Result (Unit {0})} (err "no") (ok tt)))
    × IsComplete (execute_test "t" failing begun).1.test_results
execute_test-IsComplete_example = execute_test-IsComplete failing "t" begun refl begun-IsComplete

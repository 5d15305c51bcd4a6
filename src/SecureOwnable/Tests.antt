-- ===== src/SecureOwnable/Tests.antt =====
-- A small node, runs of the test base on it, and the theorems of this part at them.
mod Counting
use guardian_safe.Prelude.{
  ℕ, zero, suc, ◌+◌, ◌≤◌, String, ◌≡◌, refl, Bool, true, false, ◌↔◌, ◌⊎◌, none, some, List, [], ◌∷◌,
  arith, if◌then◌else◌, All,
}
use guardian_safe.Text.{includes, same_address}
use guardian_safe.Script.{ok, err, Script, pure}
use guardian_safe.Accounts.{Wallet}
use guardian_safe.StateAbstraction.Enums.{
  TxStatus, execute_time_delay_request, execute_update_payment, no_execution, standard, status_code,
  status_name, action_code, action_name, execution_code, execution_name,
}
use guardian_safe.SecureOwnable.Names.{
  ownership_transfer, broadcaster_update, get_status_name, get_operation_name, get_operation_type,
  get_tx_action, get_execution_type,
}
use guardian_safe.SecureOwnable.Names.Agreement.{
  get_status_name-status_code, has_entry, get_tx_action-action_name, operation_names,
  get_operation_name-get_operation_type,
}
use guardian_safe.SecureOwnable.Session.{
  Transaction, FunctionPermission, transfer_ownership_cancellation, update_broadcaster_cancellation,
  Node, RoleWallets, TestResults, Session, call_contract_method, send_transaction,
}
use guardian_safe.SecureOwnable.Roles.{
  map_wallets, discover_role_assignments, get_role_wallet_object,
}
use guardian_safe.SecureOwnable.Roles.Discovery.{last_at, empty, discover_role_assignments_lem}
use guardian_safe.SecureOwnable.Pending.{
  cancel_transaction, clear_transaction, clear_transactions, clear_pending_transactions,
}
use guardian_safe.SecureOwnable.Pending.Cleared.{
  Sent, cancel_transaction-Sent, clear_pending_transactions-empty,
}
use guardian_safe.SecureOwnable.Permissions.{
  Permission, get_role_hash, validate_permission, check_permission, validate_workflow_permissions,
}
use guardian_safe.SecureOwnable.Permissions.Granted.{
  Answers, IsGranted, validate_workflow_permissions_iff,
}
use guardian_safe.SecureOwnable.Timelock.{wait_for_timelock}
use guardian_safe.SecureOwnable.Timelock.Clock.{Mines, wait_for_timelock_reaches}
use guardian_safe.SecureOwnable.Timelock.Stalled.{Stalls, wait_for_timelock_stalled}
use guardian_safe.SecureOwnable.Run.{assert_test, run_test}
use guardian_safe.SecureOwnable.Run.Counts.{
  IsCounted, KeepsCount, assert_test-KeepsCount, Outcome, run_test-Outcome, run_test-thrown,
}

suite : Unit {0}
unfolding call_contract_method send_transaction same_address map_wallets discover_role_assignments
    get_role_wallet_object cancel_transaction clear_transaction clear_transactions
    clear_pending_transactions get_role_hash validate_permission check_permission
    validate_workflow_permissions assert_test run_test
suite = tt

-- The state of the node: its clock, and the pending transactions.
abbrev Chain : Type 0
Chain = ℕ × List ℕ

abbrev transfer_at : ℕ → Transaction
transfer_at release = record {
  tx_id = 4;
  status = 1;
  release_time = release;
  operation_type = ownership_transfer;
  requester = "0xcc";
}

abbrev granted : List FunctionPermission
granted = record { function_selector = "0x572BE39B"; granted_actions = 0 ∷ 1 ∷ [] } ∷ []

-- Every cancellation empties the list; with `busy` false the price of gas is refused.
abbrev node : Bool → Node Chain
node busy = record {
  owner = λ from n. (ok "0xAA", n);
  get_broadcaster = λ from n. (ok "0xbb", n);
  get_recovery = λ from n. (ok "0xcc", n);
  get_pending_transactions = λ from n. (ok n.1, n);
  get_transaction = λ id from n. (ok (transfer_at 50), n);
  get_role_permission = λ hash from n. (ok granted, n);
  timed_out = λ n. (ok false, n);
  estimate_gas = λ m from n. (ok 9, n);
  send = λ m from gas n. (ok tt, (n.0, []));
  get_gas_price = λ n. elim busy [ true ↦ (ok 1, n) | false ↦ (err "no price", n) ];
  sign_transaction = λ t n. (ok "raw", n);
  send_signed_transaction = λ raw n. (ok true, (n.0 + 1, n.1));
  block_timestamp = λ n. (ok n.0, n);
  date_now = λ n. (n.0, n);
}

abbrev wallet_at : String → Wallet
wallet_at a = record { address = a; private_key = "key" }

abbrev no_results : TestResults
no_results = record {
  total_tests = 0;
  passed_tests = 0;
  failed_tests = 0;
  start_time = none;
  end_time = none;
}

abbrev fresh : Session Chain
fresh = record {
  node = (7, 4 ∷ []);
  wallets = ("wallet1", wallet_at "0xaa") ∷ ("wallet2", wallet_at "0xCC") ∷ [];
  roles = record { owner = none; broadcaster = none; recovery = none };
  role_wallets = empty;
  test_results = no_results;
}

abbrev served : RoleWallets
served = record {
  owner = some (wallet_at "0xaa");
  broadcaster = none;
  recovery = some (wallet_at "0xCC");
}

abbrev ready : Session Chain
ready = record fresh { role_wallets = served }

abbrev cleared : Session Chain
cleared = record ready { node = (7, []) }

mines : (k : ℕ) (n : Chain) → Mines (node true) (λ m. m.0) (wallet_at "0xaa") k n
mines zero n = tt
mines (suc k) n = (
  (n.0 + 1, n.1),
  record {
    gas_price = 1;
    priced = n;
    prices = refl;
    raw = "raw";
    signed = n;
    signs = refl;
    accepts = refl;
    grows = omega arith;
  },
  mines k (n.0 + 1, n.1),
)

stalls : Stalls (node false) (λ n. n.0)
stalls = record { reads = λ n. refl; reason = "no price"; fails = λ n. refl }

answers : Answers (node true) (λ s. s) (λ hash. granted)
answers = record { in_time = λ n. refl; reads = λ hash from n. refl }

discovered : (discover_role_assignments (node true) fresh).1.role_wallets ≡ served
unfolding suite
discovered = refl

cancelled : cancel_transaction (node true) 4 ownership_transfer ready ≡ (ok true, cleared)
unfolding suite
cancelled = refl

all_cleared : clear_pending_transactions (node true) ready ≡ (ok true, cleared)
unfolding suite
all_cleared = refl

discover_role_assignments_lem_example : discover_role_assignments (node true) fresh ≡ (
  ok tt,
  record fresh {
    roles = record { owner = some "0xAA"; broadcaster = some "0xbb"; recovery = some "0xcc" };
    role_wallets = record {
      owner = last_at "0xAA" fresh.wallets;
      broadcaster = last_at "0xbb" fresh.wallets;
      recovery = last_at "0xcc" fresh.wallets;
    };
  },
)
discover_role_assignments_lem_example =
    discover_role_assignments_lem (node true) fresh (wallet_at "0xaa") "0xAA" "0xbb" "0xcc"
      (7, 4 ∷ []) (7, 4 ∷ []) (7, 4 ∷ []) refl refl refl refl refl

cancel_transaction-Sent_example :
    (wallet : Wallet) × (((ownership_transfer ≡ ownership_transfer)
        × (ready.role_wallets.recovery ≡ some wallet)
        × Sent (node true) ready cleared wallet (transfer_ownership_cancellation 4))
      ⊎ ((ownership_transfer ≡ broadcaster_update)
          × (ready.role_wallets.owner ≡ some wallet)
          × Sent (node true) ready cleared wallet (update_broadcaster_cancellation 4)))
cancel_transaction-Sent_example =
    cancel_transaction-Sent (node true) 4 ownership_transfer ready cleared cancelled

clear_pending_transactions-empty_example :
    (from : String) × (n : Chain) × ((node true).get_pending_transactions from n
      ≡ (ok [], cleared.node))
clear_pending_transactions-empty_example =
    clear_pending_transactions-empty (node true) ready cleared all_cleared

abbrev required : List Permission
required =
    record { role = "Owner"; function_selector = "0x572be39b"; expected_actions = 1 ∷ [] } ∷ []

validate_workflow_permissions_iff_example :
    (validate_workflow_permissions (node true) (λ s. s) required ready ≡ (ok tt, ready))
    ↔ (All (IsGranted (λ s. s) (λ hash. granted)) required)
validate_workflow_permissions_iff_example =
    validate_workflow_permissions_iff (node true) (λ s. s) (λ hash. granted) answers required ready
      (wallet_at "0xaa") refl

wait_for_timelock_reaches_example :
    (n : Chain) × (wait_for_timelock (node true) 4 ready ≡ (ok true, record ready { node = n }))
    × (50 ≤ n.0)
wait_for_timelock_reaches_example =
    wait_for_timelock_reaches (node true) (λ n. n.0) (wallet_at "0xaa") (λ n. refl) 4
      (transfer_at 50) (wallet_at "0xaa") ready refl refl refl (mines 60 ready.node) (omega arith)

-- The node refuses the price of gas, and the transaction is released at 50.
wait_for_timelock_stalled_example : wait_for_timelock (node false) 4 ready ≡ (ok true, ready)
wait_for_timelock_stalled_example =
    wait_for_timelock_stalled (node false) (λ n. n.0) stalls 4 (transfer_at 50) (wallet_at "0xaa")
      ready refl refl (omega arith)

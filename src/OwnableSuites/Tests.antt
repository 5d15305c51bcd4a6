-- ===== src/OwnableSuites/Tests.antt =====
-- A node with one transfer of ownership, steps of the suites on it, and the theorems at them.
use guardian_safe.Prelude.{
  ℕ, ◌+◌, String, ◌≡◌, refl, true, false, none, some, List, [], ◌∷◌, ◌==◌, if◌then◌else◌,
}
use guardian_safe.Text.{same_address}
use guardian_safe.Script.{ok, Script, pure, throw}
use guardian_safe.Accounts.{Wallet}
use guardian_safe.Eip712.Value.{absent, number, text, TxParams, MetaTxParams, MetaTransaction}
use guardian_safe.Eip712.Signer.{
  sign_meta_transaction, generate_message_hash, signature_over, is_new_transaction,
}
use guardian_safe.Eip712.Library.{Web3}
use guardian_safe.SecureOwnable.Names.{ownership_transfer}
use guardian_safe.SecureOwnable.Session.{
  Transaction, FunctionPermission, Method, transfer_ownership_cancellation,
  transfer_ownership_delayed_approval, Node, Session, call_contract_method, send_transaction,
}
use guardian_safe.SecureOwnable.Roles.{get_role_wallet_object, get_role_wallet}
use guardian_safe.SecureOwnable.Pending.{read_detail, read_details, check_pending_transactions}
use guardian_safe.SecureOwnable.Pending.Cleared.{Sent}
use guardian_safe.SecureOwnable.Permissions.{
  get_role_hash, check_permission, validate_permission, validate_workflow_permissions,
}
use guardian_safe.SecureOwnable.Timelock.{mine_block, mine_until, advance_blockchain_time}
use guardian_safe.SecureOwnable.Run.{assert_test, run_test}
use guardian_safe.SecureOwnable.Run.Counts.{Outcome}
use guardian_safe.OwnableSuites.{SuiteNode}
use guardian_safe.OwnableSuites.Wallets.{
  find_unused_wallet, find_wallet_by_address, find_wallet_by_address-find_unused_wallet,
}
use guardian_safe.OwnableSuites.Requests.{ownership_tx_record}
use guardian_safe.OwnableSuites.MetaTx.{
  meta_tx_params, sign_by_owner, sign_and_send_new, wait_for_release,
}
use guardian_safe.OwnableSuites.Recovery.{follow_recovery, test_recovery_change}
use guardian_safe.OwnableSuites.TimelockPeriod.{verify_timelock, test_timelock_change}
use guardian_safe.OwnableSuites.Awaited.{Awaited}
use guardian_safe.OwnableSuites.Ownership.{
  permission, test_step4_time_delay_cancel, test_step10_time_delay_approve,
  test_verify_ownership_change,
}
use guardian_safe.OwnableSuites.Confirmed.{
  test_verify_ownership_change_lem, test_step4_time_delay_cancel-Sent,
  test_step10_time_delay_approve-Sent,
}
use guardian_safe.OwnableSuites.Confirmed.Updates.{
  test_recovery_change_lem, test_timelock_change_lem,
}
use guardian_safe.OwnableSuites.Counted.Running.{Suite, execute_tests, execute_tests-Outcome}

suite : Unit {0}
unfolding call_contract_method send_transaction same_address get_role_wallet_object read_detail
    read_details check_pending_transactions get_role_hash check_permission validate_permission
    validate_workflow_permissions mine_block mine_until advance_blockchain_time assert_test
    find_unused_wallet find_wallet_by_address ownership_tx_record wait_for_release
    sign_meta_transaction generate_message_hash signature_over is_new_transaction get_role_wallet
    meta_tx_params sign_by_owner sign_and_send_new follow_recovery test_recovery_change
    verify_timelock test_timelock_change test_step4_time_delay_cancel test_step10_time_delay_approve
    test_verify_ownership_change
suite = tt

-- The time of the latest block, and the status of transaction 4.
abbrev Ledger : Type 0
Ledger = ℕ × ℕ

abbrev transfer : ℕ → Transaction
transfer status = record {
  tx_id = 4;
  status = status;
  release_time = 50;
  operation_type = ownership_transfer;
  requester = "0xcc";
}

abbrev sent_to : Method → Ledger → Ledger
sent_to (transfer_ownership_cancellation id) n = (n.0, 2)
sent_to (transfer_ownership_delayed_approval id) n = (n.0, 3)
sent_to method n = n

abbrev permissions : List FunctionPermission
permissions =
    record { function_selector = "0x9d8f6f90"; granted_actions = 2 ∷ [] }
    ∷ record { function_selector = "0x6cd71b38"; granted_actions = 1 ∷ [] }
    ∷ []

abbrev ledger : Node Ledger
ledger = record {
  owner = λ from n. (ok "0xCC", n);
  get_broadcaster = λ from n. (ok "0xbb", n);
  get_recovery = λ from n. (ok "0xcc", n);
  get_pending_transactions = λ from n. (ok (if n.1 == 1 then 4 ∷ [] else []), n);
  get_transaction = λ id from n. (ok (transfer n.1), n);
  get_role_permission = λ hash from n. (ok permissions, n);
  timed_out = λ n. (ok false, n);
  estimate_gas = λ m from n. (ok 9, n);
  send = λ m from gas n. (ok tt, sent_to m n);
  get_gas_price = λ n. (ok 1, n);
  sign_transaction = λ t n. (ok "raw", n);
  send_signed_transaction = λ raw n. (ok true, (n.0 + 30, n.1));
  block_timestamp = λ n. (ok n.0, n);
  date_now = λ n. (n.0, n);
}

abbrev web3 : Web3
web3 = record {
  keccak256 = λ t. t;
  encode_packed = λ parts. "packed";
  encode_parameters = λ types values. ok "encoded";
  decode_options = λ v. ok (absent, absent);
  encode_function_call = λ name types values. ok "data";
  sign = λ hash key. ok (record { signature = "0x1"; address = none });
  recover = λ hash signature. ok "0xaa";
}

abbrev unavailable : {A : Type 0} → Script Ledger A
unavailable = throw "not available"

abbrev meta_params : MetaTxParams
meta_params = record {
  chain_id = number 1;
  nonce = number 0;
  handler_contract = "0xdd";
  handler_selector = "0x2aa09cf6";
  action = 3;
  deadline = number 3600;
  max_gas_price = number 0;
  signer = "0xaa";
}

abbrev unsigned : TxParams → MetaTransaction
unsigned params = record {
  tx_record = record { indexed = false; tx_id = number 5; params = params };
  params = meta_params;
  message = "0x12";
  signature = "0x";
  payload = text "0x";
}

abbrev calls : SuiteNode Ledger
calls = record {
  contract_address = "0xdd";
  web3 = web3;
  contract = record {
    generate_unsigned_meta_transaction_for_new = λ p q. unavailable;
    generate_unsigned_meta_transaction_for_existing = λ id q. unavailable;
  };
  get_transaction_history = λ from to sender. unavailable;
  create_meta_tx_params = λ h s a d g w sender n. (ok meta_params, n);
  generate_unsigned_meta_transaction_for_existing = λ id p sender. unavailable;
  generate_unsigned_meta_transaction_for_new = λ r p sender n. (ok (unsigned r), n);
  update_recovery_execution_options = λ a sender n. (ok (text "0x"), n);
  get_time_lock_period_sec = λ sender n. (ok 2, n);
  update_time_lock_execution_options = λ seconds sender n. (ok (text "0x"), n);
}

abbrev wallet_at : String → Wallet
wallet_at a = record { address = a; private_key = "key" }

abbrev session : Session Ledger
session = record {
  node = (7, 1);
  wallets =
      ("wallet1", wallet_at "0xaa")
      ∷ ("wallet2", wallet_at "0xBB")
      ∷ ("wallet3", wallet_at "0xCC")
      ∷ ("wallet4", wallet_at "0xDD")
      ∷ ("wallet5", wallet_at "0xEE")
      ∷ [];
  roles = record { owner = some "0xaa"; broadcaster = some "0xbb"; recovery = some "0xcc" };
  role_wallets = record {
    owner = some (wallet_at "0xaa");
    broadcaster = some (wallet_at "0xBB");
    recovery = some (wallet_at "0xCC");
  };
  test_results = record {
    total_tests = 0;
    passed_tests = 0;
    failed_tests = 0;
    start_time = none;
    end_time = none;
  };
}

find_wallet_by_address-find_unused_wallet_example :
    (session ≡ session)
    × (same_address "0xBB" "0xAA" ≡ false)
    × ((w : Wallet) × (find_wallet_by_address "0xBB" session ≡ (ok w, session))
        × (same_address w.address "0xBB" ≡ true))
unfolding suite
find_wallet_by_address-find_unused_wallet_example =
    find_wallet_by_address-find_unused_wallet "recovery" "0xAA" "0xBB" session session refl

abbrev verified : Session Ledger
verified = (test_verify_ownership_change ledger calls "done" session).1

test_verify_ownership_change_lem_example :
    (from owner recovery : String) × (ledger.owner from session.node ≡ (ok owner, verified.node))
    × (verified.roles.owner ≡ some owner)
    × (session.roles.recovery ≡ some recovery)
    × (same_address owner recovery ≡ true)
    × (verified.roles.recovery ≡ some recovery)
    × (verified.role_wallets.owner ≡ session.role_wallets.recovery)
unfolding suite
test_verify_ownership_change_lem_example =
    test_verify_ownership_change_lem ledger calls "done" session verified refl

abbrev cancelled : Session Ledger
cancelled = (test_step4_time_delay_cancel ledger calls session).1

test_step4_time_delay_cancel-Sent_example :
    (id : ℕ) × (s₁ s₂ : Session Ledger) × (w : Wallet) × (Awaited ledger calls
      (permission "recovery" "0x9d8f6f90" 2)
      id
      session
      s₁)
    × (session.role_wallets.recovery ≡ some w)
    × (Sent ledger s₁ s₂ w (transfer_ownership_cancellation id))
    × (from : String) × (r : Transaction) × (ledger.get_transaction id from s₂.node
        ≡ (ok r, cancelled.node))
    × (r.status ≡ 2)
unfolding suite
test_step4_time_delay_cancel-Sent_example =
    test_step4_time_delay_cancel-Sent ledger calls session cancelled refl

abbrev approved : Session Ledger
approved = (test_step10_time_delay_approve ledger calls session).1

test_step10_time_delay_approve-Sent_example :
    (id : ℕ) × (s₁ s₂ : Session Ledger) × (w : Wallet) × (Awaited ledger calls
      (permission "owner" "0x6cd71b38" 1)
      id
      session
      s₁)
    × (session.role_wallets.owner ≡ some w)
    × (Sent ledger s₁ s₂ w (transfer_ownership_delayed_approval id))
    × (from : String) × (r : Transaction) × (ledger.get_transaction id from s₂.node
        ≡ (ok r, approved.node))
    × (r.status ≡ 3)
unfolding suite
test_step10_time_delay_approve-Sent_example =
    test_step10_time_delay_approve-Sent ledger calls session approved refl

-- The first step fails, because its permission is not granted.
execute_tests-Outcome_example :
    Outcome ledger
      (pure tt)
      (execute_tests ledger calls Suite.ownership)
      (run_test ledger (pure tt) (execute_tests ledger calls Suite.ownership) session).0
      (run_test ledger
        (pure tt)
        (execute_tests ledger calls Suite.ownership)
        session).1.test_results
execute_tests-Outcome_example =
    execute_tests-Outcome ledger calls Suite.ownership (pure tt) session (record { at = λ s h. h })
      refl

abbrev recovered : Session Ledger
recovered = (test_recovery_change ledger calls "0xcc" "the same" session).1

test_recovery_change_lem_example :
    (from updated : String) × (n : Ledger) × (ledger.get_recovery from n
      ≡ (ok updated, recovered.node))
    × (same_address updated "0xcc" ≡ true)
    × (recovered.roles.recovery ≡ some updated)
unfolding suite
test_recovery_change_lem_example =
    test_recovery_change_lem ledger calls "0xcc" "the same" session recovered refl

abbrev relocked : Session Ledger
relocked = (test_timelock_change ledger calls 2 "2" "2 seconds" session).1

test_timelock_change_lem_example :
    (from : String) × (n : Ledger) × (calls.get_time_lock_period_sec from n ≡ (ok 2, relocked.node))
unfolding suite
test_timelock_change_lem_example =
    test_timelock_change_lem ledger calls 2 "2" "2 seconds" session relocked refl

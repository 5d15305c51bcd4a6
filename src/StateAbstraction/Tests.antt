-- ===== src/StateAbstraction/Tests.antt =====
-- A small contract, and the theorems of this part at it.
mod Staff
use guardian_safe.Prelude.{
  ℕ, ◌+◌, ◌≤◌, ◌≡◌, refl, subst, true, false, inl, inr, some, List, [], ◌∷◌, arith,
}
use guardian_safe.StateAbstraction.Enums.{
  TxAction, status_code, action_code, execution_code, no_execution, execute_time_delay_request,
  execute_time_delay_approve, execute_time_delay_cancel, sign_meta_approve, execute_meta_approve,
  execute_meta_cancel, execute_update_payment,
}
use guardian_safe.StateAbstraction.Revert.{
  Outcome, returned, reverted, pure, revert, gets, modify, require, ◌>>=◌,
}
use guardian_safe.StateAbstraction.Sets.Distinct.{distinct_lists, distinct_lists-IsLawful}
use guardian_safe.StateAbstraction.Types.{
  word_size, TxParams, TxRecord, MetaTransaction, FunctionPermission, Role, Chain, Context, update,
  no_record, no_payment,
}
use guardian_safe.StateAbstraction.Environment.{Environment}
use guardian_safe.StateAbstraction.Roles.{
  State, role_has_action_permission, has_action_permission, has_any_role, create_role,
  assign_wallet, update_assigned_wallet, revoke_wallet, add_function_to_role,
  is_action_supported_by_function,
}
use guardian_safe.StateAbstraction.Roles.Changes.{
  RoleChange, create, assign, revoke, replace, add_function, update_all, perform_change,
  run_changes, state_after,
}
use guardian_safe.StateAbstraction.Roles.Wallets.{
  wallets, IsStaffed, AllStaffed, run_changes-AllStaffed, update_assigned_wallet_shrinks,
}
use guardian_safe.StateAbstraction.Roles.Permitted.{role_has_action_permission-separated}
use guardian_safe.StateAbstraction.MetaTx.{recover_signer, get_signer_nonce, verify_signature}
use guardian_safe.StateAbstraction.Transactions.{
  Selectors, log_tx_event, add_to_pending_transactions_list, remove_from_pending_transactions_list,
  create_new_tx_record, tx_request, prepare_transaction_data, pay_native, pay_erc20,
  execute_attached_payment, execute_transaction, tx_delayed_approval, tx_cancellation,
  increment_signer_nonce, tx_approval_with_meta_tx, update_payment_for_transaction,
}
use guardian_safe.StateAbstraction.LifeCycle.{is_settled, IsSound, Advance, Advance-refl}
use guardian_safe.StateAbstraction.Advances.{IsClosed}
use guardian_safe.StateAbstraction.History.{
  Operation, request_tx, approve_delayed, cancel_delayed, approve_meta, cancel_meta, update_payment,
  perform, run,
}
use guardian_safe.StateAbstraction.History.Refined.{run-Advance, run-settled}
use guardian_safe.StateAbstraction.History.Delayed.{delayed_approval_waits}
use guardian_safe.StateAbstraction.History.Replayed.{meta_tx_once, approves, cancels}

abbrev TestChain : Type 0
TestChain = Chain distinct_lists.Set Unit

suite : Unit {0}
unfolding create_role assign_wallet update_assigned_wallet revoke_wallet add_function_to_role
    is_action_supported_by_function perform_change run_changes action_code
    add_to_pending_transactions_list create_new_tx_record execute_attached_payment
    execute_transaction execution_code get_signer_nonce gets has_action_permission has_any_role
    increment_signer_nonce log_tx_event modify pay_erc20 pay_native perform prepare_transaction_data
    pure recover_signer remove_from_pending_transactions_list require revert
    role_has_action_permission run status_code tx_approval_with_meta_tx tx_cancellation
    tx_delayed_approval tx_request update_payment_for_transaction verify_signature word_size ◌>>=◌
suite = tt

-- every call succeeds and changes nothing, and every signature is of wallet 12
abbrev quiet : Environment distinct_lists.Set Unit
quiet = record {
  gas_left = λ c. 1000;
  call = λ target value gas data' c. ((true, ""), c);
  balance = λ c. 50;
  token_balance = λ token c. returned 50;
  safe_transfer = λ token recipient amount c. returned (tt, c);
  forward_tx_event = λ forwarder id name status c. c;
  decode_standard = λ options. some options;
  decode_raw = λ options. some options;
  hash_words = λ words. 1;
  hash_bytes = λ text. 1;
  ecrecover = λ hash v r s. 12;
}

quiet-IsClosed : IsClosed distinct_lists quiet
quiet-IsClosed = record {
  call_evolves = λ target value gas data' c h. Advance-refl distinct_lists.contains c.self h;
  transfer_evolves = λ token recipient amount c d e h.
      let same : c ≡ d = cc in
      subst (λ x. Advance distinct_lists.contains c.self x.self) same
        (Advance-refl distinct_lists.contains c.self h);
  forward_evolves = λ forwarder id name status c h. Advance-refl distinct_lists.contains c.self h;
}

abbrev selectors : Selectors
selectors = record {
  tx_request = 1;
  tx_delayed_approval = 2;
  tx_cancellation = 3;
  meta_tx_approval = 4;
  meta_tx_cancellation = 5;
  meta_tx_request_and_approve = 6;
  update_payment = 7;
  type_hash = 9;
}

abbrev granting : ℕ → TxAction → FunctionPermission
granting selector action = record { function_selector = selector; granted_actions = action ∷ [] }

-- wallets 11 and 12 may do everything
abbrev operators : Role distinct_lists.Set
operators = record {
  role_name = "OPERATORS";
  role_hash = 70;
  authorized_wallets = (11 ∷ 12 ∷ [], refl);
  function_permissions =
      granting 1 execute_time_delay_request
      ∷ granting 2 execute_time_delay_approve
      ∷ granting 3 execute_time_delay_cancel
      ∷ granting 4 execute_meta_approve
      ∷ granting 5 execute_meta_cancel
      ∷ granting 7 execute_update_payment
      ∷ granting 40 sign_meta_approve
      ∷ [];
  max_wallets = 2;
  wallet_count = 2;
  is_protected = true;
}

abbrev nobody : Role distinct_lists.Set
nobody = record {
  role_name = "";
  role_hash = 0;
  authorized_wallets = ([], refl);
  function_permissions = [];
  max_wallets = 0;
  wallet_count = 0;
  is_protected = false;
}

abbrev start : TestChain
start = record {
  self = record {
    initialized = true;
    tx_counter = 0;
    time_lock_period_sec = 100;
    tx_records = λ id. no_record;
    pending_transactions_set = ([], refl);
    roles = update (λ r. nobody) 70 operators;
    supported_roles_set = (70 ∷ [], refl);
    functions = λ selector. record {
      function_name = "f";
      function_selector = selector;
      operation_type = 30;
      operation_name = "OPERATION";
      supported_actions = sign_meta_approve ∷ execute_meta_approve ∷ [];
    };
    signer_nonces = λ a. 0;
    event_forwarder = 90;
  };
  world = tt;
}

start-IsSound : IsSound distinct_lists.contains start.self
unfolding status_code word_size
start-IsSound = record {
  listed = λ id. refl;
  fresh = λ id l. refl;
  zeroth = refl;
  named = λ id e. absurd (e refl);
  bounded = omega arith;
}

abbrev at_time : ℕ → Context
at_time t = record { sender = 11; timestamp = t; chain_id = 1; this = 80; gas_price = 3 }

abbrev withdrawal : TxParams
withdrawal = record {
  requester = 11;
  target = 80;
  value = 0;
  gas_limit = 0;
  operation_type = 30;
  execution_type = no_execution;
  execution_options = "";
}

abbrev answer_or : {A : Type 0} → A → Outcome (A × TestChain) → A × TestChain
answer_or a (returned r) = r
answer_or a (reverted e) = (a, start)

abbrev run_test : List (Context × Operation) → TestChain → TestChain
run_test ops c = run distinct_lists quiet selectors ops c

abbrev requested_at : ℕ → TxRecord × TestChain
requested_at t =
    answer_or no_record (tx_request distinct_lists quiet selectors (at_time t) withdrawal start)

-- the payment is set twice, by one that may and at a moment at which nothing is pending
abbrev payments : List (Context × Operation)
payments =
    (at_time 20, update_payment 1 (record no_payment { native_token_amount = 5; recipient = 33 }))
    ∷ (at_time 30, update_payment 2 no_payment)
    ∷ []

abbrev signed_approval : MetaTransaction
signed_approval = record {
  tx_record = (requested_at 10).0;
  params = record {
    chain_id = 1;
    nonce = 0;
    handler_contract = 80;
    handler_selector = 40;
    action = sign_meta_approve;
    deadline = 500;
    max_gas_price = 0;
    signer = 12;
  };
  message = 0;
  signature = record { length = 65; r = 1; s = 1; v = 27 };
  payload = "";
}

abbrev everything : List (Context × Operation)
everything =
    (at_time 10, request_tx withdrawal)
    ∷ (at_time 50, approve_delayed 1)
    ∷ (at_time 110, approve_delayed 1)
    ∷ (at_time 120, cancel_delayed 1)
    ∷ []

abbrev afterwards : TestChain
afterwards = run_test everything start

run-Advance_example : Advance distinct_lists.contains start.self (run_test everything start).self
run-Advance_example =
    run-Advance distinct_lists quiet selectors distinct_lists-IsLawful quiet-IsClosed everything
      start start-IsSound

-- What a history leaves where the first one does.
afterwards-IsSound : IsSound distinct_lists.contains afterwards.self
afterwards-IsSound =
    (run-Advance distinct_lists quiet selectors distinct_lists-IsLawful quiet-IsClosed everything
      start start-IsSound).sound

-- It was approved at 110, not at 50, and not cancelled after that.
completed_once : is_settled (afterwards.self.tx_records 1).status ≡ true
unfolding suite
completed_once = refl

run-settled_example :
    ((run_test payments afterwards).self.tx_records 1).status
    ≡ (afterwards.self.tx_records 1).status
run-settled_example =
    run-settled distinct_lists quiet selectors distinct_lists-IsLawful quiet-IsClosed payments
      afterwards 1 afterwards-IsSound completed_once

requested_returns :
    tx_request distinct_lists quiet selectors (at_time 10) withdrawal start
    ≡ returned (requested_at 10)
unfolding suite
requested_returns = refl

abbrev approved : TxRecord × TestChain
approved = answer_or no_record (
    tx_delayed_approval distinct_lists quiet selectors (at_time 110) 1
      (run_test payments (requested_at 10).1))

approval_returns :
    tx_delayed_approval distinct_lists quiet selectors
      (at_time 110)
      (requested_at 10).0.tx_id
      (run_test payments (requested_at 10).1)
    ≡ returned approved
unfolding suite
approval_returns = refl

delayed_approval_waits_example :
    (10 + 100 ≤ 110)
    × (has_action_permission distinct_lists
          (run_test payments (requested_at 10).1).self
          11
          2
          execute_time_delay_approve
        ≡ true)
    × (((run_test payments (requested_at 10).1).self.tx_records (requested_at 10).0.tx_id).params
        ≡ withdrawal)
delayed_approval_waits_example =
    delayed_approval_waits distinct_lists quiet selectors distinct_lists-IsLawful quiet-IsClosed
      (at_time 10) (at_time 110) withdrawal start (requested_at 10).1 approved.1 (requested_at 10).0
      approved.0 payments start-IsSound requested_returns approval_returns

abbrev waiting : TestChain
waiting = run_test ((at_time 10, request_tx withdrawal) ∷ []) start

waiting-IsSound : IsSound distinct_lists.contains waiting.self
waiting-IsSound =
    (run-Advance distinct_lists quiet selectors distinct_lists-IsLawful quiet-IsClosed
      ((at_time 10, request_tx withdrawal) ∷ []) start start-IsSound).sound

abbrev executed_once : TestChain
executed_once = run_test ((at_time 60, approve_meta signed_approval) ∷ []) waiting

meta_approval_returns :
    perform distinct_lists quiet selectors (at_time 60) (approve_meta signed_approval) waiting
    ≡ returned executed_once
unfolding suite
meta_approval_returns = refl

meta_tx_once_example : ¬ (
    perform distinct_lists quiet selectors
      (at_time 70)
      (cancel_meta signed_approval)
      (run_test payments executed_once)
    ≡ returned start)
meta_tx_once_example =
    meta_tx_once distinct_lists quiet selectors distinct_lists-IsLawful quiet-IsClosed (at_time 60)
      (at_time 70) signed_approval (approve_meta signed_approval) (cancel_meta signed_approval)
      waiting executed_once start payments waiting-IsSound approves cancels meta_approval_returns

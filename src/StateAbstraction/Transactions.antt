-- ===== src/StateAbstraction/Transactions.antt =====
-- The life of a transaction: request, approval, cancellation, and the same by meta-transactions.
pub mod Advancing
pub mod Operating
use guardian_safe.Prelude.{
  ℕ, ◌+◌, String, Bool, true, false, not, ◌&&◌, ◌||◌, Option, none, some, ltb, leb, ◌==◌,
  if◌then◌else◌, str_eq,
}
use guardian_safe.StateAbstraction.Enums.{
  TxStatus, pending, cancelled, completed, failed, TxAction, ExecutionType, no_execution, standard,
  raw, status_code, execute_time_delay_request, execute_time_delay_approve,
  execute_time_delay_cancel, execute_meta_request_and_approve, execute_meta_approve,
  execute_meta_cancel, execute_update_payment,
}
use guardian_safe.StateAbstraction.Revert.{
  Outcome, returned, reverted, Call, pure, revert, gets, modify, require, ◌>>=◌, ◌>>◌,
  no_permission, no_permission_execute, invalid_address, can_only_approve_pending,
  before_release_time, transaction_not_found, request_already_pending, insufficient_balance,
  payment_failed, function_does_not_exist, panic,
}
use guardian_safe.StateAbstraction.Sets.{EnumerableSet}
use guardian_safe.StateAbstraction.Types.{
  word_size, TxParams, PaymentDetails, TxRecord, MetaTransaction, SecureOperationState, Chain,
  Context, update, no_payment,
}
use guardian_safe.StateAbstraction.Environment.{Environment}
use guardian_safe.StateAbstraction.Roles.{has_action_permission}
use guardian_safe.StateAbstraction.MetaTx.{verify_signature}

-- The constants of the library: the selectors of its functions and the type hash.
pub record Selectors : Type 0 where
  pub tx_request : ℕ
  pub tx_delayed_approval : ℕ
  pub tx_cancellation : ℕ
  pub meta_tx_approval : ℕ
  pub meta_tx_cancellation : ℕ
  pub meta_tx_request_and_approve : ℕ
  pub update_payment : ℕ
  pub type_hash : ℕ

-- a + b of uint256, which reverts where it overflows
abbrev pub checked_add : {C : Type 0} → ℕ → ℕ → Call C ℕ
checked_add a b = do require (ltb (a + b) word_size) panic; pure (a + b)

module _ (sets : EnumerableSet) {W : Type 0} (env : Environment sets.Set W) (k : Selectors)
    (msg : Context) where
  abbrev pub Run : Type 0 → Type 0
  Run A = Call (Chain sets.Set W) A

  abbrev pub on_self :
      (SecureOperationState sets.Set → SecureOperationState sets.Set) → Run (Unit {0})
  on_self f = modify (λ c. record c { self = f c.self })

  abbrev pub tx_record_of : ℕ → Run TxRecord
  tx_record_of id = gets (λ c. c.self.tx_records id)

  abbrev pub set_tx_record : ℕ → (TxRecord → TxRecord) → Run (Unit {0})
  set_tx_record id f =
      on_self (λ s. record s { tx_records = update s.tx_records id (f (s.tx_records id)) })

  abbrev pub permits : ℕ → TxAction → Chain sets.Set W → Bool
  permits selector action c = has_action_permission sets c.self msg.sender selector action

  -- SharedValidation.validatePendingTransaction
  abbrev pub require_pending : ℕ → Run (Unit {0})
  require_pending id = do
    r ← tx_record_of id
    require (status_code r.status == 1) (can_only_approve_pending (status_code r.status))

  unfoldable pub log_tx_event : ℕ → ℕ → Run (Unit {0})
  log_tx_event id selector = do
    c ← gets (λ c. c)
    let name = (c.self.functions selector).function_name
    require (not (str_eq name "")) (function_does_not_exist selector)
    if c.self.event_forwarder == 0
        then pure tt
        else modify
            (env.forward_tx_event c.self.event_forwarder id name (c.self.tx_records id).status)

  unfoldable pub add_to_pending_transactions_list : ℕ → Run (Unit {0})
  add_to_pending_transactions_list id = do
    require (not (id == 0)) (transaction_not_found id)
    require_pending id
    self ← gets (λ c. c.self)
    require (not (sets.contains id self.pending_transactions_set)) (request_already_pending id)
    on_self (λ s. record s { pending_transactions_set = sets.add id s.pending_transactions_set })

  unfoldable pub remove_from_pending_transactions_list : ℕ → Run (Unit {0})
  remove_from_pending_transactions_list id = do
    require (not (id == 0)) (transaction_not_found id)
    self ← gets (λ c. c.self)
    require (sets.contains id self.pending_transactions_set) (transaction_not_found id)
    on_self (λ s. record s { pending_transactions_set = sets.remove id s.pending_transactions_set })

  unfoldable pub create_new_tx_record : TxParams → Run TxRecord
  create_new_tx_record params = do
    self ← gets (λ c. c.self)
    id ← checked_add self.tx_counter 1
    release_time ← checked_add msg.timestamp self.time_lock_period_sec
    pure (record {
      tx_id = id;
      release_time = release_time;
      status = pending;
      params = params;
      message = 0;
      result = "";
      payment = no_payment;
    })

  unfoldable pub tx_request : TxParams → Run TxRecord
  tx_request params = do
    c ← gets (λ c. c)
    require
        (permits k.tx_request execute_time_delay_request c
          || permits k.meta_tx_request_and_approve execute_meta_request_and_approve c)
        (no_permission_execute msg.sender)
    require (not (params.target == 0)) (invalid_address 0)
    r ← create_new_tx_record params
    set_tx_record r.tx_id (λ _. r)
    counter ← checked_add c.self.tx_counter 1
    on_self (λ s. record s { tx_counter = counter })
    add_to_pending_transactions_list r.tx_id
    log_tx_event r.tx_id k.tx_request
    pure r

  abbrev pub or_panic : Option String → Run String
  or_panic none = revert panic
  or_panic (some data') = pure data'

  abbrev pub data_of : ExecutionType → String → Run String
  data_of standard options = or_panic (env.decode_standard options)
  data_of raw options = or_panic (env.decode_raw options)
  data_of no_execution options = pure ""

  unfoldable pub prepare_transaction_data : TxRecord → Run String
  prepare_transaction_data r = data_of r.params.execution_type r.params.execution_options

  abbrev pub call : ℕ → ℕ → ℕ → String → Run (Bool × String)
  call target value gas data' c = returned (env.call target value gas data' c)

  unfoldable pub pay_native : PaymentDetails → Run (Unit {0})
  pay_native p = do
    c ← gets (λ c. c)
    require (leb p.native_token_amount (env.balance c))
        (insufficient_balance (env.balance c) p.native_token_amount)
    answer ← call p.recipient p.native_token_amount (env.gas_left c) ""
    require answer.0 (payment_failed p.recipient p.native_token_amount)

  abbrev pub answered : Outcome ℕ → Run ℕ
  answered (returned amount) = pure amount
  answered (reverted e) = revert e

  abbrev pub token_balance : ℕ → Run ℕ
  token_balance token c = answered (env.token_balance token c) c

  unfoldable pub pay_erc20 : PaymentDetails → Run (Unit {0})
  pay_erc20 p = do
    require (not (p.erc20_token_address == 0)) (invalid_address 0)
    balance ← token_balance p.erc20_token_address
    require (leb p.erc20_token_amount balance) (insufficient_balance balance p.erc20_token_amount)
    env.safe_transfer p.erc20_token_address p.recipient p.erc20_token_amount

  unfoldable pub execute_attached_payment : PaymentDetails → Run (Unit {0})
  execute_attached_payment p = do
    if ltb 0 p.native_token_amount then pay_native p else pure tt
    if ltb 0 p.erc20_token_amount then pay_erc20 p else pure tt

  -- The writes to `record` are to its copy in memory.
  unfoldable pub execute_transaction : TxRecord → Run (Bool × String)
  execute_transaction r = do
    data' ← prepare_transaction_data r
    gas ← gets (λ c. if r.params.gas_limit == 0 then env.gas_left c else r.params.gas_limit)
    answer ← call r.params.target r.params.value gas data'
    if answer.0 && not (r.payment.recipient == 0)
        then execute_attached_payment r.payment
        else pure tt
    pure answer

  -- what an approval writes to the record, by the answer of the execution
  abbrev pub executed : Bool × String → TxRecord → TxRecord
  executed (true, result) r = record r { status = completed; result = result }
  executed (false, result) r = record r { status = failed }

  -- the part that both approvals share, with the execution
  abbrev pub execute_and_settle : ℕ → Run (Unit {0})
  execute_and_settle id = do
    r ← tx_record_of id
    answer ← execute_transaction r
    set_tx_record id (executed answer)
    remove_from_pending_transactions_list id

  unfoldable pub tx_delayed_approval : ℕ → Run TxRecord
  tx_delayed_approval id = do
    c ← gets (λ c. c)
    require (permits k.tx_delayed_approval execute_time_delay_approve c) (no_permission msg.sender)
    require_pending id
    r ← tx_record_of id
    require (leb r.release_time msg.timestamp) (before_release_time r.release_time msg.timestamp)
    execute_and_settle id
    log_tx_event id k.tx_delayed_approval
    tx_record_of id

  -- the part that both cancellations share
  abbrev pub cancel_and_settle : ℕ → Run (Unit {0})
  cancel_and_settle id = do
    set_tx_record id (λ r. record r { status = cancelled })
    remove_from_pending_transactions_list id

  unfoldable pub tx_cancellation : ℕ → Run TxRecord
  tx_cancellation id = do
    c ← gets (λ c. c)
    require (permits k.tx_cancellation execute_time_delay_cancel c) (no_permission msg.sender)
    require_pending id
    cancel_and_settle id
    log_tx_event id k.tx_cancellation
    tx_record_of id

  unfoldable pub increment_signer_nonce : ℕ → Run (Unit {0})
  increment_signer_nonce signer = do
    self ← gets (λ c. c.self)
    nonce ← checked_add (self.signer_nonces signer) 1
    on_self (λ s. record s { signer_nonces = update s.signer_nonces signer nonce })

  unfoldable pub tx_cancellation_with_meta_tx : MetaTransaction → Run TxRecord
  tx_cancellation_with_meta_tx m = do
    c ← gets (λ c. c)
    require (permits k.meta_tx_cancellation execute_meta_cancel c) (no_permission msg.sender)
    require_pending m.tx_record.tx_id
    verify_signature sets env msg k.type_hash m
    increment_signer_nonce m.params.signer
    cancel_and_settle m.tx_record.tx_id
    log_tx_event m.tx_record.tx_id k.meta_tx_cancellation
    tx_record_of m.tx_record.tx_id

  unfoldable pub tx_approval_with_meta_tx : MetaTransaction → Run TxRecord
  tx_approval_with_meta_tx m = do
    c ← gets (λ c. c)
    require (permits k.meta_tx_approval execute_meta_approve c) (no_permission msg.sender)
    require_pending m.tx_record.tx_id
    verify_signature sets env msg k.type_hash m
    increment_signer_nonce m.params.signer
    execute_and_settle m.tx_record.tx_id
    log_tx_event m.tx_record.tx_id k.meta_tx_approval
    tx_record_of m.tx_record.tx_id

  unfoldable pub request_and_approve : MetaTransaction → Run TxRecord
  request_and_approve m = do
    c ← gets (λ c. c)
    require (permits k.meta_tx_request_and_approve execute_meta_request_and_approve c)
        (no_permission msg.sender)
    r ← tx_request m.tx_record.params
    tx_approval_with_meta_tx (record m { tx_record = r })

  unfoldable pub update_payment_for_transaction : ℕ → PaymentDetails → Run (Unit {0})
  update_payment_for_transaction id payment = do
    c ← gets (λ c. c)
    require (permits k.update_payment execute_update_payment c) (no_permission msg.sender)
    require_pending id
    set_tx_record id (λ r. record r { payment = payment })
    log_tx_event id k.update_payment

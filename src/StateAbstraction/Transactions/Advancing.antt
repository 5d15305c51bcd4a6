-- ===== src/StateAbstraction/Transactions/Advancing.antt =====
-- Every operation respects the life cycle, also where a contract that it calls calls back.
use guardian_safe.Prelude.{
  ℕ, String, ◌≡◌, ◌≢◌, refl, sym, subst, Bool, true, false, arith, Option, none, some,
}
use guardian_safe.StateAbstraction.Enums.{rejected, standard, raw, no_execution, ExecutionType}
use guardian_safe.StateAbstraction.Revert.{
  Outcome, returned, reverted, pure, revert, gets, modify, require, ◌>>=◌, ◌>>◌,
}
use guardian_safe.StateAbstraction.Sets.{EnumerableSet, IsLawful}
use guardian_safe.StateAbstraction.Types.{PaymentDetails, TxRecord, Chain, Context}
use guardian_safe.StateAbstraction.Environment.{Environment}
use guardian_safe.StateAbstraction.LifeCycle.{is_settled, Advance}
use guardian_safe.StateAbstraction.LifeCycle.Changes.{settled, settled-Advance}
use guardian_safe.StateAbstraction.Transactions.{
  Selectors, log_tx_event, remove_from_pending_transactions_list, prepare_transaction_data,
  or_panic, data_of, call, answered, pay_native, pay_erc20, execute_attached_payment,
  execute_transaction, execute_and_settle, executed, set_tx_record,
}
use guardian_safe.StateAbstraction.Advances.{
  Advances, IsClosed, leaves-Advances, pure-Advances, modify-Advances, >>=-Advances,
  require-Advances, if-Advances, after_reading, after_check,
}

module _ (sets : EnumerableSet) {W : Type 0} (env : Environment sets.Set W) (k : Selectors)
    (msg : Context) (law : IsLawful sets) (closed : IsClosed sets env) where
  pub log-Advances : (id selector : ℕ) → Advances sets env (log_tx_event sets env k msg id selector)
  unfolding log_tx_event
  log-Advances id selector = after_reading sets env _ _ λ c. after_check sets env _ _ _ (
      if-Advances sets env _ _ _ (pure-Advances sets env tt)
        (modify-Advances sets env _ (closed.forward_evolves _ _ _ _)))

  or_panic-Advances : (o : Option String) → Advances sets env (or_panic sets env k msg o)
  unfolding revert
  or_panic-Advances none = record { at = λ c d a p h. cc }
  or_panic-Advances (some data') = pure-Advances sets env data'

  data_of-Advances :
      (t : ExecutionType) (options : String) → Advances sets env (data_of sets env k msg t options)
  data_of-Advances standard options = or_panic-Advances _
  data_of-Advances raw options = or_panic-Advances _
  data_of-Advances no_execution options = pure-Advances sets env ""

  prepare-Advances : (r : TxRecord) → Advances sets env (prepare_transaction_data sets env k msg r)
  unfolding prepare_transaction_data
  prepare-Advances r = data_of-Advances _ _

  call-Advances :
      (target value gas : ℕ) (data' : String)
      → Advances sets env (call sets env k msg target value gas data')
  call-Advances target value gas data' = record {
    at = λ c d a e h.
        let answer = env.call target value gas data' c in
        leaves-Advances sets env answer.0 a c d answer.1 e
          (closed.call_evolves target value gas data' c h);
  }

  answered-Advances : (o : Outcome ℕ) → Advances sets env (answered sets env k msg o)
  unfolding revert
  answered-Advances (returned amount) = pure-Advances sets env amount
  answered-Advances (reverted e) = record { at = λ c d a p h. cc }

  pay_native-Advances : (p : PaymentDetails) → Advances sets env (pay_native sets env k msg p)
  unfolding pay_native
  pay_native-Advances p = after_reading sets env _ _ λ c.
      after_check sets env _ _ _
        (>>=-Advances sets env _ _ (call-Advances _ _ _ _) λ answer. require-Advances sets env _ _)

  pay_erc20-Advances : (p : PaymentDetails) → Advances sets env (pay_erc20 sets env k msg p)
  unfolding pay_erc20
  pay_erc20-Advances p = after_check sets env _ _ _ (
      >>=-Advances sets env _ _ (record { at = λ c d a e h. (answered-Advances _).at c d a e h })
        λ balance.
          after_check sets env _ _ _
            (record { at = λ c d a e h. closed.transfer_evolves _ _ _ c d e h }))

  payment-Advances :
      (p : PaymentDetails) → Advances sets env (execute_attached_payment sets env k msg p)
  unfolding execute_attached_payment
  payment-Advances p =
      >>=-Advances sets env _ _
        (if-Advances sets env _ _ _ (pay_native-Advances p) (pure-Advances sets env tt))
        λ _. if-Advances sets env _ _ _ (pay_erc20-Advances p) (pure-Advances sets env tt)

  execute-Advances : (r : TxRecord) → Advances sets env (execute_transaction sets env k msg r)
  unfolding execute_transaction
  execute-Advances r = >>=-Advances sets env _ _ (prepare-Advances r) λ data'.
      after_reading sets env _ _ λ gas. >>=-Advances sets env _ _ (call-Advances _ _ _ _) λ answer.
        >>=-Advances sets env _ _
          (if-Advances sets env _ _ _ (payment-Advances _) (pure-Advances sets env tt))
          λ _. pure-Advances sets env answer

  -- A record is settled where its identifier is still in the set, so not twice.
  removed_lem :
      (id : ℕ) (f : TxRecord → TxRecord) (c d : Chain sets.Set W) (a : Unit {0})
      → (set_tx_record sets env k msg id f
            >> remove_from_pending_transactions_list sets env k msg id)
          c
        ≡ returned (a, d)
      → (sets.contains id c.self.pending_transactions_set ≡ true)
        × (d ≡ record c { self = settled sets law id (f (c.self.tx_records id)) c.self })
  unfolding ◌>>=◌ gets modify require pure revert remove_from_pending_transactions_list
  removed_lem id f c d a e = ground arith

  pub settle-Advances :
      (id : ℕ) (f : TxRecord → TxRecord)
      → ((r : TxRecord) → is_settled (f r).status ≡ true)
      → ((r : TxRecord) → (f r).status ≢ rejected)
      → ((r : TxRecord)
          → ((f r).tx_id ≡ r.tx_id)
            × ((f r).params ≡ r.params)
            × ((f r).release_time ≡ r.release_time))
      → Advances sets env (
          set_tx_record sets env k msg id f
          >> remove_from_pending_transactions_list sets env k msg id)
  settle-Advances id f p q t = record {
    at = λ c d a e h.
        let (listed, same) = removed_lem id f c d a e in
        let r = c.self.tx_records id in
        subst (λ x. Advance sets.contains c.self x.self) (sym same)
          (settled-Advance sets law id (f r) c.self (p r) (q r) (t r).0 (t r).1 (t r).2 listed h);
  }

  executed-Advances :
      (id : ℕ) (answer : Bool × String)
      → Advances sets env (
          set_tx_record sets env k msg id (executed sets env k msg answer)
          >> remove_from_pending_transactions_list sets env k msg id)
  executed-Advances id (true, result) =
      settle-Advances id (executed sets env k msg (true, result)) (λ r. refl) (λ r e. cc)
        (λ r. (refl, refl, refl))
  executed-Advances id (false, result) =
      settle-Advances id (executed sets env k msg (false, result)) (λ r. refl) (λ r e. cc)
        (λ r. (refl, refl, refl))

  pub execute_and_settle-Advances :
      (id : ℕ) → Advances sets env (execute_and_settle sets env k msg id)
  execute_and_settle-Advances id =
      after_reading sets env _ _
        λ r. >>=-Advances sets env _ _ (execute-Advances r) λ answer. executed-Advances id answer

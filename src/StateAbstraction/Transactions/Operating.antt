-- ===== src/StateAbstraction/Transactions/Operating.antt =====
-- The operations, whole, respect the life cycle.
use guardian_safe.Prelude.{ℕ, ◌+◌, ◌<◌, ◌≡◌, refl, sym, subst, arith}
use guardian_safe.StateAbstraction.Enums.{pending, cancelled}
use guardian_safe.StateAbstraction.Revert.{returned, pure, revert, gets, modify, require, ◌>>=◌}
use guardian_safe.StateAbstraction.Sets.{EnumerableSet, IsLawful}
use guardian_safe.StateAbstraction.Types.{
  word_size, TxParams, PaymentDetails, TxRecord, SignatureBytes, MetaTransaction,
  SecureOperationState, Chain, Context, update, no_payment,
}
use guardian_safe.StateAbstraction.Environment.{Environment}
use guardian_safe.StateAbstraction.LifeCycle.{Advance, Advance-trans}
use guardian_safe.StateAbstraction.LifeCycle.Changes.{
  requested, requested-Advance, counted-Advance, paid-Advance,
}
use guardian_safe.StateAbstraction.MetaTx.{recover_signer, get_signer_nonce, verify_signature}
use guardian_safe.StateAbstraction.Transactions.{
  Selectors, log_tx_event, add_to_pending_transactions_list, create_new_tx_record, tx_request,
  cancel_and_settle, tx_delayed_approval, tx_cancellation, increment_signer_nonce,
  tx_cancellation_with_meta_tx, tx_approval_with_meta_tx, request_and_approve,
  update_payment_for_transaction, set_tx_record, require_pending,
}
use guardian_safe.StateAbstraction.Advances.{
  Advances, IsClosed, gets-Advances, pure-Advances, >>=-Advances, require-Advances, after_reading,
  after_check,
}
use guardian_safe.StateAbstraction.Transactions.Advancing.{
  log-Advances, settle-Advances, execute_and_settle-Advances,
}

module _ (sets : EnumerableSet) {W : Type 0} (env : Environment sets.Set W) (k : Selectors)
    (msg : Context) (law : IsLawful sets) (closed : IsClosed sets env) where
  pending-Advances : (id : ℕ) → Advances sets env (require_pending sets env k msg id)
  pending-Advances id = after_reading sets env _ _ λ r. require-Advances sets env _ _

  recover-Advances :
      (hash : ℕ) (sig : SignatureBytes) → Advances sets env (recover_signer sets env msg hash sig)
  unfolding recover_signer
  recover-Advances hash sig = after_check sets env _ _ _ (
      after_check sets env _ _ _
        (after_check sets env _ _ _ (after_check sets env _ _ _ (pure-Advances sets env _))))

  verify-Advances :
      (t : ℕ) (m : MetaTransaction) → Advances sets env (verify_signature sets env msg t m)
  unfolding verify_signature get_signer_nonce
  verify-Advances t m = after_reading sets env _ _ λ self. after_check sets env _ _ _ (
      after_check sets env _ _ _ (
        after_check sets env _ _ _ (
          after_check sets env _ _ _ (
            after_check sets env _ _ _ (
              after_check sets env _ _ _ (
                after_check sets env _ _ _ (
                  >>=-Advances sets env _ _
                    (after_reading sets env _ _
                      λ s. after_check sets env _ _ _ (pure-Advances sets env _))
                    λ nonce. after_check sets env _ _ _ (
                      after_check sets env _ _ _ (
                        >>=-Advances sets env _ _ (recover-Advances _ _) λ signer.
                          after_check sets env _ _ _
                            (after_check sets env _ _ _ (pure-Advances sets env tt)))))))))))

  pub nonce_lem :
      (a : ℕ) (c d : Chain sets.Set W) (u : Unit {0})
      → increment_signer_nonce sets env k msg a c ≡ returned (u, d)
      → d ≡ record c {
        self = record c.self {
          signer_nonces = update c.self.signer_nonces a (c.self.signer_nonces a + 1);
        };
      }
  unfolding ◌>>=◌ gets modify require pure revert increment_signer_nonce
  nonce_lem a c d u e = ground arith

  pub nonce-Advances : (a : ℕ) → Advances sets env (increment_signer_nonce sets env k msg a)
  nonce-Advances a = record {
    at = λ c d u e h.
        subst (λ x. Advance sets.contains c.self x.self) (sym (nonce_lem a c d u e))
          (counted-Advance sets law a c.self h);
  }

  abbrev pub new_record : TxParams → SecureOperationState sets.Set → TxRecord
  new_record p s = record {
    tx_id = s.tx_counter + 1;
    release_time = msg.timestamp + s.time_lock_period_sec;
    status = pending;
    params = p;
    message = 0;
    result = "";
    payment = no_payment;
  }

  -- A request that returns has listed a new record, under the next identifier and to be released
  -- after the time lock, and then logged it.
  pub request_lem :
      (p : TxParams) (c d : Chain sets.Set W) (r : TxRecord)
      → tx_request sets env k msg p c ≡ returned (r, d)
      → (r ≡ new_record p c.self)
        × (c.self.tx_counter + 1 < word_size)
        × (log_tx_event sets env k msg (c.self.tx_counter + 1) k.tx_request (record c {
          self = requested sets law (c.self.tx_counter + 1) (new_record p c.self) c.self;
        })
            ≡ returned (tt, d))
  unfolding ◌>>=◌ gets modify require pure revert tx_request create_new_tx_record
      add_to_pending_transactions_list
  request_lem p c d r e = ground arith

  pub request-Advances : (p : TxParams) → Advances sets env (tx_request sets env k msg p)
  request-Advances p = record {
    at = λ c d r e h.
        let (same, bounded, logged) = request_lem p c d r e in
        let listed = requested-Advance sets law (new_record p c.self) c.self refl refl bounded h in
        let c₁ : Chain sets.Set W = record c {
          self = requested sets law (c.self.tx_counter + 1) (new_record p c.self) c.self;
        } in
        Advance-trans sets.contains listed (
          (log-Advances sets env k msg law closed (c.self.tx_counter + 1) k.tx_request).at c₁ d tt
            logged listed.sound);
  }

  pub approval-Advances : (id : ℕ) → Advances sets env (tx_delayed_approval sets env k msg id)
  unfolding tx_delayed_approval
  approval-Advances id = after_reading sets env _ _ λ c. after_check sets env _ _ _ (
      >>=-Advances sets env _ _ (pending-Advances id) λ _. after_reading sets env _ _ λ r.
        after_check sets env _ _ _ (
          >>=-Advances sets env _ _ (execute_and_settle-Advances sets env k msg law closed id) λ _.
            >>=-Advances sets env _ _ (log-Advances sets env k msg law closed id _)
              λ _. gets-Advances sets env _))

  pub cancelled-Advances : (id : ℕ) → Advances sets env (cancel_and_settle sets env k msg id)
  cancelled-Advances id =
      settle-Advances sets env k msg law closed id (λ r. record r { status = cancelled })
        (λ r. refl) (λ r e. cc) (λ r. (refl, refl, refl))

  pub cancellation-Advances : (id : ℕ) → Advances sets env (tx_cancellation sets env k msg id)
  unfolding tx_cancellation
  cancellation-Advances id = after_reading sets env _ _ λ c. after_check sets env _ _ _ (
      >>=-Advances sets env _ _ (pending-Advances id) λ _.
        >>=-Advances sets env _ _ (cancelled-Advances id) λ _.
          >>=-Advances sets env _ _ (log-Advances sets env k msg law closed id _)
            λ _. gets-Advances sets env _)

  pub meta_cancellation-Advances :
      (m : MetaTransaction) → Advances sets env (tx_cancellation_with_meta_tx sets env k msg m)
  unfolding tx_cancellation_with_meta_tx
  meta_cancellation-Advances m = after_reading sets env _ _ λ c. after_check sets env _ _ _ (
      >>=-Advances sets env _ _ (pending-Advances _) λ _.
        >>=-Advances sets env _ _ (verify-Advances _ m) λ _.
          >>=-Advances sets env _ _ (nonce-Advances _) λ _.
            >>=-Advances sets env _ _ (cancelled-Advances _) λ _.
              >>=-Advances sets env _ _ (log-Advances sets env k msg law closed _ _)
                λ _. gets-Advances sets env _)

  pub meta_approval-Advances :
      (m : MetaTransaction) → Advances sets env (tx_approval_with_meta_tx sets env k msg m)
  unfolding tx_approval_with_meta_tx
  meta_approval-Advances m = after_reading sets env _ _ λ c. after_check sets env _ _ _ (
      >>=-Advances sets env _ _ (pending-Advances _) λ _.
        >>=-Advances sets env _ _ (verify-Advances _ m) λ _.
          >>=-Advances sets env _ _ (nonce-Advances _) λ _.
            >>=-Advances sets env _ _ (execute_and_settle-Advances sets env k msg law closed _) λ _.
              >>=-Advances sets env _ _ (log-Advances sets env k msg law closed _ _)
                λ _. gets-Advances sets env _)

  pub request_and_approve-Advances :
      (m : MetaTransaction) → Advances sets env (request_and_approve sets env k msg m)
  unfolding request_and_approve
  request_and_approve-Advances m = after_reading sets env _ _ λ c.
      after_check sets env _ _ _
        (>>=-Advances sets env _ _ (request-Advances _) λ r. meta_approval-Advances _)

  paid_lem :
      (id : ℕ) (payment : PaymentDetails) (c d : Chain sets.Set W) (a : Unit {0})
      → set_tx_record sets env k msg id (λ r. record r { payment = payment }) c ≡ returned (a, d)
      → d ≡ record c {
        self = record c.self {
          tx_records =
              update c.self.tx_records id (record (c.self.tx_records id) { payment = payment });
        };
      }
  unfolding modify
  paid_lem id payment c d a e = ground arith

  pub payment_update-Advances :
      (id : ℕ) (payment : PaymentDetails)
      → Advances sets env (update_payment_for_transaction sets env k msg id payment)
  unfolding update_payment_for_transaction
  payment_update-Advances id payment = after_reading sets env _ _ λ c. after_check sets env _ _ _ (
      >>=-Advances sets env _ _ (pending-Advances id) λ _.
        >>=-Advances sets env _ _
          (record {
            at = λ c d a e h.
                subst (λ x. Advance sets.contains c.self x.self) (sym (paid_lem id payment c d a e))
                  (paid-Advance sets law id payment c.self h);
          })
          λ _. log-Advances sets env k msg law closed id _)

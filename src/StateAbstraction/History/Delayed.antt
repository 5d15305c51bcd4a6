-- ===== src/StateAbstraction/History/Delayed.antt =====
-- The time lock.
use guardian_safe.Prelude.{ℕ, ◌+◌, ◌≤◌, ◌≡◌, refl, ◌∙◌, sym, subst, ap, List, arith, true}
use guardian_safe.StateAbstraction.Enums.{
  undefined, pending, status_code, execute_time_delay_approve,
}
use guardian_safe.StateAbstraction.Revert.{returned, pure, revert, gets, require, ◌>>=◌}
use guardian_safe.StateAbstraction.Sets.{EnumerableSet, IsLawful}
use guardian_safe.StateAbstraction.Types.{TxParams, TxRecord, Chain, Context}
use guardian_safe.StateAbstraction.Environment.{Environment}
use guardian_safe.StateAbstraction.Roles.{has_action_permission}
use guardian_safe.StateAbstraction.LifeCycle.{IsSound, Advance-trans}
use guardian_safe.StateAbstraction.LifeCycle.Changes.{requested, requested-Advance}
use guardian_safe.StateAbstraction.Advances.{IsClosed}
use guardian_safe.StateAbstraction.Transactions.{Selectors, tx_request, tx_delayed_approval}
use guardian_safe.StateAbstraction.Transactions.Advancing.{log-Advances}
use guardian_safe.StateAbstraction.Transactions.Operating.{request_lem, new_record}
use guardian_safe.StateAbstraction.History.{Operation, run}
use guardian_safe.StateAbstraction.History.Refined.{run-Advance}

pending_defined : ¬ (pending ≡ undefined)
pending_defined e = cc

module _ (sets : EnumerableSet) {W : Type 0} (env : Environment sets.Set W) (k : Selectors) where
  -- What an approval that returns has checked.
  pub approval_lem :
      (msg : Context) (id : ℕ) (c d : Chain sets.Set W) (r : TxRecord)
      → tx_delayed_approval sets env k msg id c ≡ returned (r, d)
      → (has_action_permission sets c.self msg.sender k.tx_delayed_approval
            execute_time_delay_approve
          ≡ true)
        × (status_code (c.self.tx_records id).status ≡ 1)
        × ((c.self.tx_records id).release_time ≤ msg.timestamp)
  unfolding tx_delayed_approval ◌>>=◌ gets require pure revert
  approval_lem msg id c d r e = ground arith

  module _ (law : IsLawful sets) (closed : IsClosed sets env) where
    -- What a history after a request leaves of the record.
    requested-kept :
        (msg : Context) (p : TxParams) (c d : Chain sets.Set W) (r : TxRecord)
        (ops : List (Context × Operation))
        → IsSound sets.contains c.self
        → tx_request sets env k msg p c ≡ returned (r, d)
        → (r.tx_id ≡ c.self.tx_counter + 1)
          × (((run sets env k ops d).self.tx_records (c.self.tx_counter + 1)).params ≡ p)
          × (((run sets env k ops d).self.tx_records (c.self.tx_counter + 1)).release_time
              ≡ msg.timestamp + c.self.time_lock_period_sec)
    requested-kept msg p c d r ops h q =
        let n = c.self.tx_counter + 1 in
        let (same, bounded, logged) = request_lem sets env k msg law closed p c d r q in
        let r₀ = new_record sets env k msg law closed p c.self in
        let c₁ : Chain sets.Set W = record c { self = requested sets law n r₀ c.self } in
        let listed = requested-Advance sets law r₀ c.self refl refl bounded h in
        let logs =
          (log-Advances sets env k msg law closed n k.tx_request).at c₁ d tt logged listed.sound in
        let all =
          Advance-trans sets.contains logs (run-Advance sets env k law closed ops d logs.sound) in
        let new : c₁.self.tx_records n ≡ r₀ = ground arith in
        let kept =
          all.kept n (λ z. pending_defined (sym (ap (λ (x : TxRecord). x.status) new) ∙ z)) in
        (
          ap (λ (x : TxRecord). x.tx_id) same,
          kept.0 ∙ ap (λ (x : TxRecord). x.params) new,
          kept.1 ∙ ap (λ (x : TxRecord). x.release_time) new,
        )

    -- When `txDelayedApproval` of a transaction that was requested from a sound state returns, after
    -- whatever history, then the time lock that the request set is over, the sender has the
    -- permission to approve after a delay, and the transaction has the parameters that were
    -- requested. An approval by a meta-transaction has no such wait and is not spoken of.
    pub delayed_approval_waits :
        (msg₁ msg₂ : Context) (p : TxParams) (c d e : Chain sets.Set W) (r₁ r₂ : TxRecord)
        (ops : List (Context × Operation))
        → IsSound sets.contains c.self
        → tx_request sets env k msg₁ p c ≡ returned (r₁, d)
        → tx_delayed_approval sets env k msg₂ r₁.tx_id (run sets env k ops d) ≡ returned (r₂, e)
        → (msg₁.timestamp + c.self.time_lock_period_sec ≤ msg₂.timestamp)
          × (has_action_permission sets
                (run sets env k ops d).self
                msg₂.sender
                k.tx_delayed_approval
                execute_time_delay_approve
              ≡ true)
          × (((run sets env k ops d).self.tx_records r₁.tx_id).params ≡ p)
    delayed_approval_waits msg₁ msg₂ p c d e r₁ r₂ ops h q a =
        let (named, params, time) = requested-kept msg₁ p c d r₁ ops h q in
        let f = run sets env k ops d in
        let (permitted, listed, released) = approval_lem msg₂ r₁.tx_id f e r₂ a in
        (
          subst (λ t. t ≤ msg₂.timestamp)
              (ap (λ i. (f.self.tx_records i).release_time) named ∙ time) released,
          permitted,
          ap (λ i. (f.self.tx_records i).params) named ∙ params,
        )

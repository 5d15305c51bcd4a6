-- ===== src/StateAbstraction/History/Refined.antt =====
-- Histories follow the life cycle.
use guardian_safe.Prelude.{ℕ, ◌≡◌, refl, subst, true, List, [], ◌∷◌}
use guardian_safe.StateAbstraction.Revert.{Outcome, returned, reverted}
use guardian_safe.StateAbstraction.Sets.{EnumerableSet, IsLawful}
use guardian_safe.StateAbstraction.Types.{Chain, Context}
use guardian_safe.StateAbstraction.Environment.{Environment}
use guardian_safe.StateAbstraction.LifeCycle.{
  is_settled, settled_stays, IsSound, Advance, Advance-refl, Advance-trans,
}
use guardian_safe.StateAbstraction.Advances.{IsClosed}
use guardian_safe.StateAbstraction.Transactions.{Selectors}
use guardian_safe.StateAbstraction.Transactions.Operating.{
  request-Advances, approval-Advances, cancellation-Advances, meta_cancellation-Advances,
  meta_approval-Advances, request_and_approve-Advances, payment_update-Advances,
}
use guardian_safe.StateAbstraction.History.{
  Operation, request_tx, approve_delayed, cancel_delayed, approve_meta, cancel_meta,
  request_approve_meta, update_payment, discard, perform, or_stay, run,
}

module _ (sets : EnumerableSet) {W : Type 0} (env : Environment sets.Set W) (k : Selectors)
    (law : IsLawful sets) (closed : IsClosed sets env) where
  after :
      {A : Type 0} (c : Chain sets.Set W) (o : Outcome (A × Chain sets.Set W))
      → ((d : Chain sets.Set W) (a : A) → o ≡ returned (a, d) → Advance sets.contains c.self d.self)
      → IsSound sets.contains c.self
      → Advance sets.contains c.self (or_stay sets env k c (discard sets env k o)).self
  after c (returned (a, d)) p h = p d a refl
  after c (reverted e) p h = Advance-refl sets.contains c.self h

  pub perform-Advance :
      (msg : Context) (op : Operation) (c : Chain sets.Set W)
      → IsSound sets.contains c.self
      → Advance sets.contains c.self (or_stay sets env k c (perform sets env k msg op c)).self
  unfolding perform
  perform-Advance msg (request_tx p) c h =
      after c _ (λ d a e. (request-Advances sets env k msg law closed p).at c d a e h) h
  perform-Advance msg (approve_delayed id) c h =
      after c _ (λ d a e. (approval-Advances sets env k msg law closed id).at c d a e h) h
  perform-Advance msg (cancel_delayed id) c h =
      after c _ (λ d a e. (cancellation-Advances sets env k msg law closed id).at c d a e h) h
  perform-Advance msg (approve_meta m) c h =
      after c _ (λ d a e. (meta_approval-Advances sets env k msg law closed m).at c d a e h) h
  perform-Advance msg (cancel_meta m) c h =
      after c _ (λ d a e. (meta_cancellation-Advances sets env k msg law closed m).at c d a e h) h
  perform-Advance msg (request_approve_meta m) c h =
      after c _ (λ d a e. (request_and_approve-Advances sets env k msg law closed m).at c d a e h) h
  perform-Advance msg (update_payment id p) c h =
      after c _ (λ d a e. (payment_update-Advances sets env k msg law closed id p).at c d a e h) h

  pub perform-returned :
      (msg : Context) (op : Operation) (c d : Chain sets.Set W)
      → IsSound sets.contains c.self
      → perform sets env k msg op c ≡ returned d
      → IsSound sets.contains d.self
  perform-returned msg op c d h e =
      let sound = (perform-Advance msg op c h).sound in
      subst (λ o. IsSound sets.contains (or_stay sets env k c o).self) e sound

  -- Every history of calls from a sound state, whoever makes them and whatever the contracts that
  -- are called do, if they change the storage through the library's operations only, refines the
  -- life cycle: each transaction moves from undefined to pending, and from there to cancelled,
  -- completed or failed, keeps its parameters and its release time once requested, the counter and
  -- the nonces never go back, and the state stays sound.
  pub run-Advance :
      (ops : List (Context × Operation)) (c : Chain sets.Set W)
      → IsSound sets.contains c.self
      → Advance sets.contains c.self (run sets env k ops c).self
  unfolding run
  run-Advance [] c h = Advance-refl sets.contains c.self h
  run-Advance ((msg, op) ∷ ops) c h =
      let one = perform-Advance msg op c h in
      Advance-trans sets.contains one
        (run-Advance ops (or_stay sets env k c (perform sets env k msg op c)) one.sound)

  -- A transaction that was cancelled or executed keeps its status in every later history.
  pub run-settled :
      (ops : List (Context × Operation)) (c : Chain sets.Set W) (id : ℕ)
      → IsSound sets.contains c.self
      → is_settled (c.self.tx_records id).status ≡ true
      → ((run sets env k ops c).self.tx_records id).status ≡ (c.self.tx_records id).status
  run-settled ops c id h e = settled_stays ((run-Advance ops c h).moves id) e

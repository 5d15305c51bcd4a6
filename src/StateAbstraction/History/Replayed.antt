-- ===== src/StateAbstraction/History/Replayed.antt =====
-- Signed meta-transactions are used once.
use guardian_safe.Prelude.{ℕ, Bool, ◌+◌, ◌≤◌, ◌≡◌, ◌∙◌, sym, subst, ap, List, arith, true}
use guardian_safe.StateAbstraction.Enums.{execute_meta_approve, execute_meta_cancel}
use guardian_safe.StateAbstraction.Revert.{
  Outcome, returned, reverted, Call, pure, revert, gets, require, ◌>>=◌, ◌>>◌, >>=-returned,
  require-returned, gets-returned, no_permission,
}
use guardian_safe.StateAbstraction.Sets.{EnumerableSet, IsLawful}
use guardian_safe.StateAbstraction.Types.{TxRecord, MetaTransaction, Chain, Context, update}
use guardian_safe.StateAbstraction.Environment.{Environment}
use guardian_safe.StateAbstraction.Roles.{has_action_permission}
use guardian_safe.StateAbstraction.LifeCycle.{IsSound}
use guardian_safe.StateAbstraction.Advances.{IsClosed, Advances, >>=-Advances, gets-Advances}
use guardian_safe.StateAbstraction.Transactions.Advancing.{
  log-Advances, execute_and_settle-Advances,
}
use guardian_safe.StateAbstraction.Transactions.Operating.{
  nonce_lem, nonce-Advances, cancelled-Advances,
}
use guardian_safe.StateAbstraction.MetaTx.{
  recover_signer, get_signer_nonce, verify_signature, generate_message_hash,
}
use guardian_safe.StateAbstraction.Transactions.{
  Selectors, permits, tx_approval_with_meta_tx, tx_cancellation_with_meta_tx, require_pending,
  increment_signer_nonce,
}
use guardian_safe.StateAbstraction.History.{
  Operation, approve_meta, cancel_meta, discard, perform, run,
}
use guardian_safe.StateAbstraction.History.Refined.{run-Advance, perform-returned}

module _ (sets : EnumerableSet) {W : Type 0} (env : Environment sets.Set W) (msg : Context) where
  -- What a verification that succeeds has checked. It changes nothing.
  pub verify_lem :
      (t : ℕ) (m : MetaTransaction) (c d : Chain sets.Set W) (u : Unit {0})
      → verify_signature sets env msg t m c ≡ returned (u, d)
      → (d ≡ c)
        × (m.params.nonce ≡ c.self.signer_nonces m.params.signer)
        × (msg.timestamp ≤ m.params.deadline)
        × (has_action_permission sets c.self m.params.signer m.params.handler_selector
              m.params.action
            ≡ true)
        × (env.ecrecover
              (generate_message_hash sets env msg t m)
              m.signature.v
              m.signature.r
              m.signature.s
            ≡ m.params.signer)
  unfolding verify_signature recover_signer get_signer_nonce ◌>>=◌ gets require pure revert
  verify_lem t m c d u e = ground arith

module _ (sets : EnumerableSet) {W : Type 0} (env : Environment sets.Set W) (k : Selectors)
    (law : IsLawful sets) (closed : IsClosed sets env) where
  -- The checks and the count that both operations begin with, before what is their own.
  abbrev verified :
      (Chain sets.Set W → Bool)
      → Context
      → MetaTransaction
      → Call (Chain sets.Set W) TxRecord
      → Call (Chain sets.Set W) TxRecord
  verified permitted msg m rest = do
    c ← gets (λ c. c)
    require (permitted c) (no_permission msg.sender)
    require_pending sets env k msg m.tx_record.tx_id
    verify_signature sets env msg k.type_hash m
    increment_signer_nonce sets env k msg m.params.signer
    rest

  pending_lem :
      (msg : Context) (id : ℕ) (c d : Chain sets.Set W) (u : Unit {0})
      → require_pending sets env k msg id c ≡ returned (u, d)
      → d ≡ c
  unfolding ◌>>=◌ gets require pure revert
  pending_lem msg id c d u e = ground arith

  permitted_lem :
      (permitted : Chain sets.Set W → Bool) (msg : Context) (m : MetaTransaction)
      (rest : Call (Chain sets.Set W) TxRecord) (c d : Chain sets.Set W) (r : TxRecord)
      → verified permitted msg m rest c ≡ returned (r, d)
      → (require_pending sets env k msg m.tx_record.tx_id >>= λ _.
            verify_signature sets env msg k.type_hash m >>= λ _.
            increment_signer_nonce sets env k msg m.params.signer >>= λ _. rest)
          c
        ≡ returned (r, d)
  permitted_lem permitted msg m rest c d r e =
      (require-returned (permitted c) (no_permission msg.sender) _ c
        (gets-returned (λ c₀. c₀) _ c e)).1

  update_here : (f : ℕ → ℕ) (a v : ℕ) → update f a v a ≡ v
  update_here f a v = ground arith

  verified_lem :
      (permitted : Chain sets.Set W → Bool) (msg : Context) (m : MetaTransaction)
      (rest : Call (Chain sets.Set W) TxRecord) (c d : Chain sets.Set W) (r : TxRecord)
      → Advances sets env rest
      → IsSound sets.contains c.self
      → verified permitted msg m rest c ≡ returned (r, d)
      → (m.params.nonce ≡ c.self.signer_nonces m.params.signer)
        × (m.params.nonce + 1 ≤ d.self.signer_nonces m.params.signer)
  verified_lem permitted msg m rest c d r p h e =
      let (u₁, c₁, is_pending, e₁) =
        >>=-returned (require_pending sets env k msg m.tx_record.tx_id) _ c
          (permitted_lem permitted msg m rest c d r e) in
      let (u₂, c₂, is_verified, e₂) =
        >>=-returned (verify_signature sets env msg k.type_hash m) _ c₁ e₁ in
      let (u₃, c₃, counted, e₃) =
        >>=-returned (increment_signer_nonce sets env k msg m.params.signer) _ c₂ e₂ in
      let checked = verify_lem sets env msg k.type_hash m c₁ c₂ u₂ is_verified in
      let nothing = pending_lem msg m.tx_record.tx_id c c₁ u₁ is_pending in
      let same : c₂ ≡ c = checked.0 ∙ nothing in
      let nonce : m.params.nonce ≡ c.self.signer_nonces m.params.signer =
        checked.1 ∙ ap (λ (x : Chain sets.Set W). x.self.signer_nonces m.params.signer) nothing in
      let a = m.params.signer in
      let count : c₃.self.signer_nonces a ≡ c₂.self.signer_nonces a + 1 =
        ap (λ (x : Chain sets.Set W). x.self.signer_nonces a)
          (nonce_lem sets env k msg law closed a c₂ c₃ u₃ counted)
        ∙ update_here c₂.self.signer_nonces a _ in
      let sound₂ = subst (λ (x : Chain sets.Set W). IsSound sets.contains x.self) (sym same) h in
      let sound₃ =
        ((nonce-Advances sets env k msg law closed a).at c₂ c₃ u₃ counted sound₂).sound in
      let later = (p.at c₃ d r e₃ sound₃).nonces a in
      let back : c₂.self.signer_nonces a ≡ c.self.signer_nonces a =
        ap (λ (x : Chain sets.Set W). x.self.signer_nonces a) same in
      (nonce, omega (arith, later, count, nonce, back))

  -- The operations of which a signed meta-transaction is one.
  pub data Uses (m : MetaTransaction) : Operation → Type 0 where
    approves : Uses m (approve_meta m)
    cancels : Uses m (cancel_meta m)

  approval-nonce :
      (msg : Context) (m : MetaTransaction) (c d : Chain sets.Set W) (r : TxRecord)
      → IsSound sets.contains c.self
      → tx_approval_with_meta_tx sets env k msg m c ≡ returned (r, d)
      → (m.params.nonce ≡ c.self.signer_nonces m.params.signer)
        × (m.params.nonce + 1 ≤ d.self.signer_nonces m.params.signer)
  unfolding tx_approval_with_meta_tx
  approval-nonce msg m c d r h e =
      verified_lem (permits sets env k msg k.meta_tx_approval execute_meta_approve) msg m _ c d r
        (>>=-Advances sets env _ _ (execute_and_settle-Advances sets env k msg law closed _) λ _.
          >>=-Advances sets env _ _ (log-Advances sets env k msg law closed _ _)
            λ _. gets-Advances sets env _)
        h e

  cancellation-nonce :
      (msg : Context) (m : MetaTransaction) (c d : Chain sets.Set W) (r : TxRecord)
      → IsSound sets.contains c.self
      → tx_cancellation_with_meta_tx sets env k msg m c ≡ returned (r, d)
      → (m.params.nonce ≡ c.self.signer_nonces m.params.signer)
        × (m.params.nonce + 1 ≤ d.self.signer_nonces m.params.signer)
  unfolding tx_cancellation_with_meta_tx
  cancellation-nonce msg m c d r h e =
      verified_lem (permits sets env k msg k.meta_tx_cancellation execute_meta_cancel) msg m _ c d r
        (>>=-Advances sets env _ _ (cancelled-Advances sets env k msg law closed _) λ _.
          >>=-Advances sets env _ _ (log-Advances sets env k msg law closed _ _)
            λ _. gets-Advances sets env _)
        h e

  discard-returned :
      {A : Type 0} (o : Outcome (A × Chain sets.Set W)) (d : Chain sets.Set W)
      → discard sets env k o ≡ returned d
      → (a : A) × (o ≡ returned (a, d))
  discard-returned (returned (a, c)) d e =
      let same : c ≡ d = cc in (a, ap (λ x. returned (a, x)) same)
  discard-returned (reverted e) d h = cc

  nonce_of_use :
      (msg : Context) (m : MetaTransaction) (op : Operation) (c d : Chain sets.Set W)
      → Uses m op
      → IsSound sets.contains c.self
      → perform sets env k msg op c ≡ returned d
      → (m.params.nonce ≡ c.self.signer_nonces m.params.signer)
        × (m.params.nonce + 1 ≤ d.self.signer_nonces m.params.signer)
  unfolding perform
  nonce_of_use msg m op c d approves h e =
      let (r, q) = discard-returned (tx_approval_with_meta_tx sets env k msg m c) d e in
      approval-nonce msg m c d r h q
  nonce_of_use msg m op c d cancels h e =
      let (r, q) = discard-returned (tx_cancellation_with_meta_tx sets env k msg m c) d e in
      cancellation-nonce msg m c d r h q

  -- After a signed meta-transaction was executed, as an approval or as a cancellation, from a sound
  -- state, no later history lets it be executed again, by whatever sender and as whichever of the
  -- two.
  pub meta_tx_once :
      (msg₁ msg₂ : Context) (m : MetaTransaction) (op₁ op₂ : Operation) (c d e : Chain sets.Set W)
      (ops : List (Context × Operation))
      → IsSound sets.contains c.self
      → Uses m op₁
      → Uses m op₂
      → perform sets env k msg₁ op₁ c ≡ returned d
      → ¬ (perform sets env k msg₂ op₂ (run sets env k ops d) ≡ returned e)
  meta_tx_once msg₁ msg₂ m op₁ op₂ c d e ops h u₁ u₂ p q =
      let sound = perform-returned sets env k law closed msg₁ op₁ c d h p in
      let all = run-Advance sets env k law closed ops d sound in
      let first = nonce_of_use msg₁ m op₁ c d u₁ h p in
      let second = nonce_of_use msg₂ m op₂ (run sets env k ops d) e u₂ all.sound q in
      absurd (omega (arith, first.1, second.0, all.nonces m.params.signer))

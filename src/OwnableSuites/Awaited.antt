-- ===== src/OwnableSuites/Awaited.antt =====
-- What the delayed steps do before they send: the validation, the request and the wait.
use guardian_safe.Prelude.{
  ℕ, ◌+◌, ◌-◌, ◌≤◌, ◌<◌, ◌≡◌, ◌⊎◌, inl, inr, refl, ◌∙◌, subst, String, Bool, none, [], ◌∷◌, arith,
  ltb, Bool-cases, Option-cases,
}
use guardian_safe.Script.{ok, Script, pure, Result-cases, >>=-eq-ok, ◌>>=◌, ◌>>◌}
use guardian_safe.SecureOwnable.Session.{
  Transaction, Node, Session, call_contract_method, caller, on_node,
}
use guardian_safe.SecureOwnable.Pending.{PendingCheck, check_pending_transactions}
use guardian_safe.SecureOwnable.Permissions.{Permission, validate_workflow_permissions}
use guardian_safe.SecureOwnable.Timelock.{advance_blockchain_time}
use guardian_safe.OwnableSuites.{SuiteNode}
use guardian_safe.OwnableSuites.Requests.{ownership_tx_record}
use guardian_safe.OwnableSuites.MetaTx.{wait_for_release}
use guardian_safe.OwnableSuites.Counted.Base.{Keeps}
use guardian_safe.OwnableSuites.Counted.Ground.{check-Keeps, validate-Keeps}
use guardian_safe.OwnableSuites.Counted.Requesting.{ownership_record-Keeps, wait-Keeps}

module _ {N : Type 0} (node : Node N) where
  -- The transaction and the time of the latest block were read; if the release and the buffer are
  -- not over, the time of the chain was advanced by what is left of them.
  pub record Waited (buffer id : ℕ) (s s' : Session N) : Type 0 where
    pub from : String
    pub transaction : Transaction
    pub read : N
    pub asked : node.get_transaction id from s.node ≡ (ok transaction, read)
    pub time : ℕ
    pub timed : N
    pub clock : node.block_timestamp read ≡ (ok time, timed)
    pub waits :
        ((transaction.release_time + buffer ≤ time) × (s' ≡ record s { node = timed }))
        ⊎ ((time < transaction.release_time + buffer)
            × (advanced : Bool) × (advance_blockchain_time node
                  (transaction.release_time + buffer - time)
                  (record s { node = timed })
                ≡ (ok advanced, s')))

module _ {N : Type 0} (node : Node N) (suite : SuiteNode N) where
  -- The permission was validated, the pending transactions were checked, the request was found or
  -- made, and its release was waited for, one after the other.
  pub record Awaited (q : Permission) (id : ℕ) (s s' : Session N) : Type 0 where
    pub validated : Session N
    pub validates :
        validate_workflow_permissions node suite.web3.keccak256 (q ∷ []) s ≡ (ok tt, validated)
    pub check : PendingCheck
    pub checked : Session N
    pub checks : check_pending_transactions node validated ≡ (ok check, checked)
    pub requested : Session N
    pub requests : ownership_tx_record node suite check checked ≡ (ok id, requested)
    pub waited : Waited node 10 id requested s'

  stepped :
      {A B : Type 0} (m : Script (Session N) A) (f : A → Script (Session N) B) (s : Session N)
      {b : B} {t : Session N}
      → (m >>= f) s ≡ (ok b, t)
      → (a : A) × (u : Session N) × (m s ≡ (ok a, u)) × (f a u ≡ (ok b, t))
  stepped m f s h = let (a, e, rest) = >>=-eq-ok m f s h in (a, (m s).1, ground arith, rest)

  call_node :
      {A : Type 0} (method : String → Script N A) (s t : Session N) (a : A)
      → call_contract_method method none s ≡ (ok a, t)
      → (from : String) × (n : N) × (method from s.node ≡ (ok a, n)) × (t ≡ record s { node = n })
  unfolding call_contract_method
  call_node method s t a h = elim (Option-cases (caller none s)) [
    | inl missing ↦ absurd (ground arith)
    | inr (w, e) ↦
        let run = method w.address s.node in
        elim (Result-cases run.0) [
          | inl (b, r) ↦ (w.address, run.1, ground arith, ground arith)
          | inr (message, r) ↦ absurd (ground arith)
        ]
  ]

  wait_for_release-Waited :
      (buffer id : ℕ) (s t : Session N)
      → wait_for_release node suite buffer id s ≡ (ok tt, t)
      → Waited node buffer id s t
  unfolding wait_for_release
  wait_for_release-Waited buffer id s t h =
      let (r, s₁, h₁, r₁) = stepped (call_contract_method (node.get_transaction id) none) _ s h in
      let (from, read, asked, same) = call_node (node.get_transaction id) s s₁ r h₁ in
      let (time, s₂, h₂, r₂) = stepped (on_node node.block_timestamp) _ s₁ r₁ in
      let timed = (node.block_timestamp read).1 in
      let there : s₂ ≡ record s { node = timed } = ground arith in
      record {
        from = from;
        transaction = r;
        read = read;
        asked = asked;
        time = time;
        timed = timed;
        clock = ground arith;
        waits = elim (Bool-cases (ltb time (r.release_time + buffer))) [
          | inl early ↦
              let advance = advance_blockchain_time node (r.release_time + buffer - time) in
              let run : (advance >> pure tt) s₂ ≡ (ok tt, t) = ground arith in
              let (b, s₃, h₃, r₃) = stepped advance _ s₂ run in inr (ground arith, b, ground arith)
          | inr late ↦ inl (ground arith, ground arith)
        ];
      }

  kept_lem :
      {A : Type 0} (m : Script (Session N) A) (s t : Session N) (a : A)
      → Keeps (λ w. w ≡ s.role_wallets) m
      → m s ≡ (ok a, t)
      → t.role_wallets ≡ s.role_wallets
  kept_lem m s t a p h = subst (λ x. x.1.role_wallets ≡ s.role_wallets) h (p.kept s refl)

  pub awaited_lem :
      (q : Permission) (f : ℕ → Script (Session N) (Unit {0})) (s t : Session N)
      → (validate_workflow_permissions node suite.web3.keccak256 (q ∷ [])
            >> (check_pending_transactions node >>= λ check.
                ownership_tx_record node suite check >>= λ id.
                wait_for_release node suite 10 id >> f id))
          s
        ≡ (ok tt, t)
      → (id : ℕ) × (u : Session N) × (Awaited q id s u)
        × (u.role_wallets ≡ s.role_wallets)
        × (f id u ≡ (ok tt, t))
  awaited_lem q f s t h =
      let valid = validate_workflow_permissions node suite.web3.keccak256 (q ∷ []) in
      let (_, s₁, h₁, r₁) = stepped valid _ s h in
      let (check, s₂, h₂, r₂) = stepped (check_pending_transactions node) _ s₁ r₁ in
      let (id, s₃, h₃, r₃) = stepped (ownership_tx_record node suite check) _ s₂ r₂ in
      let (_, s₄, h₄, r₄) = stepped (wait_for_release node suite 10 id) _ s₃ r₃ in
      let k₁ = kept_lem valid s s₁ tt (validate-Keeps node suite.web3.keccak256 (q ∷ [])) h₁ in
      let k₂ = kept_lem (check_pending_transactions node) s₁ s₂ check (check-Keeps node) h₂ in
      let k₃ =
        kept_lem (ownership_tx_record node suite check) s₂ s₃ id
          (ownership_record-Keeps node suite check) h₃ in
      let k₄ =
        kept_lem (wait_for_release node suite 10 id) s₃ s₄ tt (wait-Keeps node suite 10 id) h₄ in
      (
        id,
        s₄,
        record {
          validated = s₁;
          validates = h₁;
          check = check;
          checked = s₂;
          checks = h₂;
          requested = s₃;
          requests = h₃;
          waited = wait_for_release-Waited 10 id s₃ s₄ h₄;
        },
        k₄ ∙ k₃ ∙ k₂ ∙ k₁,
        r₄,
      )

-- ===== src/OwnableSuites/Confirmed.antt =====
-- What a step that passes has done.
pub mod Updates
use guardian_safe.Prelude.{
  ℕ, String, ◌≡◌, sym, ap, ◌∙◌, Bool, true, inl, inr, Option, none, some, [], ◌∷◌, arith, ◌==◌,
  ==_iff, Option-cases, Bool-cases,
}
use guardian_safe.Text.{same_address, lower_code}
use guardian_safe.Script.{ok, Script, >>=-eq-ok, ◌>>=◌, ◌>>◌}
use guardian_safe.Accounts.{Wallet}
use guardian_safe.SecureOwnable.Session.{
  RoleWallets, Transaction, Method, transfer_ownership_cancellation,
  transfer_ownership_delayed_approval, Node, Session, caller, call_contract_method,
  send_transaction,
}
use guardian_safe.SecureOwnable.Roles.{get_role_wallet_object}
use guardian_safe.SecureOwnable.Pending.{check_pending_transactions}
use guardian_safe.SecureOwnable.Pending.Cleared.{Sent, send-Sent}
use guardian_safe.SecureOwnable.Permissions.{validate_workflow_permissions}
use guardian_safe.SecureOwnable.Run.{assert_test}
use guardian_safe.OwnableSuites.{SuiteNode}
use guardian_safe.OwnableSuites.Awaited.{Awaited, awaited_lem}
use guardian_safe.OwnableSuites.Requests.{ownership_tx_record}
use guardian_safe.OwnableSuites.MetaTx.{wait_for_release}
use guardian_safe.OwnableSuites.Ownership.{
  permission, assert_status, test_step4_time_delay_cancel, test_step10_time_delay_approve,
  test_verify_ownership_change,
}

module _ {N : Type 0} where
  pub assert_lem :
      (b : Bool) (message : String) (s t : Session N)
      → assert_test b message s ≡ (ok tt, t)
      → (b ≡ true) × (t.node ≡ s.node) × (t.roles ≡ s.roles) × (t.role_wallets ≡ s.role_wallets)
  unfolding assert_test
  assert_lem b message s t h = ground arith

  pub call_lem :
      {A : Type 0} (method : String → Script N A) (wallet : Option Wallet) (s : Session N) (a : A)
      → (call_contract_method method wallet s).0 ≡ ok a
      → ((from : String) × (method from s.node
            ≡ (ok a, (call_contract_method method wallet s).1.node)))
        × ((call_contract_method method wallet s).1.roles ≡ s.roles)
        × ((call_contract_method method wallet s).1.role_wallets ≡ s.role_wallets)
  unfolding call_contract_method
  call_lem method wallet s a h = elim (Option-cases (caller wallet s)) [
    | inl missing ↦ absurd (ground arith)
    | inr (w, e) ↦ ((w.address, ground arith), ground arith, ground arith)
  ]

  -- What follows from the rest of a script follows from the script.
  pub through :
      {A B P : Type 0} (m : Script (Session N) A) (f : A → Script (Session N) B) (s : Session N)
      {b : B} {t : Session N}
      → (m >>= f) s ≡ (ok b, t)
      → ((a : A) (u : Session N) → f a u ≡ (ok b, t) → P)
      → P
  through m f s h k = let (a, e, rest) = >>=-eq-ok m f s h in k a (m s).1 rest

  recovery_lem :
      (f : Wallet → Script (Session N) (Unit {0})) (s t : Session N)
      → (get_role_wallet_object "recovery" >>= f) s ≡ (ok tt, t)
      → (w : Wallet) × (s.role_wallets.recovery ≡ some w) × (f w s ≡ (ok tt, t))
  unfolding get_role_wallet_object lower_code
  recovery_lem f s t h = elim (Option-cases s.role_wallets.recovery) [
    | inl missing ↦ absurd (ground arith)
    | inr (w, e) ↦ (w, e, ground arith)
  ]

  owner_lem :
      (f : Wallet → Script (Session N) (Unit {0})) (s t : Session N)
      → (get_role_wallet_object "owner" >>= f) s ≡ (ok tt, t)
      → (w : Wallet) × (s.role_wallets.owner ≡ some w) × (f w s ≡ (ok tt, t))
  unfolding get_role_wallet_object lower_code
  owner_lem f s t h = elim (Option-cases s.role_wallets.owner) [
    | inl missing ↦ absurd (ground arith)
    | inr (w, e) ↦ (w, e, ground arith)
  ]

module _ {N : Type 0} (node : Node N) (suite : SuiteNode N) where
  -- A verification of the new owner that passes has called `owner()` on the node as it was, leaves
  -- the node as this call left it, and was answered the address of the recovery role, up to upper
  -- and lower case; it records the answer as the owner, and gives the wallet of the recovery role
  -- to the owner's.
  pub test_verify_ownership_change_lem :
      (message : String) (s t : Session N)
      → test_verify_ownership_change node suite message s ≡ (ok tt, t)
      → (from owner recovery : String) × (node.owner from s.node ≡ (ok owner, t.node))
        × (t.roles.owner ≡ some owner)
        × (s.roles.recovery ≡ some recovery)
        × (same_address owner recovery ≡ true)
        × (t.roles.recovery ≡ some recovery)
        × (t.role_wallets.owner ≡ s.role_wallets.recovery)
  unfolding test_verify_ownership_change assert_test
  test_verify_ownership_change_lem message s t h =
      let (owner, read, rest) = >>=-eq-ok (call_contract_method node.owner none) _ s h in
      let s₁ = (call_contract_method node.owner none s).1 in
      let ((from, answered), roles, wallets) = call_lem node.owner none s owner read in
      elim (Option-cases s₁.roles.recovery) [
        | inl missing ↦ absurd (ground arith)
        | inr (recovery, known) ↦ elim (Bool-cases (same_address owner recovery)) [
          | inl same ↦ (
            from,
            owner,
            recovery,
            ground arith,
            ground arith,
            ground arith,
            same,
            ground arith,
            ground arith,
          )
          | inr differs ↦ absurd (ground arith)
        ]
      ]

  status_lem :
      (status id : ℕ) (message : String) (reader : Option Wallet) (s t : Session N)
      → assert_status node suite status message reader id s ≡ (ok tt, t)
      → (from : String) × (r : Transaction) × (node.get_transaction id from s.node ≡ (ok r, t.node))
        × (r.status ≡ status)
  status_lem status id message reader s t h =
      let (r, read, after) =
        >>=-eq-ok (call_contract_method (node.get_transaction id) reader) _ s h in
      let s₁ = (call_contract_method (node.get_transaction id) reader s).1 in
      let ((from, answered), roles, wallets) = call_lem (node.get_transaction id) reader s r read in
      let (holds, same, roles', wallets') = assert_lem (r.status == status) message s₁ t after in
      (from, r, ground arith, (==_iff r.status status).0 holds)

  sent_lem :
      (method : Method) (w : Wallet) (m : Script (Session N) (Unit {0})) (s t : Session N)
      → (send_transaction node method w >> m) s ≡ (ok tt, t)
      → (u : Session N) × (Sent node s u w method) × (m u ≡ (ok tt, t))
  sent_lem method w m s t h =
      let (u, sent, rest) = >>=-eq-ok (send_transaction node method w) _ s h in
      let s₁ = (send_transaction node method w s).1 in
      (s₁, send-Sent node method w s s₁ (ground arith), rest)

  -- A step that cancels after the time lock and passes has validated the permission of the recovery
  -- role, has found or made the request, has waited for its release, and then, by the wallet that
  -- the recovery role had before the step, has sent the cancellation of this request; last it has
  -- read that the transaction is cancelled. Each part starts in the session in which the one before
  -- it ended.
  pub test_step4_time_delay_cancel-Sent :
      (s t : Session N)
      → test_step4_time_delay_cancel node suite s ≡ (ok tt, t)
      → (id : ℕ) × (s₁ s₂ : Session N) × (w : Wallet) × (Awaited node suite
          (permission "recovery" "0x9d8f6f90" 2)
          id
          s
          s₁)
        × (s.role_wallets.recovery ≡ some w)
        × (Sent node s₁ s₂ w (transfer_ownership_cancellation id))
        × (from : String) × (r : Transaction) × (node.get_transaction id from s₂.node
            ≡ (ok r, t.node))
        × (r.status ≡ 2)
  unfolding test_step4_time_delay_cancel
  test_step4_time_delay_cancel-Sent s t h =
      let (id, s₁, awaited, kept, h₁) =
        awaited_lem node suite (permission "recovery" "0x9d8f6f90" 2) _ s t h in
      let (w, recovery, h₂) = recovery_lem _ s₁ t h₁ in
      let (s₂, sent, h₃) = sent_lem (transfer_ownership_cancellation id) w _ s₁ t h₂ in
      let (from, r, answered, status) =
        status_lem 2 id "Transaction cancelled successfully" none s₂ t h₃ in
      let wallet = sym (ap (λ (x : RoleWallets). x.recovery) kept) ∙ recovery in
      (id, s₁, s₂, w, awaited, wallet, sent, from, r, answered, status)

  -- A step that approves after the time lock and passes has validated the permission of the owner
  -- role, has found or made the request, has waited for its release, and then, by the wallet that
  -- the owner role had before the step, has sent the approval of this request; last it has read
  -- that the transaction is completed. Each part starts in the session in which the one before it
  -- ended.
  pub test_step10_time_delay_approve-Sent :
      (s t : Session N)
      → test_step10_time_delay_approve node suite s ≡ (ok tt, t)
      → (id : ℕ) × (s₁ s₂ : Session N) × (w : Wallet) × (Awaited node suite
          (permission "owner" "0x6cd71b38" 1)
          id
          s
          s₁)
        × (s.role_wallets.owner ≡ some w)
        × (Sent node s₁ s₂ w (transfer_ownership_delayed_approval id))
        × (from : String) × (r : Transaction) × (node.get_transaction id from s₂.node
            ≡ (ok r, t.node))
        × (r.status ≡ 3)
  unfolding test_step10_time_delay_approve
  test_step10_time_delay_approve-Sent s t h =
      let (id, s₁, awaited, kept, h₁) =
        awaited_lem node suite (permission "owner" "0x6cd71b38" 1) _ s t h in
      let (w, owner, h₂) = owner_lem _ s₁ t h₁ in
      let (s₂, sent, h₃) = sent_lem (transfer_ownership_delayed_approval id) w _ s₁ t h₂ in
      let (reader, recovery, h₄) = recovery_lem _ s₂ t h₃ in
      let (from, r, answered, status) =
        status_lem 3 id "Transaction completed successfully" (some reader) s₂ t h₄ in
      let wallet = sym (ap (λ (x : RoleWallets). x.owner) kept) ∙ owner in
      (id, s₁, s₂, w, awaited, wallet, sent, from, r, answered, status)

-- ===== src/SecureOwnable/Pending/Cleared.antt =====
-- What the answers of `cancelTransaction` and `clearPendingTransactions` say.
use guardian_safe.Prelude.{
  ℕ, String, ◌≡◌, refl, Bool, true, ◌⊎◌, inl, inr, none, some, List, [], ◌∷◌, arith, str_eq, eq_iff,
  Bool-cases, Option-cases,
}
use guardian_safe.Text.{lower_code}
use guardian_safe.Script.{Result, ok, Result-cases, >>=-eq-ok}
use guardian_safe.Accounts.{Wallet}
use guardian_safe.SecureOwnable.Names.{ownership_transfer, broadcaster_update}
use guardian_safe.SecureOwnable.Session.{
  Method, transfer_ownership_cancellation, update_broadcaster_cancellation, Node, Session, caller,
  send_transaction, call_contract_method,
}
use guardian_safe.SecureOwnable.Roles.{get_role_wallet_object}
use guardian_safe.SecureOwnable.Pending.{
  is_empty, clear_ids, cancel_transaction, clear_transactions, clear_pending_transactions,
}

module _ {N : Type 0} (node : Node N) where
  -- The sent cancellation and its sender.
  pub record Sent (s s' : Session N) (wallet : Wallet) (method : Method) : Type 0 where
    pub gas : ℕ
    pub estimated : N
    pub estimate : node.estimate_gas method wallet.address s.node ≡ (ok gas, estimated)
    pub sent : node.send method wallet.address gas estimated ≡ (ok tt, s'.node)

  pub send-Sent :
      (method : Method) (wallet : Wallet) (s s' : Session N)
      → send_transaction node method wallet s ≡ (ok tt, s')
      → Sent s s' wallet method
  unfolding send_transaction
  send-Sent method wallet s s' h =
      elim (Result-cases (node.estimate_gas method wallet.address s.node).0) [
        | inl (gas, e) ↦ record {
          gas = gas;
          estimated = (node.estimate_gas method wallet.address s.node).1;
          estimate = ground arith;
          sent = ground arith;
        }
        | inr (message, e) ↦ absurd (ground arith)
      ]

  -- A cancellation that is reported as done was sent: that of a transfer of ownership by the wallet
  -- of the recovery role, that of an update of the broadcaster by the owner's; no other operation
  -- is ever reported as cancelled.
  pub cancel_transaction-Sent :
      (id : ℕ) (operation_type : String) (s s' : Session N)
      → cancel_transaction node id operation_type s ≡ (ok true, s')
      → (wallet : Wallet) × (((operation_type ≡ ownership_transfer)
            × (s.role_wallets.recovery ≡ some wallet)
            × Sent s s' wallet (transfer_ownership_cancellation id))
          ⊎ ((operation_type ≡ broadcaster_update)
              × (s.role_wallets.owner ≡ some wallet)
              × Sent s s' wallet (update_broadcaster_cancellation id)))
  unfolding cancel_transaction get_role_wallet_object lower_code
  cancel_transaction-Sent id operation_type s s' h =
      elim (Bool-cases (str_eq operation_type ownership_transfer)) [
        | inl e ↦ elim (Option-cases s.role_wallets.recovery) [
          | inl missing ↦ absurd (ground arith)
          | inr (w, p) ↦ (
            w,
            inl (
              (eq_iff operation_type ownership_transfer).0 e,
              p,
              send-Sent (transfer_ownership_cancellation id) w s s' (ground arith),
            ),
          )
        ]
        | inr e₁ ↦ elim (Bool-cases (str_eq operation_type broadcaster_update)) [
          | inl e ↦ elim (Option-cases s.role_wallets.owner) [
            | inl missing ↦ absurd (ground arith)
            | inr (w, p) ↦ (
              w,
              inr (
                (eq_iff operation_type broadcaster_update).0 e,
                p,
                send-Sent (update_broadcaster_cancellation id) w s s' (ground arith),
              ),
            )
          ]
          | inr e₂ ↦ absurd (ground arith)
        ]
      ]

  pending_call :
      (s s' : Session N) (ids : List ℕ)
      → call_contract_method node.get_pending_transactions none s ≡ (ok ids, s')
      → (from : String) × (node.get_pending_transactions from s.node ≡ (ok ids, s'.node))
  unfolding call_contract_method
  pending_call s s' ids h = elim (Option-cases (caller none s)) [
    | inl missing ↦ absurd (ground arith)
    | inr (w, e) ↦ (w.address, ground arith)
  ]

  last_call :
      (ids : List ℕ) (s s' : Session N)
      → clear_ids node ids s ≡ (ok true, s')
      → ((ids ≡ []) × (s ≡ s'))
        ⊎ ((t : Session N) × (call_contract_method node.get_pending_transactions none t
              ≡ (ok [], s')))
  last_call [] s s' h = inl (refl, cc)
  last_call (id ∷ ids) s s' h =
      let (count, e, rest) = >>=-eq-ok (clear_transactions node (id ∷ ids) 0) _ s h in
      let t = (clear_transactions node (id ∷ ids) 0 s).1 in
      let (remaining, e', rest') =
        >>=-eq-ok (call_contract_method node.get_pending_transactions none) _ t rest in
      inr (t, none_left t remaining e' rest')
    where
      none_left :
          (t : Session N) (remaining : List ℕ)
          → (call_contract_method node.get_pending_transactions none t).0 ≡ ok remaining
          → ◌≡◌ {A = Result Bool × Session N}
              (
                ok (is_empty node remaining),
                (call_contract_method node.get_pending_transactions none t).1,
              )
              (ok true, s')
          → call_contract_method node.get_pending_transactions none t ≡ (ok [], s')
      none_left t [] p q = ground arith
      none_left t (x ∷ xs) p q = cc

  -- Clearing returns true only after the contract has answered that nothing is pending, and that
  -- answer is the last thing that the node was asked for.
  pub clear_pending_transactions-empty :
      (s s' : Session N)
      → clear_pending_transactions node s ≡ (ok true, s')
      → (from : String) × (n : N) × (node.get_pending_transactions from n ≡ (ok [], s'.node))
  unfolding clear_pending_transactions
  clear_pending_transactions-empty s s' h =
      let asked = call_contract_method node.get_pending_transactions none s in
      elim (Result-cases asked.0) [
        | inl (ids, e) ↦ elim (last_call ids asked.1 s' (ground arith)) [
          | inl (empty, same) ↦
              let (from, p) = pending_call s s' [] (ground arith) in (from, s.node, p)
          | inr (t, last) ↦ let (from, p) = pending_call t s' [] last in (from, t.node, p)
        ]
        | inr (message, e) ↦ absurd (ground arith)
      ]

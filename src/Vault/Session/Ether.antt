-- ===== src/Vault/Session/Ether.antt =====
-- The gas of a transfer of ether.
use guardian_safe.Prelude.{ℕ, ◌*◌, ◌/◌, String, ◌≡◌, refl, ◌⊎◌, inl, inr, Option, arith}
use guardian_safe.Script.{ok, err, Result-cases}
use guardian_safe.Accounts.{Wallet}
use guardian_safe.Vault.Session.{
  EthTransfer, VaultNode, VaultSession, sender, transfer_gas, send_eth,
}

module _ {N : Type 0} (node : VaultNode N) where
  -- One and a half of the estimate, or 80000 where there was none.
  abbrev pub Priced : EthTransfer → ℕ → N → N → Type 0
  Priced t gas n n' =
      ((estimate : ℕ) × (node.estimate_gas t n ≡ (ok estimate, n')) × (gas ≡ estimate * 3 / 2))
      ⊎ ((message : String) × (node.estimate_gas t n ≡ (err message, n')) × (gas ≡ 80000))

  transfer_gas-Priced :
      (t : EthTransfer) (s : VaultSession N)
      → (gas : ℕ) × (n : N) × (transfer_gas node t s ≡ (ok gas, record s { node = n }))
        × Priced t gas s.node n
  unfolding transfer_gas
  transfer_gas-Priced t s = elim (Result-cases (node.estimate_gas t s.node).0) [
    | inl (estimate, e) ↦ (
      estimate * 3 / 2,
      (node.estimate_gas t s.node).1,
      ground arith,
      inl (estimate, ground arith, refl),
    )
    | inr (message, e) ↦
        (80000, (node.estimate_gas t s.node).1, ground arith, inr (message, ground arith, refl))
  ]

  -- A transfer of ether that returns, where its sender is found with nothing changed, was sent from
  -- that sender to the given address, of the value that web3 computed for the amount,
  -- with one and a half of the gas that was estimated for it, or with 80000 if the estimation
  -- failed; but for the node nothing has changed.
  pub send_eth-Priced :
      (to amount from : String) (wallet : Option Wallet) (s s' : VaultSession N)
      → sender node wallet s ≡ (ok from, s)
      → send_eth node to amount wallet s ≡ (ok tt, s')
      → (value gas : ℕ) × (n₁ n₂ : N) × (node.to_wei amount s.node ≡ (ok value, n₁))
        × Priced (record { from = from; to = to; value = value }) gas n₁ n₂
        × (node.send_transaction (record { from = from; to = to; value = value }) gas n₂
            ≡ (ok tt, s'.node))
        × (s' ≡ record s { node = s'.node })
  unfolding send_eth
  send_eth-Priced to amount from wallet s s' e h =
      elim (Result-cases (node.to_wei amount s.node).0) [
        | inr (message, f) ↦ absurd (ground arith)
        | inl (value, f) ↦
            let n₁ = (node.to_wei amount s.node).1 in
            let t : EthTransfer = record { from = from; to = to; value = value } in
            let (gas, n₂, run, priced) = transfer_gas-Priced t (record s { node = n₁ }) in
            (value, gas, n₁, n₂, ground arith, priced, ground arith, ground arith)
      ]

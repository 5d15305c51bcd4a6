-- ===== src/Rwa20/Signer/Executed.antt =====
-- What a completed mint or burn has done.
use guardian_safe.Prelude.{ℕ, String, ◌≡◌, true, arith}
use guardian_safe.Script.{Result, ok, >>=-eq-ok, lift}
use guardian_safe.Accounts.{Wallet}
use guardian_safe.Eip712.Value.{MetaTxParams, MetaTransaction}
use guardian_safe.Eip712.Library.{Web3}
use guardian_safe.Eip712.Signer.{
  has_message, signature_over, generate_message_hash, sign_meta_transaction,
}
use guardian_safe.Eip712.Signing.{sign-parts}
use guardian_safe.Rwa20.Signer.{
  TokenContract, Supply, methods_of, generate_unsigned_meta_tx, sign_supply_meta_transaction,
  execute_meta_transaction, complete_workflow,
}

module _ {N Receipt : Type 0} (w : Web3) (to_wei : String → Result ℕ)
    (contract : TokenContract N Receipt) where
  -- The wallet has sent the meta-transaction for the operation, with the gas that was estimated for
  -- it, and got the receipt.
  abbrev pub SentBy : Supply → MetaTransaction → Wallet → N → Receipt → N → Type 0
  SentBy supply signed wallet n receipt n' =
      (gas : ℕ) × (n₁ : N) × ((methods_of contract supply).estimate_gas signed wallet.address n
        ≡ (ok gas, n₁))
      × ((methods_of contract supply).send signed wallet.address gas n₁ ≡ (ok receipt, n'))

  execute-SentBy :
      (supply : Supply) (signed : MetaTransaction) (wallet : Wallet) (receipt : Receipt) (n n' : N)
      → execute_meta_transaction w to_wei contract supply signed wallet n ≡ (ok receipt, n')
      → SentBy supply signed wallet n receipt n'
  unfolding execute_meta_transaction
  execute-SentBy supply signed wallet receipt n n' h =
      let estimate = (methods_of contract supply).estimate_gas signed wallet.address in
      let (gas, estimated, sent) = >>=-eq-ok estimate _ n h in
      (gas, (estimate n).1, ground arith, sent)

  generate-asked :
      (supply : Supply) (account amount : String) (params : MetaTxParams) (u : MetaTransaction)
      (n n' : N)
      → generate_unsigned_meta_tx w to_wei contract supply account amount params n ≡ (ok u, n')
      → (value : ℕ) × (to_wei amount ≡ ok value)
        × ((methods_of contract supply).generate_unsigned account value params n ≡ (ok u, n'))
  unfolding generate_unsigned_meta_tx
  generate-asked supply account amount params u n n' h = >>=-eq-ok (lift (to_wei amount)) _ n h

  sign-message :
      (u signed : MetaTransaction) (key : String) (n n' : N)
      → has_message u ≡ true
      → sign_meta_transaction w contract.signing u key n ≡ (ok signed, n')
      → signed.message ≡ u.message
  unfolding sign_meta_transaction generate_message_hash
  sign-message u signed key n n' e h = ground arith

  signing-ends :
      (supply : Supply) (account amount : String) (params : MetaTxParams) (key : String)
      (signed : MetaTransaction) (n : N)
      → (sign_supply_meta_transaction w to_wei contract supply account amount params key n).0
        ≡ ok signed
      → sign_supply_meta_transaction w to_wei contract supply account amount params key n ≡ (
        ok signed,
        (sign_supply_meta_transaction w to_wei contract supply account amount params key n).1,
      )
  signing-ends supply account amount params key signed n h = ground arith

  -- A mint or a burn that returns a receipt asked the contract for the meta-transaction of the
  -- account and the amount in wei, signed that one, with its message if it has one, and sent it from
  -- the broadcaster's wallet with the gas that was estimated for it; nothing else of it was changed,
  -- and a mint was executed as a mint, a burn as a burn.
  pub complete_workflow-Executed :
      (supply : Supply) (account amount : String) (params : MetaTxParams) (key : String)
      (wallet : Wallet) (receipt : Receipt) (n n' : N)
      → complete_workflow w to_wei contract supply account amount params key wallet n
        ≡ (ok receipt, n')
      → (value : ℕ) × (u signed : MetaTransaction) × (n₁ n₂ : N) × (to_wei amount ≡ ok value)
        × ((methods_of contract supply).generate_unsigned account value params n ≡ (ok u, n₁))
        × (sign_meta_transaction w contract.signing u key n₁ ≡ (ok signed, n₂))
        × (signature_over w signed.message key ≡ ok signed.signature)
        × (signed ≡ record u { signature = signed.signature; message = signed.message })
        × (has_message u ≡ true → signed.message ≡ u.message)
        × SentBy supply signed wallet n₂ receipt n'
  unfolding complete_workflow sign_supply_meta_transaction
  complete_workflow-Executed supply account amount params key wallet receipt n n' h =
      let signing =
        sign_supply_meta_transaction w to_wei contract supply account amount params key in
      let (signed, made, sent) = >>=-eq-ok signing _ n h in
      let generating = generate_unsigned_meta_tx w to_wei contract supply account amount params in
      let (u, generated, signs) =
        >>=-eq-ok generating (λ v. sign_meta_transaction w contract.signing v key) n
          (signing-ends supply account amount params key signed n made) in
      let n₁ = (generating n).1 in
      let n₂ = (signing n).1 in
      let (value, priced, asked) =
        generate-asked supply account amount params u n n₁ (ground arith) in
      let (over, same) = sign-parts w contract.signing u signed key n₁ n₂ signs in
      (
        value,
        u,
        signed,
        n₁,
        n₂,
        priced,
        asked,
        signs,
        over,
        same,
        (λ e. sign-message u signed key n₁ n₂ e signs),
        execute-SentBy supply signed wallet receipt n₂ n' sent,
      )

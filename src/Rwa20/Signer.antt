-- ===== src/Rwa20/Signer.antt =====
-- Meta-transactions that mint or burn tokens: generated by the contract, signed by the owner and
-- executed by the broadcaster.
pub mod Executed
use guardian_safe.Prelude.{ℕ, String}
use guardian_safe.Script.{Result, Script, lift, ◌>>=◌}
use guardian_safe.Accounts.{Wallet}
use guardian_safe.Eip712.Value.{MetaTxParams, MetaTransaction}
use guardian_safe.Eip712.Library.{Web3, Contract}
use guardian_safe.Eip712.Signer.{sign_meta_transaction}

-- The two methods of an operation on the supply: the generator of its unsigned meta-transaction,
-- called from the default account, and the method that executes it, whose first argument after the
-- meta-transaction is the sender.
pub record SupplyMethods (N Receipt : Type 0) : Type 0 where
  pub generate_unsigned : String → ℕ → MetaTxParams → Script N MetaTransaction
  pub estimate_gas : MetaTransaction → String → Script N ℕ
  pub send : MetaTransaction → String → ℕ → Script N Receipt

-- The SimpleRWA20 contract: a parameter of the model.
pub record TokenContract (N Receipt : Type 0) : Type 0 where
  pub signing : Contract N
  pub mint : SupplyMethods N Receipt
  pub burn : SupplyMethods N Receipt

pub data Supply : Type 0 where
  mint : Supply
  burn : Supply

abbrev pub methods_of :
    {N Receipt : Type 0} → TokenContract N Receipt → Supply → SupplyMethods N Receipt
methods_of contract mint = contract.mint
methods_of contract burn = contract.burn

module _ {N Receipt : Type 0} (w : Web3) (to_wei : String → Result ℕ)
    (contract : TokenContract N Receipt) where
  -- `generateUnsignedMintMetaTx` and `generateUnsignedBurnMetaTx`
  unfoldable pub generate_unsigned_meta_tx :
      Supply → String → String → MetaTxParams → Script N MetaTransaction
  generate_unsigned_meta_tx supply account amount params = do
    amount_wei ← lift (to_wei amount)
    (methods_of contract supply).generate_unsigned account amount_wei params

  -- `signMintMetaTransaction` and `signBurnMetaTransaction`
  unfoldable pub sign_supply_meta_transaction :
      Supply → String → String → MetaTxParams → String → Script N MetaTransaction
  sign_supply_meta_transaction supply account amount params owner_private_key = do
    unsigned_meta_tx ← generate_unsigned_meta_tx supply account amount params
    sign_meta_transaction w contract.signing unsigned_meta_tx owner_private_key

  -- `executeMintMetaTransaction` and `executeBurnMetaTransaction`
  unfoldable pub execute_meta_transaction : Supply → MetaTransaction → Wallet → Script N Receipt
  execute_meta_transaction supply signed_meta_tx broadcaster_wallet = do
    gas ← (methods_of contract supply).estimate_gas signed_meta_tx broadcaster_wallet.address
    (methods_of contract supply).send signed_meta_tx broadcaster_wallet.address gas

  -- `completeMintWorkflow` and `completeBurnWorkflow`
  unfoldable pub complete_workflow :
      Supply → String → String → MetaTxParams → String → Wallet → Script N Receipt
  complete_workflow supply account amount params owner_private_key broadcaster_wallet = do
    signed_meta_tx ← sign_supply_meta_transaction supply account amount params owner_private_key
    execute_meta_transaction supply signed_meta_tx broadcaster_wallet

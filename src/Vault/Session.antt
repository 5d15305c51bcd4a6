-- ===== src/Vault/Session.antt =====
-- The object `this` of a vault test, its calls, transactions and transfers of ether.
pub mod Ether
use guardian_safe.Prelude.{
  ℕ, ◌*◌, ◌/◌, String, Option, none, some, List, [], ◌∷◌, str_eq, if◌then◌else◌,
}
use guardian_safe.Script.{Script, pure, gets, try_catch, ◌>>=◌, ◌>>◌}
use guardian_safe.Accounts.{Wallet}
use guardian_safe.SecureOwnable.Session.{
  SelfTransfer, Roles, RoleWallets, TestResults, wallet_named, address_of,
}

-- the object that `sendEth` passes to web3, but for the gas
pub record EthTransfer : Type 0 where
  pub from : String
  pub to : String
  pub value : ℕ

-- The node behind web3 and the vault contract: parameters of the model. The first argument of a
-- call is the address in `from`.
pub record VaultNode (N : Type 0) : Type 0 where
  pub owner : String → Script N String
  pub get_broadcaster : String → Script N String
  pub get_recovery : String → Script N String
  pub get_pending_transactions : String → Script N (List ℕ)
  pub get_gas_price : Script N ℕ
  pub sign_transaction : SelfTransfer → Script N String
  pub send_signed_transaction : String → Script N (Unit {0})
  -- the `timestamp` of the latest block
  pub block_timestamp : Script N ℕ
  pub to_wei : String → Script N ℕ
  pub estimate_gas : EthTransfer → Script N ℕ
  pub send_transaction : EthTransfer → ℕ → Script N (Unit {0})

-- `method(...params)` with the options other than `from`
pub record VaultMethod (N : Type 0) (Receipt : Type 0) : Type 0 where
  pub estimate : String → Script N ℕ
  pub send : String → ℕ → Script N Receipt

pub record VaultSession (N : Type 0) : Type 0 where
  pub node : N
  pub wallets : List (String × Wallet)
  pub roles : Roles
  pub role_wallets : RoleWallets
  pub test_results : TestResults

-- `pending[pending.length - 1]`, or null
unfoldable pub last_of : List ℕ → Option ℕ
last_of [] = none
last_of (id ∷ []) = some id
last_of (id ∷ next ∷ ids) = last_of (next ∷ ids)

module _ {N : Type 0} where
  abbrev pub in_vault : {A : Type 0} → Script N A → Script (VaultSession N) A
  in_vault m s = let (r, n) = m s.node in (r, record s { node = n })

  -- `this.wallets.owner.address`
  abbrev pub owner_address : Script (VaultSession N) String
  owner_address = do owner ← gets (λ s. wallet_named "owner" s.wallets); address_of owner

  -- `{ from: options.from || this.wallets.owner.address, ...options }`: a `from` that is given stays,
  -- also where it is empty and the owner's address was read in its place
  abbrev pub from_or_owner : Option String → Script (VaultSession N) String
  from_or_owner none = owner_address
  from_or_owner (some from) = if str_eq from "" then (do owner_address; pure from) else pure from

  -- The `catch` prints and throws the same error again.
  unfoldable pub call_method :
      {A : Type 0} → (String → Script N A) → Option String → Script (VaultSession N) A
  call_method method from = do address ← from_or_owner from; in_vault (method address)

  unfoldable pub execute_transaction :
      {Receipt : Type 0} → VaultMethod N Receipt → Option String → Script (VaultSession N) Receipt
  execute_transaction method from = do
    address ← from_or_owner from
    gas ← in_vault (method.estimate address)
    in_vault (method.send address gas)

module _ {N : Type 0} (node : VaultNode N) where
  -- `fromWallet ? fromWallet.address : this.wallets.owner.address`
  abbrev pub sender : Option Wallet → Script (VaultSession N) String
  sender none = owner_address
  sender (some w) = pure w.address

  -- `Math.floor(gas * 1.5)`, or the fallback
  unfoldable pub transfer_gas : EthTransfer → Script (VaultSession N) ℕ
  transfer_gas t =
      try_catch (do gas ← in_vault (node.estimate_gas t); pure (gas * 3 / 2)) (λ _. pure 80000)

  unfoldable pub send_eth : String → String → Option Wallet → Script (VaultSession N) (Unit {0})
  send_eth to amount from_wallet = do
    from ← sender from_wallet
    value ← in_vault (node.to_wei amount)
    gas ← transfer_gas (record { from = from; to = to; value = value })
    in_vault (node.send_transaction (record { from = from; to = to; value = value }) gas)

  unfoldable pub get_pending_transactions : Script (VaultSession N) (List ℕ)
  get_pending_transactions =
      try_catch (call_method node.get_pending_transactions none) (λ _. pure [])

  unfoldable pub get_latest_pending_tx_id : Script (VaultSession N) (Option ℕ)
  get_latest_pending_tx_id = do pending ← get_pending_transactions; pure (last_of pending)

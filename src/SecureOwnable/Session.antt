-- ===== src/SecureOwnable/Session.antt =====
-- The object `this` of a test, the node that it talks to, and calls of contract methods.
use guardian_safe.Prelude.{
  ℕ, String, Bool, Option, none, some, List, [], ◌∷◌, if◌then◌else◌, str_eq,
}
use guardian_safe.Text.{◌<>◌}
use guardian_safe.Script.{ok, Script, pure, throw, gets, try_catch, ◌>>=◌}
use guardian_safe.Eip712.Value.{MetaTransaction}
use guardian_safe.Accounts.{Wallet}

pub record Transaction : Type 0 where
  pub tx_id : ℕ
  pub status : ℕ
  pub release_time : ℕ
  pub operation_type : String
  pub requester : String

pub record FunctionPermission : Type 0 where
  pub function_selector : String
  pub granted_actions : List ℕ

-- The methods of the contract that are sent.
pub data Method : Type 0 where
  transfer_ownership_cancellation : ℕ → Method
  update_broadcaster_cancellation : ℕ → Method
  transfer_ownership_request : Method
  transfer_ownership_delayed_approval : ℕ → Method
  update_broadcaster_request : String → Method
  update_broadcaster_delayed_approval : ℕ → Method
  transfer_ownership_cancellation_with_meta_tx : MetaTransaction → Method
  transfer_ownership_approval_with_meta_tx : MetaTransaction → Method
  update_recovery_request_and_approve : MetaTransaction → Method
  update_time_lock_request_and_approve : MetaTransaction → Method
  update_broadcaster_cancellation_with_meta_tx : MetaTransaction → Method
  update_broadcaster_approval_with_meta_tx : MetaTransaction → Method

-- The transfer of nothing that a wallet sends to itself to have a block mined.
pub record SelfTransfer : Type 0 where
  pub wallet : Wallet
  pub gas : ℕ
  pub gas_price : ℕ

-- The node behind web3, the contract at `contractAddress` and the clock: parameters of the model.
-- The first argument of a call is the address in `from`.
pub record Node (N : Type 0) : Type 0 where
  pub owner : String → Script N String
  pub get_broadcaster : String → Script N String
  pub get_recovery : String → Script N String
  pub get_pending_transactions : String → Script N (List ℕ)
  pub get_transaction : ℕ → String → Script N Transaction
  pub get_role_permission : String → String → Script N (List FunctionPermission)
  -- whether the timer of `Promise.race` is first
  pub timed_out : Script N Bool
  pub estimate_gas : Method → String → Script N ℕ
  pub send : Method → String → ℕ → Script N (Unit {0})
  pub get_gas_price : Script N ℕ
  pub sign_transaction : SelfTransfer → Script N String
  -- the receipt's `status`
  pub send_signed_transaction : String → Script N Bool
  -- the `timestamp` of the latest block
  pub block_timestamp : Script N ℕ
  -- `Date.now()`
  pub date_now : N → ℕ × N

pub record Roles : Type 0 where
  pub owner : Option String
  pub broadcaster : Option String
  pub recovery : Option String

pub record RoleWallets : Type 0 where
  pub owner : Option Wallet
  pub broadcaster : Option Wallet
  pub recovery : Option Wallet

pub record TestResults : Type 0 where
  pub total_tests : ℕ
  pub passed_tests : ℕ
  pub failed_tests : ℕ
  pub start_time : Option ℕ
  pub end_time : Option ℕ

pub record Session (N : Type 0) : Type 0 where
  pub node : N
  pub wallets : List (String × Wallet)
  pub roles : Roles
  pub role_wallets : RoleWallets
  pub test_results : TestResults

-- `this.wallets[name]`
abbrev pub wallet_named : String → List (String × Wallet) → Option Wallet
wallet_named name [] = none
wallet_named name ((key, w) ∷ ws) = if str_eq key name then some w else wallet_named name ws

abbrev pub undefined_address : String
undefined_address = "Cannot read properties of undefined (reading 'address')"

abbrev pub address_of : {S : Type 0} → Option Wallet → Script S String
address_of none = throw undefined_address
address_of (some w) = pure w.address

-- try { … } catch (error) { throw new Error(prefix + error.message); }
abbrev pub prefix_errors : {S A : Type 0} → String → Script S A → Script S A
prefix_errors prefix m = try_catch m (λ message. throw (prefix <> message))

abbrev pub or_wallet : Option Wallet → Option Wallet → Option Wallet
or_wallet (some w) other = some w
or_wallet none other = other

module _ {N : Type 0} where
  abbrev pub on_node : {A : Type 0} → Script N A → Script (Session N) A
  on_node m s = let (r, n) = m s.node in (r, record s { node = n })

  abbrev pub now : Node N → Script (Session N) ℕ
  now node s = let (t, n) = node.date_now s.node in (ok t, record s { node = n })

  -- the wallet that is given, or the owner's, or `wallet1`
  abbrev pub caller : Option Wallet → Session N → Option Wallet
  caller wallet s =
      or_wallet wallet (or_wallet s.role_wallets.owner (wallet_named "wallet1" s.wallets))

  unfoldable pub call_contract_method :
      {A : Type 0} → (String → Script N A) → Option Wallet → Script (Session N) A
  call_contract_method method wallet =
      prefix_errors "Contract call failed: " (do
        from_wallet ← gets (caller wallet)
        from ← address_of from_wallet
        on_node (method from))

  unfoldable pub send_transaction : Node N → Method → Wallet → Script (Session N) (Unit {0})
  send_transaction node method wallet = prefix_errors "Transaction failed: " (do
    gas ← on_node (node.estimate_gas method wallet.address)
    on_node (node.send method wallet.address gas))

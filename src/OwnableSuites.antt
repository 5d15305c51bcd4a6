-- ===== src/OwnableSuites.antt =====
-- The suites of scripts/sanity/secure-ownable/: ownership-transfer-tests.js,
-- broadcaster-update-tests.js, recovery-update-tests.js, timelock-period-tests.js and
-- eip712-signing-tests.js, classes over
-- `BaseSecureOwnableTest`, whose steps create, sign, wait for, approve and cancel requests. Pauses between attempts are left
-- out.
pub mod Wallets
pub mod Requests
pub mod MetaTx
pub mod Ownership
pub mod Broadcaster
pub mod Recovery
pub mod TimelockPeriod
pub mod Signing
pub mod Awaited
pub mod Confirmed
pub mod Counted
mod Tests
use guardian_safe.Prelude.{ℕ, String, List, [], ◌∷◌}
use guardian_safe.Script.{Script, throw}
use guardian_safe.Eip712.Value.{Value, TxParams, MetaTxParams, MetaTransaction}
use guardian_safe.Eip712.Library.{Web3, Contract}
use guardian_safe.SecureOwnable.Session.{Transaction}

-- What these suites call beside the node of the test base: methods of the contract, whose last
-- argument is the address in `from`, and what the signer uses.
pub record SuiteNode (N : Type 0) : Type 0 where
  pub contract_address : String
  pub web3 : Web3
  pub contract : Contract N
  pub get_transaction_history : ℕ → ℕ → String → Script N (List Transaction)
  -- createMetaTxParams(handler, selector, action, deadline, maxGasPrice, signer)
  pub create_meta_tx_params : String → String → ℕ → ℕ → ℕ → String → String → Script N MetaTxParams
  pub generate_unsigned_meta_transaction_for_existing :
      ℕ → MetaTxParams → String → Script N MetaTransaction
  pub generate_unsigned_meta_transaction_for_new :
      TxParams → MetaTxParams → String → Script N MetaTransaction
  pub update_recovery_execution_options : String → String → Script N Value
  pub get_time_lock_period_sec : String → Script N ℕ
  pub update_time_lock_execution_options : ℕ → String → Script N Value

-- the signer's `contract` where a call leaves it undefined
abbrev pub no_contract : {N : Type 0} → Contract N
no_contract = record {
  generate_unsigned_meta_transaction_for_new =
      λ p q. throw "Cannot read properties of undefined (reading 'methods')";
  generate_unsigned_meta_transaction_for_existing =
      λ p q. throw "Cannot read properties of undefined (reading 'methods')";
}

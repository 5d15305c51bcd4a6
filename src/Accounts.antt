-- ===== src/Accounts.antt =====
-- Wallets of the sanity scripts and their lookup by address.
use guardian_safe.Prelude.{String}

-- An account of `web3.eth.accounts.privateKeyToAccount`.
pub record Wallet : Type 0 where
  pub address : String
  pub private_key : String

-- ===== src/Eip712/Library.antt =====
-- web3, and the contract behind it, as the signer uses them: parameters of the model. `N` is the
-- state of the node.
use guardian_safe.Prelude.{String, ◌≡◌, Option, List}
use guardian_safe.Script.{Result, ok, Script}
use guardian_safe.Eip712.Value.{Value, TxParams, MetaTxParams, MetaTransaction}

-- The result of `web3.eth.accounts.sign`; some versions of web3 leave `address` undefined.
pub record Signature : Type 0 where
  pub signature : String
  pub address : Option String

pub record Web3 : Type 0 where
  pub keccak256 : String → String
  pub encode_packed : List String → String
  pub encode_parameters : List String → List Value → Result String
  pub decode_options : Value → Result (Value × Value)
  pub encode_function_call : String → List String → List Value → Result String
  pub sign : String → String → Result Signature
  pub recover : String → String → Result String

-- `contract.methods.….call()`
pub record Contract (N : Type 0) : Type 0 where
  pub generate_unsigned_meta_transaction_for_new :
      TxParams → MetaTxParams → Script N MetaTransaction
  pub generate_unsigned_meta_transaction_for_existing :
      Value → MetaTxParams → Script N MetaTransaction

-- Signing is sound: with the key of an account, `sign` returns a signature from which `recover`
-- computes that account's address, and reports that address if it reports one.
pub record SignsFor (w : Web3) (key owner : String) : Type 0 where
  pub recovered :
      (hash : String) (s : Signature)
      → w.sign hash key ≡ ok s
      → w.recover hash s.signature ≡ ok owner

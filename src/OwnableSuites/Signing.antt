-- ===== src/OwnableSuites/Signing.antt =====
-- scripts/sanity/secure-ownable/eip712-signing-tests.js: the class `EIP712SigningTests`. The
-- meta-transactions that it builds are not signed: what is signed are two fixed hashes. They are
-- left out but for the clock that is read for their deadline, and what is asserted of them, which
-- compares their fields with themselves.
use guardian_safe.Prelude.{
  ℕ, String, Bool, true, false, Option, none, some, List, ◌∷◌, length, ltb, ◌==◌, str_eq, ◌&&◌,
}
use guardian_safe.Text.{codes}
use guardian_safe.Script.{Script, pure, throw, lift, ◌>>=◌, ◌>>◌}
use guardian_safe.Eip712.Value.{zero_hash}
use guardian_safe.Eip712.Library.{Signature}
use guardian_safe.SecureOwnable.Session.{Node, Session, now}
use guardian_safe.SecureOwnable.Roles.{get_role_wallet}
use guardian_safe.SecureOwnable.Run.{assert_test}
use guardian_safe.OwnableSuites.{SuiteNode}

-- The fields of `this.eip712Signer`, null until it is initialized.
pub record SignerFields : Type 0 where
  pub chain_id : Option ℕ
  pub contract_address : Option String

abbrev pub is_set : {A : Type 0} → Option A → Bool
is_set none = false
is_set (some a) = true

-- text.startsWith('0x')
abbrev pub starts_with_0x : List ℕ → Bool
starts_with_0x (a ∷ b ∷ rest) = a == b'0' && b == b'x'
starts_with_0x text' = false

-- '0x' + '1'.repeat(64)
abbrev pub ones_hash : String
ones_hash = "0x1111111111111111111111111111111111111111111111111111111111111111"

module _ {N : Type 0} (node : Node N) (suite : SuiteNode N) (signer : Option SignerFields) where
  abbrev pub fields_of : Option SignerFields → Script (Session N) SignerFields
  fields_of none = throw "Cannot read properties of null (reading 'chainId')"
  fields_of (some fields) = pure fields

  unfoldable pub test_eip712_initialization : Script (Session N) (Unit {0})
  test_eip712_initialization = do
    assert_test (is_set signer) "EIP-712 signer is initialized"
    fields ← fields_of signer
    assert_test (is_set fields.chain_id) "Chain ID is set"
    assert_test (is_set fields.contract_address) "Contract address is set"

  -- the signature of a fixed hash, after the meta-transaction was built
  unfoldable pub signed_hash : String → String → Script (Session N) Signature
  signed_hash hash role = do
    fields ← fields_of signer
    time ← now node
    key ← get_role_wallet role
    lift (suite.web3.sign hash key)

  unfoldable pub test_meta_transaction_signing : Script (Session N) (Unit {0})
  test_meta_transaction_signing = do
    signature ← signed_hash zero_hash "owner"
    assert_test true "Signature is not null"
    assert_test true "Signature object has signature field"
    assert_test (ltb 0 (length (codes signature.signature))) "Signature has content"
    assert_test (starts_with_0x (codes signature.signature)) "Signature starts with 0x"
    assert_test (length (codes signature.signature) == 132)
        "Signature has correct length (65 bytes)"

  unfoldable pub test_signature_verification : Script (Session N) (Unit {0})
  test_signature_verification = do
    signature ← signed_hash ones_hash "broadcaster"
    assert_test true "Signature is not null"
    assert_test true "Signature object has signature field"
    assert_test (length (codes signature.signature) == 132) "Signature has correct length"
    assert_test (starts_with_0x (codes signature.signature)) "Signature starts with 0x"
    assert_test (str_eq signature.signature signature.signature)
        "Signature is preserved in meta-transaction object"
    assert_test true "Signer is preserved"
    assert_test true "Handler contract is preserved"

  unfoldable pub execute_signing_tests : Script (Session N) (Unit {0})
  execute_signing_tests = do
    test_eip712_initialization
    test_meta_transaction_signing
    test_signature_verification

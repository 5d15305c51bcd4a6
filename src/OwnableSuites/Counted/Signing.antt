-- ===== src/OwnableSuites/Counted/Signing.antt =====
-- The suite of the signatures.
use guardian_safe.Prelude.{String, true, Option, none, some, ltb, length, ◌==◌, str_eq}
use guardian_safe.Text.{codes}
use guardian_safe.Eip712.Value.{zero_hash}
use guardian_safe.SecureOwnable.Session.{Node}
use guardian_safe.OwnableSuites.{SuiteNode}
use guardian_safe.OwnableSuites.Signing.{
  SignerFields, is_set, starts_with_0x, ones_hash, fields_of, signed_hash,
  test_eip712_initialization, test_meta_transaction_signing, test_signature_verification,
  execute_signing_tests,
}
use guardian_safe.OwnableSuites.Counted.Base.{Counts, pure-Keeps, throw-Keeps, >>=-Keeps}
use guardian_safe.OwnableSuites.Counted.Ground.{lift-Keeps, assert-Keeps, key-Keeps, now-Keeps}

module _ {N : Type 0} (node : Node N) (suite : SuiteNode N) (signer : Option SignerFields) where
  fields-Keeps : (o : Option SignerFields) → Counts (fields_of node suite signer o)
  fields-Keeps none = throw-Keeps "Cannot read properties of null (reading 'chainId')"
  fields-Keeps (some fields) = pure-Keeps fields

  initialization-Keeps : Counts (test_eip712_initialization node suite signer)
  unfolding test_eip712_initialization
  initialization-Keeps =
      >>=-Keeps _ _ (assert-Keeps (is_set signer) "EIP-712 signer is initialized") λ u.
        >>=-Keeps _ _ (fields-Keeps signer) λ fields.
          >>=-Keeps _ _ (assert-Keeps (is_set fields.chain_id) "Chain ID is set")
            λ v. assert-Keeps (is_set fields.contract_address) "Contract address is set"

  signed-Keeps : (hash role : String) → Counts (signed_hash node suite signer hash role)
  unfolding signed_hash
  signed-Keeps hash role = >>=-Keeps _ _ (fields-Keeps signer) λ fields.
      >>=-Keeps _ _ (now-Keeps node)
        λ time. >>=-Keeps _ _ (key-Keeps role) λ key. lift-Keeps (suite.web3.sign hash key)

  signing-Keeps : Counts (test_meta_transaction_signing node suite signer)
  unfolding test_meta_transaction_signing
  signing-Keeps = >>=-Keeps _ _ (signed-Keeps zero_hash "owner") λ s.
      >>=-Keeps _ _ (assert-Keeps true "Signature is not null") λ a.
        >>=-Keeps _ _ (assert-Keeps true "Signature object has signature field") λ b.
          >>=-Keeps _ _ (assert-Keeps (ltb 0 (length (codes s.signature))) "Signature has content")
            λ c.
              >>=-Keeps _ _
                (assert-Keeps (starts_with_0x (codes s.signature)) "Signature starts with 0x")
                λ d.
                  assert-Keeps (length (codes s.signature) == 132)
                    "Signature has correct length (65 bytes)"

  verification-Keeps : Counts (test_signature_verification node suite signer)
  unfolding test_signature_verification
  verification-Keeps = >>=-Keeps _ _ (signed-Keeps ones_hash "broadcaster") λ s.
      >>=-Keeps _ _ (assert-Keeps true "Signature is not null") λ a.
        >>=-Keeps _ _ (assert-Keeps true "Signature object has signature field") λ b.
          >>=-Keeps _ _
            (assert-Keeps (length (codes s.signature) == 132) "Signature has correct length")
            λ c.
              >>=-Keeps _ _
                (assert-Keeps (starts_with_0x (codes s.signature)) "Signature starts with 0x")
                λ d.
                  >>=-Keeps _ _
                    (assert-Keeps (str_eq s.signature s.signature)
                      "Signature is preserved in meta-transaction object")
                    λ e.
                      >>=-Keeps _ _ (assert-Keeps true "Signer is preserved")
                        λ f. assert-Keeps true "Handler contract is preserved"

  pub signing_suite-Keeps : Counts (execute_signing_tests node suite signer)
  unfolding execute_signing_tests
  signing_suite-Keeps =
      >>=-Keeps _ _ initialization-Keeps λ u. >>=-Keeps _ _ signing-Keeps λ v. verification-Keeps

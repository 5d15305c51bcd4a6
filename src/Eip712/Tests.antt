-- ===== src/Eip712/Tests.antt =====
-- A concrete web3 and contract, runs of the signer, and its theorems at them.
use guardian_safe.Prelude.{ℕ, suc, zero, String, ◌≡◌, refl, false, some, List, [], ◌∷◌}
use guardian_safe.Text.{same_address}
use guardian_safe.Script.{Result, ok, err}
use guardian_safe.Eip712.Value.{
  Value, absent, number, text, TxParams, TxRecord, MetaTxParams, MetaTransaction, zero_hash,
}
use guardian_safe.Eip712.Library.{Web3, Contract, SignsFor}
use guardian_safe.Eip712.Domain.{get_domain_separator}
use guardian_safe.Eip712.Signer.{
  is_new_transaction, signature_over, generate_message_hash, unsigned_meta_transaction,
  prepare_transaction_data, sign_meta_transaction, verify_signed_meta_transaction,
  create_signed_meta_transaction,
}
use guardian_safe.Eip712.Signing.{verify-sign, create_signed-parts}

abbrev encode : List String → List Value → Result String
encode _ (a ∷ b ∷ c ∷ number (suc zero) ∷ text s ∷ []) = ok s
encode _ _ = err "invalid"

-- A signature is the key, and the account of every key is `0xAB`.
abbrev web3 : Web3
web3 = record {
  keccak256 = λ s. s;
  encode_packed = λ _. "packed";
  encode_parameters = encode;
  decode_options = λ o. ok (absent, o);
  encode_function_call = λ f _ _. ok f;
  sign = λ hash key. ok (record { signature = key; address = some "0xab" });
  recover = λ hash signature. ok "0xAB";
}

abbrev tx_params : Value → TxParams
tx_params kind = record {
  indexed = false;
  requester = text "0x01";
  target = text "0x02";
  value = number 0;
  gas_limit = number 0;
  operation_type = text "0x03";
  execution_type = kind;
  execution_options = text "0x04";
}

abbrev record_of : Value → Value → TxRecord
record_of id kind = record { indexed = false; tx_id = id; params = tx_params kind }

abbrev meta_params : MetaTxParams
meta_params = record {
  chain_id = number 1;
  nonce = number 0;
  handler_contract = "0x02";
  handler_selector = "0x572be39b";
  action = 3;
  deadline = number 3600;
  max_gas_price = number 0;
  signer = "0xaB";
}

abbrev hashed : String → MetaTransaction
hashed message = record {
  tx_record = record_of (number 0) (number 2);
  params = meta_params;
  message = message;
  signature = "0x";
  payload = absent;
}

-- The node counts the calls.
abbrev contract : Contract ℕ
contract = record {
  generate_unsigned_meta_transaction_for_new = λ p q n. (ok (hashed "new"), suc n);
  generate_unsigned_meta_transaction_for_existing = λ id q n. (ok (hashed "existing"), suc n);
}

suite : Unit {0}
unfolding is_new_transaction signature_over generate_message_hash unsigned_meta_transaction
    same_address prepare_transaction_data sign_meta_transaction verify_signed_meta_transaction
    create_signed_meta_transaction get_domain_separator
suite = tt

abbrev signed : MetaTransaction
signed = record (hashed "new") { signature = "key"; payload = text "0x04" }

created :
    create_signed_meta_transaction web3 contract
      (record_of (number 0) (number 2))
      meta_params
      "key"
      4
    ≡ (ok signed, 5)
unfolding suite
created = refl

existing :
    generate_message_hash contract
      (record (hashed "") { tx_record = record_of (text "7") (number 2) })
      4
    ≡ (ok "existing", 5)
unfolding suite
existing = refl

signed_again :
    sign_meta_transaction web3 contract (hashed zero_hash) "key" 4
    ≡ (ok (record (hashed "new") { signature = "key" }), 5)
unfolding suite
signed_again = refl

signs : SignsFor web3 "key" "0xAB"
signs = record { recovered = λ hash s h. refl }

verify-sign_example :
    verify_signed_meta_transaction web3 contract (record (hashed "new") { signature = "key" }) 9
    ≡ (ok (same_address "0xAB" "0xaB"), 9)
verify-sign_example =
    verify-sign web3 contract (hashed zero_hash) (record (hashed "new") { signature = "key" }) "key"
      "0xAB" 4 5 9 signs signed_again refl

create_signed-parts_example :
    (u : MetaTransaction) × (unsigned_meta_transaction contract
        (record signed { message = zero_hash; signature = "0x" })
        4
      ≡ (ok u, 5))
    × (signed.message ≡ u.message)
    × (signed.tx_record ≡ record_of (number 0) (number 2))
    × (signed.params ≡ meta_params)
    × (prepare_transaction_data web3 (record_of (number 0) (number 2)) ≡ ok signed.payload)
    × (signature_over web3 signed.message "key" ≡ ok signed.signature)
create_signed-parts_example =
    create_signed-parts web3 contract (record_of (number 0) (number 2)) meta_params "key" signed 4 5
      created

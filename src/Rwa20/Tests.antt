-- ===== src/Rwa20/Tests.antt =====
-- A mint on a small node.
use guardian_safe.Prelude.{ℕ, suc, String, ◌≡◌, refl, true, some}
use guardian_safe.Text.{same_address}
use guardian_safe.Script.{Result, ok, pure}
use guardian_safe.Accounts.{Wallet}
use guardian_safe.Eip712.Value.{absent, number, text, MetaTxParams, MetaTransaction}
use guardian_safe.Eip712.Library.{Web3}
use guardian_safe.Eip712.Signer.{
  has_message, signature_over, generate_message_hash, sign_meta_transaction,
}
use guardian_safe.Rwa20.Signer.{
  SupplyMethods, TokenContract, mint, methods_of, generate_unsigned_meta_tx,
  sign_supply_meta_transaction, execute_meta_transaction, complete_workflow,
}
use guardian_safe.Rwa20.Signer.Executed.{SentBy, complete_workflow-Executed}

suite : Unit {0}
unfolding same_address signature_over generate_message_hash sign_meta_transaction
    generate_unsigned_meta_tx sign_supply_meta_transaction execute_meta_transaction
    complete_workflow
suite = tt

abbrev web3 : Web3
web3 = record {
  keccak256 = λ s. s;
  encode_packed = λ parts. "packed";
  encode_parameters = λ types values. ok "encoded";
  decode_options = λ v. ok (v, v);
  encode_function_call = λ name types values. ok "call";
  sign = λ hash key. ok (record { signature = "signed"; address = some "0xab" });
  recover = λ hash signature. ok "0xAB";
}

abbrev meta_params : MetaTxParams
meta_params = record {
  chain_id = number 1;
  nonce = number 0;
  handler_contract = "0x02";
  handler_selector = "0x12";
  action = 3;
  deadline = number 3600;
  max_gas_price = number 0;
  signer = "0xab";
}

abbrev unsigned : MetaTransaction
unsigned = record {
  tx_record = record {
    indexed = true;
    tx_id = text "4";
    params = record {
      indexed = true;
      requester = text "0x01";
      target = text "0x02";
      value = text "0";
      gas_limit = text "0";
      operation_type = text "0x03";
      execution_type = text "1";
      execution_options = text "0x04";
    };
  };
  params = meta_params;
  message = "0x55";
  signature = "0x";
  payload = absent;
}

abbrev methods : String → SupplyMethods ℕ String
methods receipt = record {
  generate_unsigned = λ account value params. pure unsigned;
  estimate_gas = λ m from. pure 90000;
  send = λ m from gas n. (ok receipt, suc n);
}

abbrev contract : TokenContract ℕ String
contract = record {
  signing = record {
    generate_unsigned_meta_transaction_for_new = λ p q. pure unsigned;
    generate_unsigned_meta_transaction_for_existing = λ id q. pure unsigned;
  };
  mint = methods "minted";
  burn = methods "burnt";
}

abbrev to_wei : String → Result ℕ
to_wei amount = ok 100

abbrev broadcaster : Wallet
broadcaster = record { address = "0xbb"; private_key = "key2" }

minted :
    complete_workflow web3 to_wei contract mint "0x09" "100" meta_params "key" broadcaster 4
    ≡ (ok "minted", 5)
unfolding suite
minted = refl

complete_workflow-Executed_example :
    (value : ℕ) × (u signed : MetaTransaction) × (n₁ n₂ : ℕ) × (to_wei "100" ≡ ok value)
    × ((methods_of contract mint).generate_unsigned "0x09" value meta_params 4 ≡ (ok u, n₁))
    × (sign_meta_transaction web3 contract.signing u "key" n₁ ≡ (ok signed, n₂))
    × (signature_over web3 signed.message "key" ≡ ok signed.signature)
    × (signed ≡ record u { signature = signed.signature; message = signed.message })
    × (has_message u ≡ true → signed.message ≡ u.message)
    × SentBy web3 to_wei contract mint signed broadcaster n₂ "minted" 5
complete_workflow-Executed_example =
    complete_workflow-Executed web3 to_wei contract mint "0x09" "100" meta_params "key" broadcaster
      "minted" 4 5 minted

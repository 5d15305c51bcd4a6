-- ===== src/Eip712/Signer.antt =====
-- Message hashes, signing, verification and transaction data.
use guardian_safe.Prelude.{
  String, Bool, true, false, not, ◌&&◌, ◌||◌, Option, none, some, [], ◌∷◌, if◌then◌else◌, str_eq,
  ◌==◌,
}
use guardian_safe.Text.{◌<>◌, same_address}
use guardian_safe.Script.{
  Result, ok, err, Script, pure, throw, lift, try_catch, and_then, map_result, ◌>>=◌,
}
use guardian_safe.Eip712.Value.{
  Value, absent, number, text, TxParams, TxRecord, MetaTxParams, MetaTransaction, or_indexed,
  zero_hash,
}
use guardian_safe.Eip712.Library.{Web3, Contract}

-- `metaTx.message && metaTx.message !== '0x00…'`
abbrev pub has_message : MetaTransaction → Bool
has_message m = not (str_eq m.message "") && not (str_eq m.message zero_hash)

-- `!txId || txId === '0' || txId === 0 || txId === 'undefined'`
unfoldable pub is_new_transaction : Value → Bool
is_new_transaction absent = true
is_new_transaction (number n) = n == 0
is_new_transaction (text s) = str_eq s "" || str_eq s "0" || str_eq s "undefined"

-- the arguments of the call for a new transaction
abbrev pub indexed_params : TxParams → TxParams
indexed_params p = record {
  indexed = p.indexed;
  requester = or_indexed p.indexed p.requester;
  target = or_indexed p.indexed p.target;
  value = or_indexed p.indexed p.value;
  gas_limit = or_indexed p.indexed p.gas_limit;
  operation_type = or_indexed p.indexed p.operation_type;
  execution_type = or_indexed p.indexed p.execution_type;
  execution_options = or_indexed p.indexed p.execution_options;
}

abbrev pub transaction_id : MetaTransaction → Value
transaction_id m = or_indexed m.tx_record.indexed m.tx_record.tx_id

abbrev pub generation_failed : String → String
generation_failed message = "Contract EIP-712 generation failed: " <> message

-- `signature.address || recoveredAddress`
abbrev pub signer_address : Option String → String → String
signer_address none recovered = recovered
signer_address (some a) recovered = if str_eq a "" then recovered else a

module _ (w : Web3) where
  -- `accounts.sign`, `accounts.recover` and the comparison of the two addresses
  unfoldable pub signature_over : String → String → Result String
  signature_over hash key = and_then (w.sign hash key) λ s.
      and_then (w.recover hash s.signature) λ recovered.
        if same_address recovered (signer_address s.address recovered)
        then ok s.signature
        else err "Signature verification failed"

  standard_data : Value → Result Value
  standard_data execution_options = and_then (w.decode_options execution_options) λ options.
      map_result text
        (w.encode_function_call "executeTransferOwnership" ("address" ∷ []) (options.1 ∷ []))

  -- `===` tells the number 1 from the text that web3 returns for it
  data_by_type : Value → Value → Result Value
  data_by_type (number n) execution_options =
      if n == 1
      then standard_data execution_options
      else if n == 2
      then ok execution_options
      else err "Unsupported execution type"
  data_by_type _ _ = err "Unsupported execution type"

  unfoldable pub prepare_transaction_data : TxRecord → Result Value
  unfolding data_by_type standard_data
  prepare_transaction_data r = data_by_type r.params.execution_type r.params.execution_options

module _ {N : Type 0} (contract : Contract N) where
  unfoldable pub unsigned_meta_transaction : MetaTransaction → Script N MetaTransaction
  unsigned_meta_transaction m =
      if is_new_transaction (transaction_id m)
      then contract.generate_unsigned_meta_transaction_for_new (indexed_params m.tx_record.params)
          m.params
      else contract.generate_unsigned_meta_transaction_for_existing (transaction_id m) m.params

  unfoldable pub generate_message_hash : MetaTransaction → Script N String
  generate_message_hash m =
      if has_message m
      then pure m.message
      else try_catch (do u ← unsigned_meta_transaction m; pure u.message)
          (λ message. throw (generation_failed message))

module _ {N : Type 0} (w : Web3) (contract : Contract N) where
  unfoldable pub sign_meta_transaction : MetaTransaction → String → Script N MetaTransaction
  sign_meta_transaction m key = do
    hash ← generate_message_hash contract m
    signature ← lift (signature_over w hash key)
    pure (record m { signature = signature; message = hash })

  unfoldable pub verify_signed_meta_transaction : MetaTransaction → Script N Bool
  verify_signed_meta_transaction m =
      try_catch
        (do
          hash ← generate_message_hash contract m
          recovered ← lift (w.recover hash m.signature)
          pure (same_address recovered m.params.signer))
        (λ _. pure false)

  unfoldable pub create_signed_meta_transaction :
      TxRecord → MetaTxParams → String → Script N MetaTransaction
  create_signed_meta_transaction r params key = do
    payload ← lift (prepare_transaction_data w r)
    sign_meta_transaction
        (record {
          tx_record = r;
          params = params;
          message = zero_hash;
          signature = "0x";
          payload = payload;
        })
        key

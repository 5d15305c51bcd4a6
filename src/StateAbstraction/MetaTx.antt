-- ===== src/StateAbstraction/MetaTx.antt =====
-- The verification of a signed meta-transaction.
use guardian_safe.Prelude.{ℕ, not, ◌||◌, List, [], ◌∷◌, leb, ◌==◌}
use guardian_safe.StateAbstraction.Enums.{
  status_code, action_code, execution_code, sign_meta_request_and_approve,
}
use guardian_safe.StateAbstraction.Revert.{
  Call, pure, gets, require, ◌>>=◌, ◌>>◌, no_permission, invalid_address, can_only_approve_pending,
  transaction_id_mismatch, invalid_signature, invalid_signature_length, invalid_s_value,
  invalid_v_value, ecdsa_invalid_signature, signer_not_authorized, chain_id_mismatch, invalid_nonce,
  handler_contract_mismatch, meta_tx_expired, gas_price_exceeds_max,
}
use guardian_safe.StateAbstraction.Sets.{EnumerableSet}
use guardian_safe.StateAbstraction.Types.{TxRecord, SignatureBytes, MetaTransaction, Chain, Context}
use guardian_safe.StateAbstraction.Environment.{Environment}
use guardian_safe.StateAbstraction.Roles.{action_eq, has_action_permission, has_any_role}

-- the greatest `s` of a signature that is not malleable
abbrev pub max_s : ℕ
max_s = 57896044618658097711785492504343953926418782139537452191302581570759080747168

module _ (sets : EnumerableSet) {W : Type 0} (env : Environment sets.Set W) (msg : Context) where
  -- The three strings of the domain are constants of the library.
  unfoldable pub domain_separator : ℕ
  domain_separator = env.hash_words (
      env.hash_bytes
        "EIP712Domain(string name,string version,uint256 chainId,address verifyingContract)"
      ∷ env.hash_bytes "StateAbstraction"
      ∷ env.hash_bytes "1.0.0"
      ∷ msg.chain_id
      ∷ msg.this
      ∷ [])

  abbrev pub record_words : TxRecord → List ℕ
  record_words r =
      r.tx_id
      ∷ r.params.requester
      ∷ r.params.target
      ∷ r.params.value
      ∷ r.params.gas_limit
      ∷ r.params.operation_type
      ∷ execution_code r.params.execution_type
      ∷ env.hash_bytes r.params.execution_options
      ∷ []

  -- `type_hash` is the constant TYPE_HASH
  abbrev pub struct_words : ℕ → MetaTransaction → List ℕ
  struct_words type_hash m =
      type_hash
      ∷ env.hash_words (record_words m.tx_record)
      ∷ m.params.chain_id
      ∷ m.params.nonce
      ∷ m.params.handler_contract
      ∷ m.params.handler_selector
      ∷ action_code m.params.action
      ∷ m.params.deadline
      ∷ m.params.max_gas_price
      ∷ m.params.signer
      ∷ []

  -- keccak256(abi.encodePacked("\x19\x01", domainSeparator, structHash)): the prefix is 6401
  unfoldable pub generate_message_hash : ℕ → MetaTransaction → ℕ
  generate_message_hash type_hash m =
      env.hash_words (6401 ∷ domain_separator ∷ env.hash_words (struct_words type_hash m) ∷ [])

  unfoldable pub recover_signer : ℕ → SignatureBytes → Call (Chain sets.Set W) ℕ
  recover_signer hash sig = do
    require (sig.length == 65) invalid_signature_length
    require (leb sig.s max_s) invalid_s_value
    require (sig.v == 27 || sig.v == 28) invalid_v_value
    let signer = env.ecrecover hash sig.v sig.r sig.s
    require (not (signer == 0)) ecdsa_invalid_signature
    pure signer

  unfoldable pub get_signer_nonce : ℕ → Call (Chain sets.Set W) ℕ
  get_signer_nonce signer = do
    self ← gets (λ c. c.self)
    require (has_any_role sets self msg.sender) (no_permission msg.sender)
    pure (self.signer_nonces signer)

  unfoldable pub verify_signature : ℕ → MetaTransaction → Call (Chain sets.Set W) (Unit {0})
  verify_signature type_hash m = do
    self ← gets (λ c. c.self)
    require (m.signature.length == 65) invalid_signature_length
    require (status_code m.tx_record.status == 1)
        (can_only_approve_pending (status_code m.tx_record.status))
    require (not (m.tx_record.params.requester == 0)) (invalid_address 0)
    require (m.params.chain_id == msg.chain_id) (chain_id_mismatch m.params.chain_id msg.chain_id)
    require (m.params.handler_contract == m.tx_record.params.target)
        (handler_contract_mismatch m.params.handler_contract m.tx_record.params.target)
    require (leb msg.timestamp m.params.deadline) (meta_tx_expired m.params.deadline msg.timestamp)
    require (m.params.max_gas_price == 0 || leb msg.gas_price m.params.max_gas_price)
        (gas_price_exceeds_max msg.gas_price m.params.max_gas_price)
    nonce ← get_signer_nonce m.params.signer
    require (m.params.nonce == nonce) (invalid_nonce m.params.nonce nonce)
    require
        (not (action_eq m.params.action sign_meta_request_and_approve)
          || m.tx_record.tx_id == self.tx_counter)
        (transaction_id_mismatch self.tx_counter m.tx_record.tx_id)
    recovered ← recover_signer (generate_message_hash type_hash m) m.signature
    require (recovered == m.params.signer) invalid_signature
    require
        (has_action_permission sets self m.params.signer m.params.handler_selector m.params.action)
        (signer_not_authorized m.params.signer)
    pure tt

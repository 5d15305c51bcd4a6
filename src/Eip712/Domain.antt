-- ===== src/Eip712/Domain.antt =====
-- `getDomainSeparator` and `getTypeHash`.
use guardian_safe.Prelude.{String, List, [], ◌∷◌}
use guardian_safe.Script.{Result, map_result}
use guardian_safe.Eip712.Value.{Value, text}
use guardian_safe.Eip712.Library.{Web3}

abbrev pub domain_type : String
domain_type = "EIP712Domain(string name,string version,uint256 chainId,address verifyingContract)"

abbrev pub domain_types : List String
domain_types = "bytes32" ∷ "bytes32" ∷ "bytes32" ∷ "uint256" ∷ "address" ∷ []

-- The signer's `this.chainId` (`null` before `initialize`) and `this.contractAddress`.
pub record Domain : Type 0 where
  pub chain_id : Value
  pub contract_address : Value

module _ (w : Web3) where
  abbrev pub domain_fields : Domain → List Value
  domain_fields d =
      text (w.keccak256 (w.encode_packed (domain_type ∷ [])))
      ∷ text (w.keccak256 "StateAbstraction")
      ∷ text (w.keccak256 "1")
      ∷ d.chain_id
      ∷ d.contract_address
      ∷ []

  unfoldable pub get_domain_separator : Domain → Result String
  get_domain_separator d =
      map_result w.keccak256 (w.encode_parameters domain_types (domain_fields d))

  unfoldable pub get_type_hash : String
  get_type_hash = w.keccak256 (
      w.encode_packed (
        "MetaTransaction(TxRecord txRecord,MetaTxParams params,bytes data)"
        ∷ "TxRecord(uint256 txId,uint256 releaseTime,uint8 status,TxParams params,bytes32 message,bytes result,PaymentDetails payment)"
        ∷ "TxParams(address requester,address target,uint256 value,uint256 gasLimit,bytes32 operationType,uint8 executionType,bytes executionOptions)"
        ∷ "MetaTxParams(uint256 chainId,uint256 nonce,address handlerContract,bytes4 handlerSelector,uint8 action,uint256 deadline,uint256 maxGasPrice,address signer)"
        ∷ "PaymentDetails(address recipient,uint256 nativeTokenAmount,address erc20TokenAddress,uint256 erc20TokenAmount)"
        ∷ []))

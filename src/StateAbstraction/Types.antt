-- ===== src/StateAbstraction/Types.antt =====
-- The structs of the library. Addresses, hashes and selectors are numbers, with 0 for none, and
-- `bytes` are texts. A mapping is a function.
use guardian_safe.Prelude.{ℕ, ◌^◌, String, Bool, List, if◌then◌else◌, ◌==◌}
use guardian_safe.StateAbstraction.Enums.{
  TxStatus, undefined, TxAction, ExecutionType, no_execution,
}

-- the numbers that a uint256 does not hold begin here
unfoldable pub word_size : ℕ
word_size = 2 ^ 256

pub record TxParams : Type 0 where
  pub requester : ℕ
  pub target : ℕ
  pub value : ℕ
  pub gas_limit : ℕ
  pub operation_type : ℕ
  pub execution_type : ExecutionType
  pub execution_options : String

pub record PaymentDetails : Type 0 where
  pub recipient : ℕ
  pub native_token_amount : ℕ
  pub erc20_token_address : ℕ
  pub erc20_token_amount : ℕ

pub record TxRecord : Type 0 where
  pub tx_id : ℕ
  pub release_time : ℕ
  pub status : TxStatus
  pub params : TxParams
  pub message : ℕ
  pub result : String
  pub payment : PaymentDetails

pub record MetaTxParams : Type 0 where
  pub chain_id : ℕ
  pub nonce : ℕ
  pub handler_contract : ℕ
  pub handler_selector : ℕ
  pub action : TxAction
  pub deadline : ℕ
  pub max_gas_price : ℕ
  pub signer : ℕ

-- The bytes of a signature: their number, and the words that the assembly loads.
pub record SignatureBytes : Type 0 where
  pub length : ℕ
  pub r : ℕ
  pub s : ℕ
  pub v : ℕ

pub record MetaTransaction : Type 0 where
  pub tx_record : TxRecord
  pub params : MetaTxParams
  pub message : ℕ
  pub signature : SignatureBytes
  pub payload : String

pub record FunctionPermission : Type 0 where
  pub function_selector : ℕ
  pub granted_actions : List TxAction

pub record Role (Set : Type 0) : Type 0 where
  pub role_name : String
  pub role_hash : ℕ
  pub authorized_wallets : Set
  pub function_permissions : List FunctionPermission
  pub max_wallets : ℕ
  pub wallet_count : ℕ
  pub is_protected : Bool

pub record FunctionSchema : Type 0 where
  pub function_name : String
  pub function_selector : ℕ
  pub operation_type : ℕ
  pub operation_name : String
  pub supported_actions : List TxAction

pub record SecureOperationState (Set : Type 0) : Type 0 where
  pub initialized : Bool
  pub tx_counter : ℕ
  pub time_lock_period_sec : ℕ
  pub tx_records : ℕ → TxRecord
  pub pending_transactions_set : Set
  pub roles : ℕ → Role Set
  pub supported_roles_set : Set
  pub functions : ℕ → FunctionSchema
  pub signer_nonces : ℕ → ℕ
  pub event_forwarder : ℕ

-- The contract's storage, and the rest of the chain.
pub record Chain (Set W : Type 0) : Type 0 where
  pub self : SecureOperationState Set
  pub world : W

-- `msg`, `tx`, `block` and `address(this)` during a call
pub record Context : Type 0 where
  pub sender : ℕ
  pub timestamp : ℕ
  pub chain_id : ℕ
  pub this : ℕ
  pub gas_price : ℕ

-- m[key] = value
abbrev pub update : {V : Type 0} → (ℕ → V) → ℕ → V → ℕ → V
update m key value k = if k == key then value else m k

abbrev pub no_payment : PaymentDetails
no_payment = record {
  recipient = 0;
  native_token_amount = 0;
  erc20_token_address = 0;
  erc20_token_amount = 0;
}

-- what a mapping holds where nothing was written
abbrev pub no_record : TxRecord
no_record = record {
  tx_id = 0;
  release_time = 0;
  status = undefined;
  params = record {
    requester = 0;
    target = 0;
    value = 0;
    gas_limit = 0;
    operation_type = 0;
    execution_type = no_execution;
    execution_options = "";
  };
  message = 0;
  result = "";
  payment = no_payment;
}

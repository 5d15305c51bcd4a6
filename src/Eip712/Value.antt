-- ===== src/Eip712/Value.antt =====
-- The JavaScript values that a transaction record holds, and the objects that are signed.
use guardian_safe.Prelude.{ℕ, String, Bool, false, not, ◌==◌, if◌then◌else◌, str_eq}

-- A field is `undefined` or `null`, a number, or a text; web3 returns integers as texts.
pub data Value : Type 0 where
  absent : Value
  number : ℕ → Value
  text : String → Value

abbrev pub truthy : Value → Bool
truthy absent = false
truthy (number n) = not (n == 0)
truthy (text s) = not (str_eq s "")

-- `indexed` says that the object came from web3, which stores every field under its position too.
pub record TxParams : Type 0 where
  pub indexed : Bool
  pub requester : Value
  pub target : Value
  pub value : Value
  pub gas_limit : Value
  pub operation_type : Value
  pub execution_type : Value
  pub execution_options : Value

pub record TxRecord : Type 0 where
  pub indexed : Bool
  pub tx_id : Value
  pub params : TxParams

pub record MetaTxParams : Type 0 where
  pub chain_id : Value
  pub nonce : Value
  pub handler_contract : String
  pub handler_selector : String
  pub action : ℕ
  pub deadline : Value
  pub max_gas_price : Value
  pub signer : String

-- A missing `message` is the empty text.
pub record MetaTransaction : Type 0 where
  pub tx_record : TxRecord
  pub params : MetaTxParams
  pub message : String
  pub signature : String
  pub payload : Value

-- `x.field || x[i]`
abbrev pub or_indexed : Bool → Value → Value
or_indexed indexed v = if truthy v then v else if indexed then v else absent

abbrev pub zero_hash : String
zero_hash = "0x0000000000000000000000000000000000000000000000000000000000000000"

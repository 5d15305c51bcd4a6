-- ===== src/StateAbstraction/Enums.antt =====
-- The enumerations of the library, with the numbers under which the ABI passes them.
use guardian_safe.Prelude.{ℕ, String}

pub data TxStatus : Type 0 where
  undefined pending cancelled completed failed rejected : TxStatus

pub data TxAction : Type 0 where
  execute_time_delay_request execute_time_delay_approve execute_time_delay_cancel : TxAction
  sign_meta_request_and_approve sign_meta_approve sign_meta_cancel : TxAction
  execute_meta_request_and_approve execute_meta_approve execute_meta_cancel : TxAction
  execute_update_payment : TxAction

pub data ExecutionType : Type 0 where
  no_execution standard raw : ExecutionType

unfoldable pub status_code : TxStatus → ℕ
status_code undefined = 0
status_code pending = 1
status_code cancelled = 2
status_code completed = 3
status_code failed = 4
status_code rejected = 5

unfoldable pub status_name : TxStatus → String
status_name undefined = "UNDEFINED"
status_name pending = "PENDING"
status_name cancelled = "CANCELLED"
status_name completed = "COMPLETED"
status_name failed = "FAILED"
status_name rejected = "REJECTED"

unfoldable pub action_code : TxAction → ℕ
action_code execute_time_delay_request = 0
action_code execute_time_delay_approve = 1
action_code execute_time_delay_cancel = 2
action_code sign_meta_request_and_approve = 3
action_code sign_meta_approve = 4
action_code sign_meta_cancel = 5
action_code execute_meta_request_and_approve = 6
action_code execute_meta_approve = 7
action_code execute_meta_cancel = 8
action_code execute_update_payment = 9

unfoldable pub action_name : TxAction → String
action_name execute_time_delay_request = "EXECUTE_TIME_DELAY_REQUEST"
action_name execute_time_delay_approve = "EXECUTE_TIME_DELAY_APPROVE"
action_name execute_time_delay_cancel = "EXECUTE_TIME_DELAY_CANCEL"
action_name sign_meta_request_and_approve = "SIGN_META_REQUEST_AND_APPROVE"
action_name sign_meta_approve = "SIGN_META_APPROVE"
action_name sign_meta_cancel = "SIGN_META_CANCEL"
action_name execute_meta_request_and_approve = "EXECUTE_META_REQUEST_AND_APPROVE"
action_name execute_meta_approve = "EXECUTE_META_APPROVE"
action_name execute_meta_cancel = "EXECUTE_META_CANCEL"
action_name execute_update_payment = "EXECUTE_UPDATE_PAYMENT"

unfoldable pub execution_code : ExecutionType → ℕ
execution_code no_execution = 0
execution_code standard = 1
execution_code raw = 2

unfoldable pub execution_name : ExecutionType → String
execution_name no_execution = "NONE"
execution_name standard = "STANDARD"
execution_name raw = "RAW"

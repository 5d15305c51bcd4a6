-- ===== src/SecureOwnable/Pending.antt =====
-- `checkPendingTransactions`, `cancelTransaction` and `clearPendingTransactions`.
pub mod Cleared
use guardian_safe.Prelude.{
  ℕ, ◌+◌, ◌-◌, ◌/◌, String, Bool, true, false, Option, none, some, List, [], ◌∷◌, ◌++◌,
  if◌then◌else◌, str_eq, leb,
}
use guardian_safe.Script.{Result, ok, err, Script, pure, gets, try_catch, ◌>>=◌, ◌>>◌}
use guardian_safe.SecureOwnable.Names.{ownership_transfer, broadcaster_update}
use guardian_safe.SecureOwnable.Session.{
  Transaction, Method, transfer_ownership_cancellation, update_broadcaster_cancellation, Node,
  Session, now, call_contract_method, send_transaction,
}
use guardian_safe.SecureOwnable.Roles.{get_role_wallet_object}

-- `timeRemaining` is negative once the release time has passed: here its sign is `expired`, and
-- `remaining` is its absolute value.
pub record TxDetail : Type 0 where
  pub tx_id : ℕ
  pub status : ℕ
  pub operation_type : String
  pub requester : String
  pub remaining : ℕ
  pub expired : Bool

pub record PendingCheck : Type 0 where
  pub has_pending : Bool
  pub transactions : List TxDetail

-- `currentTime` is `Math.floor(Date.now() / 1000)`.
abbrev pub detail_at : ℕ → ℕ → Transaction → TxDetail
detail_at current_time id tx = record {
  tx_id = id;
  status = tx.status;
  operation_type = tx.operation_type;
  requester = tx.requester;
  remaining =
      if leb tx.release_time current_time
      then current_time - tx.release_time
      else tx.release_time - current_time;
  expired = leb tx.release_time current_time;
}

abbrev pub no_pending : PendingCheck
no_pending = record { has_pending = false; transactions = [] }

module _ {N : Type 0} (node : Node N) where
  -- one round of the loop; a transaction that cannot be read is left out
  unfoldable pub read_detail : ℕ → Script (Session N) (List TxDetail)
  read_detail id =
      try_catch
        (do
          tx ← call_contract_method (node.get_transaction id) none
          time ← now node
          pure (detail_at (time / 1000) id tx ∷ []))
        (λ _. pure [])

  unfoldable pub read_details : List ℕ → Script (Session N) (List TxDetail)
  unfolding read_detail
  read_details [] = pure []
  read_details (id ∷ ids) = do
    detail ← read_detail id
    rest ← read_details ids
    pure (detail ++ rest)

  abbrev pub check_ids : List ℕ → Script (Session N) PendingCheck
  check_ids [] = pure no_pending
  check_ids (id ∷ ids) = do
    details ← read_details (id ∷ ids)
    pure (record { has_pending = true; transactions = details })

  unfoldable pub check_pending_transactions : Script (Session N) PendingCheck
  check_pending_transactions =
      try_catch (do ids ← call_contract_method node.get_pending_transactions none; check_ids ids)
        (λ _. pure no_pending)

  abbrev cancel_with : String → Method → Script (Session N) Bool
  cancel_with role method = do
    wallet ← get_role_wallet_object role
    send_transaction node method wallet
    pure true

  -- The recovery wallet cancels transfers of ownership, the owner's updates of the broadcaster;
  -- other operations are left.
  unfoldable pub cancel_transaction : ℕ → String → Script (Session N) Bool
  cancel_transaction id operation_type =
      try_catch
        (if str_eq operation_type ownership_transfer
          then cancel_with "recovery" (transfer_ownership_cancellation id)
          else if str_eq operation_type broadcaster_update
          then cancel_with "owner" (update_broadcaster_cancellation id)
          else pure false)
        (λ _. pure false)

  -- one round of the loop; the answer says whether `clearedCount` goes up
  unfoldable pub clear_transaction : ℕ → Script (Session N) Bool
  clear_transaction id =
      try_catch
        (do
          tx ← call_contract_method (node.get_transaction id) none
          cancel_transaction id tx.operation_type)
        (λ _. pure false)

  unfoldable pub clear_transactions : List ℕ → ℕ → Script (Session N) ℕ
  clear_transactions [] cleared_count = pure cleared_count
  clear_transactions (id ∷ ids) cleared_count = do
    success ← clear_transaction id
    clear_transactions ids (if success then cleared_count + 1 else cleared_count)

  abbrev pub is_empty : List ℕ → Bool
  is_empty [] = true
  is_empty (id ∷ ids) = false

  abbrev pub clear_ids : List ℕ → Script (Session N) Bool
  clear_ids [] = pure true
  clear_ids (id ∷ ids) = do
    cleared_count ← clear_transactions (id ∷ ids) 0
    remaining ← call_contract_method node.get_pending_transactions none
    pure (is_empty remaining)

  unfoldable pub clear_pending_transactions : Script (Session N) Bool
  clear_pending_transactions =
      try_catch (do ids ← call_contract_method node.get_pending_transactions none; clear_ids ids)
        (λ _. pure false)

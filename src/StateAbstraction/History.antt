-- ===== src/StateAbstraction/History.antt =====
-- Sequences of calls of the library, each by its own sender and at its own time. A call that reverts
-- leaves everything as it was.
pub mod Refined
pub mod Delayed
pub mod Replayed
use guardian_safe.Prelude.{ℕ, List, [], ◌∷◌}
use guardian_safe.StateAbstraction.Enums.{TxStatus}
use guardian_safe.StateAbstraction.Revert.{Outcome, returned, reverted, Call, pure, ◌>>=◌, ◌>>◌}
use guardian_safe.StateAbstraction.Sets.{EnumerableSet}
use guardian_safe.StateAbstraction.Types.{
  TxParams, PaymentDetails, TxRecord, MetaTransaction, Chain, Context,
}
use guardian_safe.StateAbstraction.Environment.{Environment}
use guardian_safe.StateAbstraction.Transactions.{
  Selectors, tx_request, tx_delayed_approval, tx_cancellation, tx_cancellation_with_meta_tx,
  tx_approval_with_meta_tx, request_and_approve, update_payment_for_transaction,
}

pub data Operation : Type 0 where
  request_tx : TxParams → Operation
  approve_delayed cancel_delayed : ℕ → Operation
  approve_meta cancel_meta request_approve_meta : MetaTransaction → Operation
  update_payment : ℕ → PaymentDetails → Operation

module _ (sets : EnumerableSet) {W : Type 0} (env : Environment sets.Set W) (k : Selectors) where
  abbrev discard : {A : Type 0} → Outcome (A × Chain sets.Set W) → Outcome (Chain sets.Set W)
  discard (returned (a, c)) = returned c
  discard (reverted e) = reverted e

  unfoldable pub perform : Context → Operation → Chain sets.Set W → Outcome (Chain sets.Set W)
  perform msg (request_tx params) c = discard (tx_request sets env k msg params c)
  perform msg (approve_delayed id) c = discard (tx_delayed_approval sets env k msg id c)
  perform msg (cancel_delayed id) c = discard (tx_cancellation sets env k msg id c)
  perform msg (approve_meta m) c = discard (tx_approval_with_meta_tx sets env k msg m c)
  perform msg (cancel_meta m) c = discard (tx_cancellation_with_meta_tx sets env k msg m c)
  perform msg (request_approve_meta m) c = discard (request_and_approve sets env k msg m c)
  perform msg (update_payment id payment) c =
      discard (update_payment_for_transaction sets env k msg id payment c)

  abbrev pub or_stay : Chain sets.Set W → Outcome (Chain sets.Set W) → Chain sets.Set W
  or_stay c (returned d) = d
  or_stay c (reverted e) = c

  unfoldable pub run : List (Context × Operation) → Chain sets.Set W → Chain sets.Set W
  run [] c = c
  run ((msg, op) ∷ ops) c = run ops (or_stay c (perform msg op c))

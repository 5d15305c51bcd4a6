-- ===== src/Workflow/Execution/Waiting.antt =====
-- How the wait for a receipt ends.
use guardian_safe.Prelude.{
  ℕ, zero, suc, ◌+◌, ◌*◌, ◌/◌, ◌≤◌, ◌<◌, String, ◌≡◌, refl, ◌⊎◌, inl, inr, some, arith, ltb,
  Bool-cases, Option-cases,
}
use guardian_safe.Text.{◌<>◌}
use guardian_safe.Script.{Result, ok, err, Result-cases}
use guardian_safe.Workflow.Execution.{WorkflowNode, wait_loop, wait_for_transaction}

-- Reading the clock changes nothing, asking for a receipt takes no negative time, and a pause takes
-- at least the time that it is asked to.
pub record Ticks {N Receipt : Type 0} (node : WorkflowNode N Receipt) (clock : N → ℕ) : Type 0 where
  pub reads : (n : N) → node.date_now n ≡ (clock n, n)
  pub asks : (tx : String) (n : N) → clock n ≤ clock (node.get_transaction_receipt tx n).1
  pub sleeps : (ms : ℕ) (n : N) → clock n + ms ≤ clock (node.sleep ms n)

module _ {N Receipt : Type 0} (node : WorkflowNode N Receipt) (clock : N → ℕ)
    (law : Ticks node clock) where
  -- A receipt that the node gave, or the error, and then the deadline has passed.
  abbrev pub Finished : String → ℕ → Result Receipt → N → Type 0
  Finished tx deadline r n =
      ((receipt : Receipt) × (asked : N) × (r ≡ ok receipt)
        × ((node.get_transaction_receipt tx asked).0 ≡ ok (some receipt)))
      ⊎ ((r ≡ err ("Transaction " <> tx <> " not confirmed within timeout")) × (deadline ≤ clock n))

  wait_loop-Finished :
      (fuel : ℕ) (tx : String) (deadline : ℕ) (n : N)
      → deadline + 1000 ≤ clock n + fuel * 1000
      → 0 < fuel
      → (r : Result Receipt) × (n' : N) × (wait_loop node fuel tx deadline n ≡ some (r, n'))
        × Finished tx deadline r n'
  unfolding wait_loop
  wait_loop-Finished zero tx deadline n h p = absurd (omega arith)
  wait_loop-Finished (suc fuel) tx deadline n h p =
      let asked = node.get_transaction_receipt tx n in
      elim (Bool-cases (ltb (clock n) deadline)) [
        | inr late ↦ (
          err ("Transaction " <> tx <> " not confirmed within timeout"),
          n,
          ground (arith, law.reads n),
          inr (refl, ground arith),
        )
        | inl early ↦
            let (r, n', run, finished) =
              wait_loop-Finished fuel tx deadline (node.sleep 1000 asked.1)
                (ground (arith, law.asks tx n, law.sleeps 1000 asked.1)) (ground arith) in
            elim (Result-cases asked.0) [
              | inr (message, e) ↦ (r, n', ground (arith, law.reads n), finished)
              | inl (o, e) ↦ elim (Option-cases o) [
                | inl missing ↦ (r, n', ground (arith, law.reads n), finished)
                | inr (receipt, f) ↦ (
                  ok receipt,
                  asked.1,
                  ground (arith, law.reads n),
                  inl (receipt, n, refl, ground arith),
                )
              ]
            ]
      ]

  -- On a clock that runs on while the script pauses, a wait for a transaction ends: with a receipt
  -- that the node gave for it, or with the error, after the timeout.
  pub wait_for_transaction-Finished :
      (tx : String) (timeout : ℕ) (n : N)
      → (r : Result Receipt) × (n' : N) × (wait_for_transaction node tx timeout n ≡ some (r, n'))
        × Finished tx (clock n + timeout) r n'
  unfolding wait_for_transaction
  wait_for_transaction-Finished tx timeout n =
      let (r, n', run, finished) =
        wait_loop-Finished (timeout / 1000 + 2) tx (clock n + timeout) n (omega arith)
          (omega arith) in
      (r, n', ground (arith, law.reads n), finished)

-- ===== src/SecureOwnable/Timelock/Stalled.antt =====
-- Waiting while no block is mined.
use guardian_safe.Prelude.{ℕ, zero, suc, ◌+◌, ◌-◌, ◌<◌, String, ◌≡◌, refl, true, none, some, arith}
use guardian_safe.Script.{ok, err}
use guardian_safe.Accounts.{Wallet}
use guardian_safe.SecureOwnable.Session.{Transaction, Node, Session, call_contract_method, caller}
use guardian_safe.SecureOwnable.Timelock.{
  max_attempts, mine_block, mine_until, advance_blockchain_time, wait_for_timelock,
}

-- A node that answers reads of the block time and fails at the price of gas.
pub record Stalls {N : Type 0} (node : Node N) (clock : N → ℕ) : Type 0 where
  pub reads : (n : N) → node.block_timestamp n ≡ (ok (clock n), n)
  pub reason : String
  pub fails : (n : N) → node.get_gas_price n ≡ (err reason, n)

module _ {N : Type 0} (node : Node N) (clock : N → ℕ) (law : Stalls node clock) where
  mine_block_stalled : (s : Session N) (t : ℕ) → mine_block node t s ≡ (ok t, s)
  unfolding mine_block
  mine_block_stalled s t = ground (arith, law.fails s.node)

  mine_until_stalled : (k target t : ℕ) (s : Session N) → mine_until node k target t s ≡ (ok t, s)
  unfolding mine_until
  mine_until_stalled zero target t s = refl
  mine_until_stalled (suc k) target t s =
      ground (arith, mine_block_stalled s t, mine_until_stalled k target t s)

  advance_stalled :
      (seconds : ℕ) (s : Session N) → advance_blockchain_time node seconds s ≡ (ok true, s)
  unfolding advance_blockchain_time
  advance_stalled seconds s = ground (
    arith,
    law.reads s.node,
    mine_until_stalled (max_attempts seconds) (clock s.node + seconds) (clock s.node) s,
  )

  -- Suppose that the block time can be read and that the price of gas is refused in every state, so
  -- that no block can be mined. Then a wait for a transaction that the node can be asked for and
  -- whose release time lies ahead returns true all the same, with nothing changed.
  pub wait_for_timelock_stalled :
      (id : ℕ) (tx : Transaction) (from : Wallet) (s : Session N)
      → caller none s ≡ some from
      → node.get_transaction id from.address s.node ≡ (ok tx, s.node)
      → clock s.node < tx.release_time
      → wait_for_timelock node id s ≡ (ok true, s)
  unfolding wait_for_timelock call_contract_method
  wait_for_timelock_stalled id tx from s c q h =
      let waited = advance_stalled (tx.release_time - clock s.node + 2) s in
      ground (arith, law.reads s.node)

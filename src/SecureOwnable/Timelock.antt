-- ===== src/SecureOwnable/Timelock.antt =====
-- `advanceBlockchainTime` and `waitForTimelock`.
pub mod Clock
pub mod Stalled
use guardian_safe.Prelude.{
  ℕ, zero, suc, ◌+◌, ◌-◌, ◌*◌, min, String, Bool, true, false, Option, none, some, if◌then◌else◌,
  ltb, leb,
}
use guardian_safe.Script.{Result, Script, pure, throw, gets, try_catch, ◌>>=◌, ◌>>◌}
use guardian_safe.Accounts.{Wallet}
use guardian_safe.SecureOwnable.Session.{
  SelfTransfer, Transaction, Node, Session, wallet_named, undefined_address, on_node,
  call_contract_method,
}

abbrev pub found_wallet1 : {S : Type 0} → Option Wallet → Script S Wallet
found_wallet1 none = throw undefined_address
found_wallet1 (some w) = pure w

-- `Math.min(30, Math.ceil(seconds * 2))`
abbrev pub max_attempts : ℕ → ℕ
max_attempts seconds = min 30 (seconds * 2)

module _ {N : Type 0} (node : Node N) where
  -- The body of the loop: it mines a block and returns the new `currentTime`, the old one if the
  -- receipt has no status or anything is thrown.
  unfoldable pub mine_block : ℕ → Script (Session N) ℕ
  mine_block current_time =
      try_catch
        (do
          found ← gets (λ s. wallet_named "wallet1" s.wallets)
          wallet ← found_wallet1 found
          gas_price ← on_node node.get_gas_price
          raw ← on_node (
              node.sign_transaction
                (record { wallet = wallet; gas = 21000; gas_price = gas_price }))
          status ← on_node (node.send_signed_transaction raw)
          if status then on_node node.block_timestamp else pure current_time)
        (λ _. pure current_time)

  -- `while (currentTime < targetTime && attempts < maxAttempts)`: the number is of the attempts
  -- that are left; the `break` is the loop's own test. The pause between attempts is left out.
  unfoldable pub mine_until : ℕ → ℕ → ℕ → Script (Session N) ℕ
  mine_until zero target_time current_time s = pure current_time s
  mine_until (suc attempts) target_time current_time s =
      let more = (do t ← mine_block current_time; mine_until attempts target_time t) s in
      if ltb current_time target_time then more else pure current_time s

  unfoldable pub advance_blockchain_time : ℕ → Script (Session N) Bool
  advance_blockchain_time seconds =
      try_catch
        (do
          initial_time ← on_node node.block_timestamp
          mine_until (max_attempts seconds) (initial_time + seconds) initial_time
          final_time ← on_node node.block_timestamp
          -- the tests on `finalTime` print only
          pure true)
        (λ _. pure false)

  -- the second try, after the block time was still too early
  abbrev wait_again : ℕ → Script (Session N) Bool
  wait_again remaining_time = do
    additional_success ← advance_blockchain_time (remaining_time + 2)
    if additional_success
        then (do final_block_time ← on_node node.block_timestamp; pure true)
        else pure true

  abbrev wait_from : ℕ → ℕ → Script (Session N) Bool
  wait_from release_time current_block_time =
      if leb release_time current_block_time then pure true else (do
        success ← advance_blockchain_time (release_time - current_block_time + 2)
        if success
            then (do
              new_block_time ← on_node node.block_timestamp
              if leb release_time new_block_time
                  then pure true
                  else wait_again (release_time - new_block_time))
            else pure true)

  unfoldable pub wait_for_timelock : ℕ → Script (Session N) Bool
  wait_for_timelock id =
      try_catch
        (do
          tx ← call_contract_method (node.get_transaction id) none
          current_block_time ← on_node node.block_timestamp
          wait_from tx.release_time current_block_time)
        (λ _. pure false)

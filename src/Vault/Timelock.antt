-- ===== src/Vault/Timelock.antt =====
-- `advanceBlockchainTime` and `waitForTimelockUntil`.
pub mod Reached
use guardian_safe.Prelude.{ℕ, zero, suc, ◌+◌, ◌-◌, Bool, true, false, if◌then◌else◌, ltb, leb}
use guardian_safe.Script.{Script, pure, gets, try_catch, ◌>>=◌, ◌>>◌}
use guardian_safe.SecureOwnable.Session.{SelfTransfer, wallet_named}
use guardian_safe.SecureOwnable.Timelock.{found_wallet1, max_attempts}
use guardian_safe.Vault.Session.{VaultNode, VaultSession, in_vault}

module _ {N : Type 0} (node : VaultNode N) where
  -- the transfer that is sent to have a block mined, and the time of the latest block then
  abbrev pub mine_transfer : Script (VaultSession N) ℕ
  mine_transfer = do
    found ← gets (λ s. wallet_named "owner" s.wallets)
    wallet ← found_wallet1 found
    gas_price ← in_vault node.get_gas_price
    raw ←
        in_vault
          (node.sign_transaction (record { wallet = wallet; gas = 21000; gas_price = gas_price }))
    in_vault (node.send_signed_transaction raw)
    in_vault node.block_timestamp

  -- The body of the loop: it returns the new `currentTime`, the old one if anything is thrown.
  unfoldable pub mine_round : ℕ → Script (VaultSession N) ℕ
  mine_round current_time = try_catch mine_transfer (λ _. pure current_time)

  -- `while (currentTime < targetTime && attempts < maxAttempts)`: the number is of the attempts
  -- that are left. The pause between attempts is left out.
  unfoldable pub mine_rounds : ℕ → ℕ → ℕ → Script (VaultSession N) ℕ
  mine_rounds zero target_time current_time s = pure current_time s
  mine_rounds (suc attempts) target_time current_time s =
      let more = (do t ← mine_round current_time; mine_rounds attempts target_time t) s in
      if ltb current_time target_time then more else pure current_time s

  -- `finalTime >= targetTime - 1`
  unfoldable pub advance_blockchain_time : ℕ → Script (VaultSession N) Bool
  advance_blockchain_time seconds =
      try_catch
        (do
          initial_time ← in_vault node.block_timestamp
          mine_rounds (max_attempts seconds) (initial_time + seconds) initial_time
          final_time ← in_vault node.block_timestamp
          pure (leb (initial_time + seconds) (final_time + 1)))
        (λ _. pure false)

  unfoldable pub wait_for_timelock_until : ℕ → Script (VaultSession N) Bool
  wait_for_timelock_until release_time = do
    current_block_time ← in_vault node.block_timestamp
    if leb release_time current_block_time
        then pure true
        else advance_blockchain_time (release_time - current_block_time + 2)

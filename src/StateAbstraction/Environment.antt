-- ===== src/StateAbstraction/Environment.antt =====
-- What a call sees of the chain: other contracts, cryptography and encodings, as parameters.
use guardian_safe.Prelude.{ℕ, String, Bool, Option, List}
use guardian_safe.StateAbstraction.Enums.{TxStatus}
use guardian_safe.StateAbstraction.Revert.{Outcome}
use guardian_safe.StateAbstraction.Types.{Chain}

-- A call of another contract may call back, so it is a change of the whole chain. What reverts in
-- the callee is undone there.
pub record Environment (Set W : Type 0) : Type 0 where
  pub gas_left : Chain Set W → ℕ
  -- target.call{value, gas}(data)
  pub call : ℕ → ℕ → ℕ → String → Chain Set W → (Bool × String) × Chain Set W
  -- address(this).balance
  pub balance : Chain Set W → ℕ
  -- erc20Token.balanceOf(address(this)) and erc20Token.safeTransfer(recipient, amount)
  pub token_balance : ℕ → Chain Set W → Outcome ℕ
  pub safe_transfer : ℕ → ℕ → ℕ → Chain Set W → Outcome (Unit {0} × Chain Set W)
  -- try forwarder.forwardTxEvent(...) { } catch { }
  pub forward_tx_event : ℕ → ℕ → String → TxStatus → Chain Set W → Chain Set W
  -- the options that `abi.decode` reads, packed to the data of a call
  pub decode_standard : String → Option String
  pub decode_raw : String → Option String
  -- keccak256(abi.encode(...)) of words, and keccak256 of bytes
  pub hash_words : List ℕ → ℕ
  pub hash_bytes : String → ℕ
  -- ecrecover(toEthSignedMessageHash(hash), v, r, s)
  pub ecrecover : ℕ → ℕ → ℕ → ℕ → ℕ

-- ===== src/SecureOwnable/Timelock/Clock.antt =====
-- Waiting against a clock.
use guardian_safe.Prelude.{
  ℕ, zero, suc, ◌+◌, ◌-◌, ◌≤◌, ◌<◌, min, String, ◌≡◌, refl, true, none, some, arith, ltb, leb,
  Bool-cases, inl, inr,
}
use guardian_safe.Script.{ok}
use guardian_safe.Accounts.{Wallet}
use guardian_safe.SecureOwnable.Session.{
  Transaction, Node, Session, wallet_named, call_contract_method, caller,
}
use guardian_safe.SecureOwnable.Timelock.{
  max_attempts, mine_block, mine_until, advance_blockchain_time, wait_for_timelock,
}

-- A transfer of the wallet to itself, as it is priced, signed and sent from the state `n`, is mined
-- in a block with a later time. The price and the signed transaction, which holds the nonce, are
-- those of this state.
pub record Mined {N : Type 0} (node : Node N) (clock : N → ℕ) (wallet : Wallet) (n mined : N)
    : Type 0 where
  pub gas_price : ℕ
  pub priced : N
  pub prices : node.get_gas_price n ≡ (ok gas_price, priced)
  pub raw : String
  pub signed : N
  pub signs :
      node.sign_transaction (record { wallet = wallet; gas = 21000; gas_price = gas_price }) priced
      ≡ (ok raw, signed)
  pub accepts : node.send_signed_transaction raw signed ≡ (ok true, mined)
  pub grows : clock n < clock mined

module _ {N : Type 0} (node : Node N) (clock : N → ℕ) (wallet : Wallet) where
  -- As many transfers as the number says are mined one after the other.
  abbrev pub Mines : ℕ → N → Type 0
  Mines zero n = Unit {0}
  Mines (suc k) n = (m : N) × (Mined node clock wallet n m) × (Mines k m)

  Mines-le : (j k : ℕ) (n : N) → j ≤ k → Mines k n → Mines j n
  Mines-le zero k n h law = tt
  Mines-le (suc j) zero n h law = absurd (omega arith)
  Mines-le (suc j) (suc k) n h law = (law.0, law.1, Mines-le j k law.0 (omega arith) law.2)

  mine_block_lem :
      (s : Session N) (t : ℕ) (n : N)
      → ((m : N) → node.block_timestamp m ≡ (ok (clock m), m))
      → wallet_named "wallet1" s.wallets ≡ some wallet
      → Mined node clock wallet s.node n
      → mine_block node t s ≡ (ok (clock n), record s { node = n })
  unfolding mine_block
  mine_block_lem s t n reads e law =
      let prices = law.prices in
      let signs = law.signs in let accepts = law.accepts in ground (arith, reads n)

module _ {N : Type 0} (node : Node N) (clock : N → ℕ) (wallet : Wallet)
    (reads : (n : N) → node.block_timestamp n ≡ (ok (clock n), n)) where
  -- The loop reaches its target, or makes every attempt.
  mine_until_lem :
      (k rest target : ℕ) (s : Session N)
      → wallet_named "wallet1" s.wallets ≡ some wallet
      → Mines node clock wallet (k + rest) s.node
      → (n : N) × (mine_until node k target (clock s.node) s
          ≡ (ok (clock n), record s { node = n }))
        × (min target (clock s.node + k) ≤ clock n)
        × (Mines node clock wallet rest n)
  unfolding mine_until
  mine_until_lem zero rest target s e law = (
    s.node,
    refl,
    omega arith,
    Mines-le node clock wallet rest (0 + rest) s.node (omega arith) law,
  )
  mine_until_lem (suc k) rest target s e law = elim (Bool-cases (ltb (clock s.node) target)) [
    | inl more ↦
        let (m, block, after) =
          Mines-le node clock wallet (suc (k + rest)) (suc k + rest) s.node (omega arith) law in
        let s₁ : Session N = record s { node = m } in
        let (n, run, late, left) = mine_until_lem k rest target s₁ e after in
        let grows = block.grows in
        (
          n,
          ground (arith, mine_block_lem node clock wallet s (clock s.node) m reads e block),
          omega arith,
          left,
        )
    | inr done ↦ (
      s.node,
      rw done,
      ground arith,
      Mines-le node clock wallet rest (suc k + rest) s.node (omega arith) law,
    )
  ]

  advance_lem :
      (seconds rest : ℕ) (s : Session N)
      → wallet_named "wallet1" s.wallets ≡ some wallet
      → Mines node clock wallet (30 + rest) s.node
      → (n : N) × (advance_blockchain_time node seconds s ≡ (ok true, record s { node = n }))
        × (clock s.node + min seconds 30 ≤ clock n)
        × (Mines node clock wallet rest n)
  unfolding advance_blockchain_time
  advance_lem seconds rest s e law =
      let k = max_attempts seconds in
      let enough = Mines-le node clock wallet (k + rest) (30 + rest) s.node (omega arith) law in
      let (n, run, late, left) = mine_until_lem k rest (clock s.node + seconds) s e enough in
      (n, ground (arith, reads s.node, reads n), omega arith, left)

  -- Suppose that the time of the latest block can be read and reading it changes nothing, and that
  -- the next sixty transfers of `wallet1` to itself, each priced and signed in the state in which
  -- it is sent, are accepted and mined in blocks with later and later times. Then a wait of the
  -- tests for a transaction that is released at most 58 seconds later returns true, and then the
  -- block time has reached the release time.
  pub wait_for_timelock_reaches :
      (id : ℕ) (tx : Transaction) (from : Wallet) (s : Session N)
      → wallet_named "wallet1" s.wallets ≡ some wallet
      → caller none s ≡ some from
      → node.get_transaction id from.address s.node ≡ (ok tx, s.node)
      → Mines node clock wallet 60 s.node
      → tx.release_time ≤ clock s.node + 58
      → (n : N) × (wait_for_timelock node id s ≡ (ok true, record s { node = n }))
        × (tx.release_time ≤ clock n)
  unfolding wait_for_timelock call_contract_method
  wait_for_timelock_reaches id tx from s e c q law h =
      let r = tx.release_time in
      elim (Bool-cases (leb r (clock s.node))) [
        | inl now ↦ (s.node, ground (arith, reads s.node), ground arith)
        | inr early ↦
            let (n₁, run₁, late₁, left) = advance_lem (r - clock s.node + 2) 30 s e law in
            elim (Bool-cases (leb r (clock n₁))) [
              | inl reached ↦ (n₁, ground (arith, reads s.node, reads n₁), ground arith)
              | inr again ↦
                  let s₁ : Session N = record s { node = n₁ } in
                  let (n₂, run₂, late₂, none_left) = advance_lem (r - clock n₁ + 2) 0 s₁ e left in
                  (n₂, ground (arith, reads s.node, reads n₁, reads n₂), ground arith)
            ]
      ]

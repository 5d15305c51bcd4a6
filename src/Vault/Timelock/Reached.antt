-- ===== src/Vault/Timelock/Reached.antt =====
-- What the answer of a wait says about the time of the latest block.
use guardian_safe.Prelude.{
  ℕ, zero, suc, ◌+◌, ◌-◌, ◌≤◌, ◌<◌, min, String, ◌≡◌, refl, sym, ◌∙◌, true, some, arith, ltb, leb,
  Bool-cases, inl, inr,
}
use guardian_safe.Script.{ok, Script, Result-cases, pure, try_catch}
use guardian_safe.Accounts.{Wallet}
use guardian_safe.SecureOwnable.Session.{wallet_named}
use guardian_safe.SecureOwnable.Timelock.{max_attempts}
use guardian_safe.Vault.Session.{VaultNode, VaultSession}
use guardian_safe.Vault.Timelock.{
  mine_transfer, mine_round, mine_rounds, advance_blockchain_time, wait_for_timelock_until,
}

-- The time of the latest block can be read, and reading changes nothing.
abbrev pub Reads : {N : Type 0} → VaultNode N → (N → ℕ) → Type 0
Reads {N = N} node clock = (n : N) → node.block_timestamp n ≡ (ok (clock n), n)

-- A transfer of the wallet to itself, as it is priced, signed and sent from the state `n`, is mined
-- in a block with a later time. The price and the signed transaction, which holds the nonce, are
-- those of this state.
pub record MinedVault {N : Type 0} (node : VaultNode N) (clock : N → ℕ) (wallet : Wallet)
    (n mined : N) : Type 0 where
  pub gas_price : ℕ
  pub priced : N
  pub prices : node.get_gas_price n ≡ (ok gas_price, priced)
  pub raw : String
  pub signed : N
  pub signs :
      node.sign_transaction (record { wallet = wallet; gas = 21000; gas_price = gas_price }) priced
      ≡ (ok raw, signed)
  pub accepts : node.send_signed_transaction raw signed ≡ (ok tt, mined)
  pub grows : clock n < clock mined

-- As many transfers as the number says are mined one after the other.
abbrev pub MinesVault : {N : Type 0} → VaultNode N → (N → ℕ) → Wallet → ℕ → N → Type 0
MinesVault node clock wallet zero n = Unit {0}
MinesVault {N = N} node clock wallet (suc k) n =
    (m : N) × (MinedVault node clock wallet n m) × (MinesVault node clock wallet k m)

-- A try with a handler that returns does not throw.
try_catch-returns :
    {S A : Type 0} (m : Script S A) (a : A) (s : S)
    → (b : A) × ((try_catch m (λ _. pure a) s).0 ≡ ok b)
try_catch-returns m a s = elim (Result-cases (m s).0) [
  | inl (b, e) ↦ (b, ground arith)
  | inr (message, e) ↦ (a, ground arith)
]

module _ {N : Type 0} (node : VaultNode N) (clock : N → ℕ) (reads : Reads node clock) where
  mine_round-returns : (t : ℕ) (s : VaultSession N) → (u : ℕ) × ((mine_round node t s).0 ≡ ok u)
  unfolding mine_round
  mine_round-returns t s = try_catch-returns (mine_transfer node) t s

  -- No round throws.
  mine_rounds-returns :
      (k target t : ℕ) (s : VaultSession N) → (u : ℕ) × ((mine_rounds node k target t s).0 ≡ ok u)
  unfolding mine_rounds
  mine_rounds-returns zero target t s = (t, refl)
  mine_rounds-returns (suc k) target t s = elim (Bool-cases (ltb t target)) [
    | inr done ↦ (t, ground arith)
    | inl more ↦
        let (u, e) = mine_round-returns t s in
        let (v, f) = mine_rounds-returns k target u (mine_round node t s).1 in (v, ground arith)
  ]

  advance_true :
      (seconds : ℕ) (s s' : VaultSession N)
      → advance_blockchain_time node seconds s ≡ (ok true, s')
      → clock s.node + seconds ≤ clock s'.node + 1
  unfolding advance_blockchain_time
  advance_true seconds s s' h =
      let (t, e) =
        mine_rounds-returns (max_attempts seconds) (clock s.node + seconds) (clock s.node) s in
      let after =
        (mine_rounds node (max_attempts seconds) (clock s.node + seconds) (clock s.node) s).1 in
      ground (arith, reads s.node, reads after.node)

  -- Whatever transfers and blocks do: when a wait of the vault's tests returns true, the time of
  -- the latest block has reached the release time.
  pub wait_for_timelock_until-true :
      (release_time : ℕ) (s s' : VaultSession N)
      → wait_for_timelock_until node release_time s ≡ (ok true, s')
      → release_time ≤ clock s'.node
  unfolding wait_for_timelock_until
  wait_for_timelock_until-true r s s' h =
      let read = reads s.node in
      elim (Bool-cases (leb r (clock s.node))) [
        | inl now ↦ ground arith
        | inr early ↦
            let run : wait_for_timelock_until node r s
                ≡ advance_blockchain_time node (r - clock s.node + 2) s =
              rw read (rw early refl) in
            let reached = advance_true (r - clock s.node + 2) s s' (sym run ∙ h) in
            omega (arith, reached)
      ]

module _ {N : Type 0} (node : VaultNode N) (clock : N → ℕ) (reads : Reads node clock)
    (wallet : Wallet) where
  MinesVault-le :
      (j k : ℕ) (n : N)
      → j ≤ k
      → MinesVault node clock wallet k n
      → MinesVault node clock wallet j n
  MinesVault-le zero k n h law = tt
  MinesVault-le (suc j) zero n h law = absurd (omega arith)
  MinesVault-le (suc j) (suc k) n h law =
      (law.0, law.1, MinesVault-le j k law.0 (omega arith) law.2)

  mine_round_lem :
      (s : VaultSession N) (t : ℕ) (n : N)
      → wallet_named "owner" s.wallets ≡ some wallet
      → MinedVault node clock wallet s.node n
      → mine_round node t s ≡ (ok (clock n), record s { node = n })
  unfolding mine_round
  mine_round_lem s t n e law =
      let read = reads n in
      let prices = law.prices in let signs = law.signs in let accepts = law.accepts in ground arith

  mine_rounds_lem :
      (k target : ℕ) (s : VaultSession N)
      → wallet_named "owner" s.wallets ≡ some wallet
      → MinesVault node clock wallet k s.node
      → (n : N) × (t : ℕ) × (mine_rounds node k target (clock s.node) s
          ≡ (ok t, record s { node = n }))
        × (min target (clock s.node + k) ≤ clock n)
  unfolding mine_rounds
  mine_rounds_lem zero target s e law = (s.node, clock s.node, refl, omega arith)
  mine_rounds_lem (suc k) target s e (m, block, after) =
      elim (Bool-cases (ltb (clock s.node) target)) [
        | inl more ↦
            let s₁ : VaultSession N = record s { node = m } in
            let (n, t, run, late) = mine_rounds_lem k target s₁ e after in
            let grows = block.grows in
            (n, t, ground (arith, mine_round_lem s (clock s.node) m e block), omega arith)
        | inr done ↦ (s.node, clock s.node, rw done refl, ground arith)
      ]

  -- Suppose that the time of the latest block can be read and reading it changes nothing, and that
  -- the next thirty transfers of the owner's wallet to itself, each priced and signed in the state
  -- in which it is sent, are accepted and mined in blocks with later and later times. Then a wait
  -- of the vault's tests for a release at most 29 seconds away returns true, and then the time of
  -- the latest block has reached the release time.
  pub wait_for_timelock_until_reaches :
      (release_time : ℕ) (s : VaultSession N)
      → wallet_named "owner" s.wallets ≡ some wallet
      → MinesVault node clock wallet 30 s.node
      → release_time ≤ clock s.node + 29
      → (n : N) × (wait_for_timelock_until node release_time s ≡ (ok true, record s { node = n }))
        × (release_time ≤ clock n)
  unfolding wait_for_timelock_until advance_blockchain_time
  wait_for_timelock_until_reaches r s e law h =
      let read = reads s.node in
      elim (Bool-cases (leb r (clock s.node))) [
        | inl now ↦ (s.node, ground arith, ground arith)
        | inr early ↦
            let d = r - clock s.node + 2 in
            let enough = MinesVault-le (max_attempts d) 30 s.node (omega arith) law in
            let (n, t, run, late) =
              mine_rounds_lem (max_attempts d) (clock s.node + d) s e enough in
            let read' = reads n in
            let far : leb (clock s.node + d) (clock n + 1) ≡ true = ground arith in
            (n, ground arith, omega arith)
      ]

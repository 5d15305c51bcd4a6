-- ===== src/Vault/Tests.antt =====
-- A small node with a vault, runs of the test base on it, and the theorems of this part at them.
use guardian_safe.Prelude.{
  ℕ, zero, suc, ◌+◌, ◌≤◌, String, ◌≡◌, refl, true, false, none, some, [], ◌∷◌, arith, if◌then◌else◌,
  str_eq,
}
use guardian_safe.Text.{same_address}
use guardian_safe.Script.{ok, err, pure, throw, gets}
use guardian_safe.Accounts.{Wallet}
use guardian_safe.SecureOwnable.Roles.{map_wallets}
use guardian_safe.SecureOwnable.Roles.Discovery.{last_at}
use guardian_safe.Vault.Session.{
  VaultNode, VaultSession, last_of, call_method, transfer_gas, send_eth, get_pending_transactions,
  get_latest_pending_tx_id,
}
use guardian_safe.Vault.Session.Ether.{Priced, send_eth-Priced}
use guardian_safe.Vault.Roles.{load_role_assignments}
use guardian_safe.Vault.Roles.Fallback.{load_role_assignments_lem}
use guardian_safe.Vault.Timelock.{
  mine_round, mine_rounds, advance_blockchain_time, wait_for_timelock_until,
}
use guardian_safe.Vault.Timelock.Reached.{
  Reads, MinesVault, wait_for_timelock_until-true, wait_for_timelock_until_reaches,
}

suite : Unit {0}
unfolding last_of call_method transfer_gas send_eth get_pending_transactions same_address
    map_wallets get_latest_pending_tx_id load_role_assignments mine_round mine_rounds
    advance_blockchain_time wait_for_timelock_until last_at
suite = tt

-- The state of the node is the time of its latest block. Each transaction takes five seconds. The
-- contract has no broadcaster, and a transfer to the vault cannot be estimated.
abbrev node : VaultNode ℕ
node = record {
  owner = λ from. pure "0xaa";
  get_broadcaster = λ from. throw "no such method";
  get_recovery = λ from. pure "0xCC";
  get_pending_transactions = λ from. pure (3 ∷ 8 ∷ []);
  get_gas_price = pure 1;
  sign_transaction = λ t. pure "0xraw";
  send_signed_transaction = λ raw n. (ok tt, n + 5);
  block_timestamp = gets (λ n. n);
  to_wei = λ amount. pure 7;
  estimate_gas = λ t. if str_eq t.to "0xvault" then throw "reverted" else pure 21001;
  send_transaction = λ t gas n. (ok tt, n + 5);
}

abbrev wallet_at : String → Wallet
wallet_at address = record { address = address; private_key = "key" }

abbrev ready : VaultSession ℕ
ready = record {
  node = 100;
  wallets =
      ("owner", wallet_at "0xAA")
      ∷ ("broadcaster", wallet_at "0xbb")
      ∷ ("recovery", wallet_at "0xcc")
      ∷ [];
  roles = record { owner = none; broadcaster = none; recovery = none };
  role_wallets = record { owner = none; broadcaster = none; recovery = none };
  test_results = record {
    total_tests = 0;
    passed_tests = 0;
    failed_tests = 0;
    start_time = none;
    end_time = none;
  };
}

latest : get_latest_pending_tx_id node ready ≡ (ok (some 8), ready)
unfolding suite
latest = refl

reads : Reads node (λ n. n)
reads n = refl

mines : (k n : ℕ) → MinesVault node (λ m. m) (wallet_at "0xAA") k n
mines zero n = tt
mines (suc k) n = (
  n + 5,
  record {
    gas_price = 1;
    priced = n;
    prices = refl;
    raw = "0xraw";
    signed = n;
    signs = refl;
    accepts = refl;
    grows = omega arith;
  },
  mines k (n + 5),
)

waited : wait_for_timelock_until node 111 ready ≡ (ok true, record ready { node = 115 })
unfolding suite
waited = refl

too_far : wait_for_timelock_until node 1000 ready ≡ (ok false, record ready { node = 250 })
unfolding suite
too_far = refl

wait_for_timelock_until-true_example : 111 ≤ 115
wait_for_timelock_until-true_example =
    wait_for_timelock_until-true node (λ n. n) reads 111 ready (record ready { node = 115 }) waited

wait_for_timelock_until_reaches_example :
    (n : ℕ) × (wait_for_timelock_until node 111 ready ≡ (ok true, record ready { node = n }))
    × (111 ≤ n)
wait_for_timelock_until_reaches_example =
    wait_for_timelock_until_reaches node (λ n. n) reads (wallet_at "0xAA") 111 ready refl
      (mines 30 ready.node) (omega arith)

load_role_assignments_lem_example : load_role_assignments node ready ≡ (
  ok tt,
  record ready {
    roles = record { owner = some "0xaa"; broadcaster = some "0xaa"; recovery = some "0xCC" };
    role_wallets = record {
      owner = some (wallet_at "0xAA");
      broadcaster = some (wallet_at "0xAA");
      recovery = some (wallet_at "0xcc");
    };
  },
)
unfolding suite
load_role_assignments_lem_example =
    load_role_assignments_lem node ready (wallet_at "0xAA") "0xaa" (err "no such method")
      (ok "0xCC") 100 100 100 refl refl refl refl

funded : send_eth node "0xvault" "1" none ready ≡ (ok tt, record ready { node = 105 })
unfolding suite
funded = refl

-- The transfer to the vault cannot be estimated, so that the gas is 80000.
send_eth-Priced_example :
    (value gas n₁ n₂ : ℕ) × (node.to_wei "1" 100 ≡ (ok value, n₁))
    × Priced node (record { from = "0xAA"; to = "0xvault"; value = value }) gas n₁ n₂
    × (node.send_transaction (record { from = "0xAA"; to = "0xvault"; value = value }) gas n₂
        ≡ (ok tt, 105))
    × (record ready { node = 105 } ≡ record ready { node = 105 })
unfolding suite
send_eth-Priced_example =
    send_eth-Priced node "0xvault" "1" "0xAA" none ready (record ready { node = 105 }) refl funded

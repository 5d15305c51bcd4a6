-- ===== src/Workflow/Execution.antt =====
-- `findWalletByAddress`, `initializeRoles`, `executeTest` and `waitForTransaction`.
pub mod Counted
pub mod Waiting
use guardian_safe.Prelude.{
  ℕ, zero, suc, ◌+◌, ◌/◌, String, Bool, true, false, Option, none, some, List, [], ◌∷◌, ◌++◌, ltb,
  if◌then◌else◌,
}
use guardian_safe.Text.{◌<>◌, same_address}
use guardian_safe.Script.{
  Result, ok, err, Script, pure, throw, lift, gets, modify, try_catch, ◌>>=◌, ◌>>◌,
}
use guardian_safe.Accounts.{Wallet}

-- The first of the wallets at the address; `null` is `none`.
unfoldable pub find_wallet_by_address : List (String × Wallet) → String → Option Wallet
find_wallet_by_address [] address = none
find_wallet_by_address ((key, w) ∷ ws) address =
    if same_address w.address address then some w else find_wallet_by_address ws address

pub record WorkflowRoles : Type 0 where
  pub owner : String
  pub broadcaster : String
  pub recovery : String

pub record WorkflowRoleWallets : Type 0 where
  pub owner : Option Wallet
  pub broadcaster : Option Wallet
  pub recovery : Option Wallet

pub record TestError : Type 0 where
  pub test : String
  pub error : String

pub record WorkflowResults : Type 0 where
  pub total_tests : ℕ
  pub passed_tests : ℕ
  pub failed_tests : ℕ
  pub errors : List TestError

-- The object `this` of a workflow test, next to the node.
pub record WorkflowTest (N : Type 0) : Type 0 where
  pub node : N
  pub wallets : List (String × Wallet)
  pub roles : Option WorkflowRoles
  pub role_wallets : Option WorkflowRoleWallets
  pub test_results : WorkflowResults

-- The calls of the contract and the node; `receipt` is a parameter, and a missing receipt `none`.
pub record WorkflowNode (N : Type 0) (Receipt : Type 0) : Type 0 where
  pub owner : Script N String
  pub get_broadcaster : Script N String
  pub get_recovery : Script N String
  pub get_transaction_receipt : String → Script N (Option Receipt)
  pub date_now : N → ℕ × N
  pub sleep : ℕ → N → N

module _ {N Receipt : Type 0} (node : WorkflowNode N Receipt) where
  abbrev pub in_node : {A : Type 0} → Script N A → Script (WorkflowTest N) A
  in_node m s = let (r, n) = m s.node in (r, record s { node = n })

  unfoldable pub initialize_roles : Script (WorkflowTest N) (Unit {0})
  initialize_roles = do
    owner ← in_node node.owner
    broadcaster ← in_node node.get_broadcaster
    recovery ← in_node node.get_recovery
    modify (λ s. record s {
      roles = some (record { owner = owner; broadcaster = broadcaster; recovery = recovery });
      role_wallets = some (record {
        owner = find_wallet_by_address s.wallets owner;
        broadcaster = find_wallet_by_address s.wallets broadcaster;
        recovery = find_wallet_by_address s.wallets recovery;
      });
    })

  -- One fuel for each round; `none` means that the fuel ran out.
  unfoldable pub wait_loop : ℕ → String → ℕ → N → Option (Result Receipt × N)
  wait_loop zero tx_hash deadline n = none
  wait_loop (suc fuel) tx_hash deadline n =
      let (t, n₁) = node.date_now n in
      let (r, n₂) = node.get_transaction_receipt tx_hash n₁ in
      let again = wait_loop fuel tx_hash deadline (node.sleep 1000 n₂) in
      if ltb t deadline
      then elim r [
        | ok o ↦ elim o [ some receipt ↦ some (ok receipt, n₂) | none ↦ again ]
        | err message ↦ again
      ]
      else some (err ("Transaction " <> tx_hash <> " not confirmed within timeout"), n₁)

  -- `Date.now() - startTime < timeout` is `Date.now() < startTime + timeout`. The number in the
  -- message of the error is left out.
  unfoldable pub wait_for_transaction : String → ℕ → N → Option (Result Receipt × N)
  wait_for_transaction tx_hash timeout n =
      let (start, n₁) = node.date_now n in
      wait_loop (timeout / 1000 + 2) tx_hash (start + timeout) n₁

abbrev pub count_total : WorkflowResults → WorkflowResults
count_total r = record r { total_tests = r.total_tests + 1 }

module _ {N : Type 0} where
  -- The stack of an error is left out.
  unfoldable pub execute_test :
      String → Script (WorkflowTest N) (Unit {0}) → Script (WorkflowTest N) Bool
  execute_test name test = do
    modify (λ s. record s { test_results = count_total s.test_results })
    try_catch
        (do
          test
          modify (λ s. record s {
            test_results = record s.test_results { passed_tests = s.test_results.passed_tests + 1 };
          })
          pure true)
        (λ message. do
          modify (λ s. record s {
            test_results = record s.test_results {
              failed_tests = s.test_results.failed_tests + 1;
              errors = s.test_results.errors ++ record { test = name; error = message } ∷ [];
            };
          })
          pure false)

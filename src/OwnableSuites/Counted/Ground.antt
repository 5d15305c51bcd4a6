-- ===== src/OwnableSuites/Counted/Ground.antt =====
-- The operations of the test base.
use guardian_safe.Prelude.{
  ℕ, zero, suc, ◌+◌, ◌/◌, ◌++◌, String, Bool, true, false, Option, none, some, List, [], ◌∷◌,
  if◌then◌else◌, ltb,
}
use guardian_safe.Script.{Result, ok, lift}
use guardian_safe.Accounts.{Wallet}
use guardian_safe.SecureOwnable.Session.{
  RoleWallets, FunctionPermission, Node, Session, wallet_named, now,
}
use guardian_safe.SecureOwnable.Roles.{
  role_wallet, found_wallet, get_role_wallet_object, get_role_wallet,
}
use guardian_safe.SecureOwnable.Pending.{
  detail_at, no_pending, read_detail, read_details, check_ids, check_pending_transactions,
}
use guardian_safe.SecureOwnable.Permissions.{
  Permission, get_role_hash, function_permission, timeout_error, check_permission, read_permissions,
  validate_permission, validate_workflow_permissions,
}
use guardian_safe.SecureOwnable.Timelock.{
  found_wallet1, max_attempts, mine_block, mine_until, advance_blockchain_time,
}
use guardian_safe.SecureOwnable.Run.{assert_test}
use guardian_safe.SecureOwnable.Run.Counts.{IsCounted, assert_test-KeepsCount}
use guardian_safe.OwnableSuites.Counted.Base.{
  Keeps, pure-Keeps, throw-Keeps, on_node-Keeps, >>=-Keeps, gets-Keeps, try_catch-Keeps, if-Keeps,
  call-Keeps,
}

module _ {N : Type 0} {K : RoleWallets → Type 0} where
  pub lift-Keeps : {A : Type 0} (r : Result A) → Keeps K (lift {S = Session N} r)
  lift-Keeps r = record { at = λ s h. h; kept = λ s h. h }

  pub assert-Keeps : (b : Bool) (message : String) → Keeps K (assert_test {N = N} b message)
  unfolding assert_test
  assert-Keeps true message = record {
    at = (assert_test-KeepsCount true message).at;
    kept = λ s h. h;
  }
  assert-Keeps false message = record {
    at = (assert_test-KeepsCount false message).at;
    kept = λ s h. h;
  }

  found-Keeps : (name : String) (w : Option Wallet) → Keeps K (found_wallet {S = Session N} name w)
  found-Keeps name none = throw-Keeps _
  found-Keeps name (some w) = pure-Keeps _

  pub wallet-Keeps : (name : String) → Keeps K (get_role_wallet_object {N = N} name)
  unfolding get_role_wallet_object
  wallet-Keeps name = gets-Keeps (λ s. role_wallet name s.role_wallets) _ λ w. found-Keeps name w

  pub key-Keeps : (name : String) → Keeps K (get_role_wallet {N = N} name)
  unfolding get_role_wallet
  key-Keeps name = >>=-Keeps _ _ (wallet-Keeps name) λ w. pure-Keeps w.private_key

module _ {N : Type 0} {K : RoleWallets → Type 0} (node : Node N) where
  pub now-Keeps : Keeps K (now node)
  now-Keeps = record { at = λ s h. h; kept = λ s h. h }

  read_detail-Keeps : (id : ℕ) → Keeps K (read_detail node id)
  unfolding read_detail
  read_detail-Keeps id =
      try_catch-Keeps _ _
        (>>=-Keeps _ _ (call-Keeps _ _)
          λ tx. >>=-Keeps _ _ now-Keeps λ time. pure-Keeps (detail_at (time / 1000) id tx ∷ []))
        (λ message. pure-Keeps [])

  read_details-Keeps : (ids : List ℕ) → Keeps K (read_details node ids)
  unfolding read_details
  read_details-Keeps [] = pure-Keeps []
  read_details-Keeps (id ∷ ids) =
      >>=-Keeps _ _ (read_detail-Keeps id)
        λ detail. >>=-Keeps _ _ (read_details-Keeps ids) λ rest. pure-Keeps (detail ++ rest)

  check_ids-Keeps : (ids : List ℕ) → Keeps K (check_ids node ids)
  check_ids-Keeps [] = pure-Keeps no_pending
  check_ids-Keeps (id ∷ ids) =
      >>=-Keeps _ _ (read_details-Keeps (id ∷ ids))
        λ details. pure-Keeps (record { has_pending = true; transactions = details })

  pub check-Keeps : Keeps K (check_pending_transactions node)
  unfolding check_pending_transactions
  check-Keeps =
      try_catch-Keeps _ _ (>>=-Keeps _ _ (call-Keeps _ _) λ ids. check_ids-Keeps ids)
        (λ message. pure-Keeps no_pending)

  checked-Keeps :
      (q : Permission) (p : Option FunctionPermission)
      → Keeps K (check_permission {S = Session N} q p)
  unfolding check_permission
  checked-Keeps q none = throw-Keeps _
  checked-Keeps q (some p) = if-Keeps _ _ _ (pure-Keeps _) (throw-Keeps _)

  read-Keeps :
      (keccak256 : String → String) (hash : String) → Keeps K (read_permissions node keccak256 hash)
  read-Keeps keccak256 hash = >>=-Keeps _ _ (on_node-Keeps node.timed_out) λ late.
      if-Keeps late _ _ (throw-Keeps timeout_error)
        (call-Keeps (node.get_role_permission hash) none)

  validate_one-Keeps :
      (keccak256 : String → String) (q : Permission)
      → Keeps K (validate_permission node keccak256 q)
  unfolding validate_permission
  validate_one-Keeps keccak256 q =
      >>=-Keeps _ _ (read-Keeps keccak256 (get_role_hash keccak256 q.role))
        λ permissions. checked-Keeps q (function_permission q.function_selector permissions)

  pub validate-Keeps :
      (keccak256 : String → String) (qs : List Permission)
      → Keeps K (validate_workflow_permissions node keccak256 qs)
  unfolding validate_workflow_permissions
  validate-Keeps keccak256 [] = pure-Keeps _
  validate-Keeps keccak256 (q ∷ qs) =
      >>=-Keeps _ _ (validate_one-Keeps keccak256 q) λ u. validate-Keeps keccak256 qs

  found1-Keeps : (w : Option Wallet) → Keeps K (found_wallet1 {S = Session N} w)
  found1-Keeps none = throw-Keeps _
  found1-Keeps (some w) = pure-Keeps _

  mine-Keeps : (t : ℕ) → Keeps K (mine_block node t)
  unfolding mine_block
  mine-Keeps t =
      try_catch-Keeps _ _
        (gets-Keeps (λ s. wallet_named "wallet1" s.wallets) _
          λ found. >>=-Keeps _ _ (found1-Keeps found) λ w.
            >>=-Keeps _ _ (on_node-Keeps node.get_gas_price) λ price.
              >>=-Keeps _ _
                (on_node-Keeps
                  (node.sign_transaction (record { wallet = w; gas = 21000; gas_price = price })))
                λ raw.
                  >>=-Keeps _ _ (on_node-Keeps (node.send_signed_transaction raw)) λ status.
                    if-Keeps status _ _ (on_node-Keeps node.block_timestamp) (pure-Keeps t))
        (λ message. pure-Keeps t)

  mine_until-Keeps : (n target t : ℕ) → Keeps K (mine_until node n target t)
  unfolding mine_until
  mine_until-Keeps zero target t = pure-Keeps t
  mine_until-Keeps (suc n) target t =
      let again = >>=-Keeps _ _ (mine-Keeps t) (λ u. mine_until-Keeps n target u) in
      record {
        at = λ s h. either (λ u. IsCounted u.test_results) (ltb t target) s _ (again.at s h) h;
        kept = λ s h. either (λ u. K u.role_wallets) (ltb t target) s _ (again.kept s h) h;
      }
    where
      either :
          (I : Session N → Type 0) (b : Bool) (s : Session N) (x : Result ℕ × Session N)
          → I x.1
          → I s
          → I (if b then x else (ok t, s)).1
      either I true s x p q = p
      either I false s x p q = q

  pub advance-Keeps : (seconds : ℕ) → Keeps K (advance_blockchain_time node seconds)
  unfolding advance_blockchain_time
  advance-Keeps seconds =
      try_catch-Keeps _ _
        (>>=-Keeps _ _ (on_node-Keeps node.block_timestamp) λ t.
          >>=-Keeps _ _ (mine_until-Keeps (max_attempts seconds) (t + seconds) t)
            λ u. >>=-Keeps _ _ (on_node-Keeps node.block_timestamp) λ v. pure-Keeps true)
        (λ message. pure-Keeps false)

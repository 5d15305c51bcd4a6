-- ===== src/OwnableSuites/Confirmed/Updates.antt =====
-- What an update of the recovery address, or of the time lock, that passes has done.
use guardian_safe.Prelude.{ℕ, String, ◌≡◌, refl, Bool, true, false, none, some, arith, ◌==◌, ==_iff}
use guardian_safe.Text.{◌<>◌, same_address}
use guardian_safe.Script.{Result, ok, err, Script, >>=-eq-ok, recover, throw, ◌>>=◌, ◌>>◌}
use guardian_safe.SecureOwnable.Session.{
  update_recovery_request_and_approve, update_time_lock_request_and_approve, Node, Session,
  call_contract_method,
}
use guardian_safe.SecureOwnable.Run.{assert_test}
use guardian_safe.OwnableSuites.{SuiteNode}
use guardian_safe.OwnableSuites.MetaTx.{sign_and_send_new}
use guardian_safe.OwnableSuites.Recovery.{follow_recovery, test_recovery_change}
use guardian_safe.OwnableSuites.TimelockPeriod.{verify_timelock, test_timelock_change}
use guardian_safe.OwnableSuites.Confirmed.{through, call_lem, assert_lem}

module _ {N : Type 0} (node : Node N) (suite : SuiteNode N) where
  asserted_lem :
      (b : Bool) (message : String) (m : Script (Session N) (Unit {0})) (s t : Session N)
      → (assert_test b message >> m) s ≡ (ok tt, t)
      → (b ≡ true) × (u : Session N) × (u.node ≡ s.node) × (m u ≡ (ok tt, t))
  unfolding assert_test
  asserted_lem true message m s t h = (refl, _, refl, h)
  asserted_lem false message m s t h = cc

  returned :
      (prefix : String) (r : Result (Unit {0}) × Session N) (t : Session N)
      → recover {S = Session N} (λ message. throw (prefix <> message)) r.0 r.1 ≡ (ok tt, t)
      → r ≡ (ok tt, t)
  returned prefix (ok u, s) t h = h
  returned prefix (err message, s) t h = cc

  verify_lem :
      (seconds : ℕ) (digits : String) (s t : Session N)
      → verify_timelock node suite seconds digits s ≡ (ok tt, t)
      → (call_contract_method suite.get_time_lock_period_sec none >>= λ updated.
            assert_test
              (updated == seconds)
              ("Timelock period updated to " <> digits <> " second(s)"))
          s
        ≡ (ok tt, t)
  unfolding verify_timelock
  verify_lem seconds digits s t h = returned "Timelock period update verification failed: " _ t h

  follow_lem :
      (new : String) (s t : Session N)
      → follow_recovery node suite new s ≡ (ok tt, t)
      → (t.roles ≡ s.roles) × (t.node ≡ s.node)
  unfolding follow_recovery
  follow_lem new s t h = ground arith

  -- A change of the recovery address that passes has read, as the last thing that it did on the
  -- node, a recovery address that is the new one, and has recorded it as the recovery role's.
  pub test_recovery_change_lem :
      (new description : String) (s t : Session N)
      → test_recovery_change node suite new description s ≡ (ok tt, t)
      → (from updated : String) × (n : N) × (node.get_recovery from n ≡ (ok updated, t.node))
        × (same_address updated new ≡ true)
        × (t.roles.recovery ≡ some updated)
  unfolding test_recovery_change
  test_recovery_change_lem new description s t h =
      through (call_contract_method (suite.update_recovery_execution_options new) none) _ s h
        λ options s₁ h₁.
          through
            (sign_and_send_new node suite "0x2aa09cf6" "RECOVERY_UPDATE"
              update_recovery_request_and_approve description options)
            _ s₁ h₁
            λ u s₂ h₂.
              let (updated, read, h₃) =
                >>=-eq-ok (call_contract_method node.get_recovery none) _ s₂ h₂ in
              let s₃ = (call_contract_method node.get_recovery none s₂).1 in
              let ((from, answered), roles, wallets) =
                call_lem node.get_recovery none s₂ updated read in
              let (holds, s₄, same, h₄) =
                asserted_lem (same_address updated new) ("Recovery address updated to " <> new) _ s₃
                  t h₃ in
              let (roles', node') = follow_lem new _ t h₄ in
              (from, updated, s₂.node, ground arith, holds, ground arith)

  -- A change of the time lock that passes has read the new period from the node, as the last thing
  -- that it did there.
  pub test_timelock_change_lem :
      (seconds : ℕ) (digits description : String) (s t : Session N)
      → test_timelock_change node suite seconds digits description s ≡ (ok tt, t)
      → (from : String) × (n : N) × (suite.get_time_lock_period_sec from n ≡ (ok seconds, t.node))
  unfolding test_timelock_change
  test_timelock_change_lem seconds digits description s t h =
      through (call_contract_method (suite.update_time_lock_execution_options seconds) none) _ s h
        λ options s₁ h₁.
          through
            (sign_and_send_new node suite "0x59474230" "TIMELOCK_UPDATE"
              update_time_lock_request_and_approve description options)
            _ s₁ h₁
            λ u s₂ h₂.
              let (updated, read, h₃) =
                >>=-eq-ok (call_contract_method suite.get_time_lock_period_sec none) _ s₂
                  (verify_lem seconds digits s₂ t h₂) in
              let s₃ = (call_contract_method suite.get_time_lock_period_sec none s₂).1 in
              let ((from, answered), roles, wallets) =
                call_lem suite.get_time_lock_period_sec none s₂ updated read in
              let (holds, same, roles', wallets') =
                assert_lem (updated == seconds)
                  ("Timelock period updated to " <> digits <> " second(s)") s₃ t h₃ in
              let e = (==_iff updated seconds).0 holds in (from, s₂.node, ground arith)

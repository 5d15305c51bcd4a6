-- ===== src/StateAbstraction/Revert.antt =====
-- Contract code as state passing: a call returns a value and the next state, or reverts, and then
-- the state before the call stays. The errors are those of contracts/utils/SharedValidation.sol.
use guardian_safe.Prelude.{ℕ, ◌≡◌, refl, Bool, true, false, if◌then◌else◌}

pub data Revert : Type 0 where
  no_permission no_permission_execute invalid_address : ℕ → Revert
  can_only_approve_pending : ℕ → Revert
  before_release_time : ℕ → ℕ → Revert
  transaction_not_found request_already_pending : ℕ → Revert
  transaction_id_mismatch : ℕ → ℕ → Revert
  invalid_signature invalid_signature_length invalid_s_value invalid_v_value : Revert
  ecdsa_invalid_signature : Revert
  signer_not_authorized : ℕ → Revert
  chain_id_mismatch invalid_nonce handler_contract_mismatch meta_tx_expired : ℕ → ℕ → Revert
  gas_price_exceeds_max insufficient_balance : ℕ → ℕ → Revert
  payment_failed : ℕ → ℕ → Revert
  function_does_not_exist : ℕ → Revert
  role_name_empty : Revert
  role_already_exists cannot_remove_protected_role : Revert
  role_wallet_limit_reached : ℕ → ℕ → Revert
  wallet_already_in_role old_wallet_not_found cannot_remove_last_wallet : ℕ → Revert
  action_not_supported : Revert
  conflicting_meta_tx_permissions function_permission_exists : ℕ → Revert
  time_lock_period_zero already_initialized : Revert
  -- a failure of `abi.decode`, of checked arithmetic, or of a callee
  panic : Revert

pub data Outcome (A : Type 0) : Type 0 where
  returned : A → Outcome A
  reverted : Revert → Outcome A

abbrev pub Call : Type 0 → Type 0 → Type 0
Call C A = C → Outcome (A × C)

module _ {C : Type 0} where
  unfoldable pub pure : {A : Type 0} → A → Call C A
  pure a c = returned (a, c)

  unfoldable pub revert : {A : Type 0} → Revert → Call C A
  revert e c = reverted e

  unfoldable pub gets : {A : Type 0} → (C → A) → Call C A
  gets f c = returned (f c, c)

  unfoldable pub modify : (C → C) → Call C (Unit {0})
  modify f c = returned (tt, f c)

  -- if (!condition) revert error;
  unfoldable pub require : Bool → Revert → Call C (Unit {0})
  unfolding pure revert
  require condition error = if condition then pure tt else revert error

  abbrev pub continue : {A B : Type 0} → Outcome (A × C) → (A → Call C B) → Outcome (B × C)
  continue (returned (a, c)) f = f a c
  continue (reverted e) f = reverted e

  infixl 10 ◌>>=◌ ◌>>◌
  unfoldable pub ◌>>=◌ : {A B : Type 0} → Call C A → (A → Call C B) → Call C B
  ◌>>=◌ m f c = continue (m c) f

  abbrev pub ◌>>◌ : {A B : Type 0} → Call C A → Call C B → Call C B
  m >> n = m >>= λ _. n

  continue-returned :
      {A B : Type 0} (o : Outcome (A × C)) (f : A → Call C B) {b : B} {c' : C}
      → continue o f ≡ returned (b, c')
      → (a : A) × (c₁ : C) × (o ≡ returned (a, c₁)) × (f a c₁ ≡ returned (b, c'))
  continue-returned (returned (a, c)) f h = (a, c, refl, h)
  continue-returned (reverted e) f h = cc

  -- A call that went on from another has its intermediate result and state.
  pub >>=-returned :
      {A B : Type 0} (m : Call C A) (f : A → Call C B) (c : C) {b : B} {c' : C}
      → (m >>= f) c ≡ returned (b, c')
      → (a : A) × (c₁ : C) × (m c ≡ returned (a, c₁)) × (f a c₁ ≡ returned (b, c'))
  unfolding ◌>>=◌
  >>=-returned m f c h = continue-returned (m c) f h

  -- What comes after a check that was passed.
  pub require-returned :
      {B : Type 0} (b : Bool) (e : Revert) (m : Call C B) (c : C) {x : B} {c' : C}
      → (require b e >> m) c ≡ returned (x, c')
      → (b ≡ true) × (m c ≡ returned (x, c'))
  unfolding ◌>>=◌ require pure
  require-returned true e m c h = (refl, h)
  require-returned false e m c h = cc

  -- What comes after a reading.
  pub gets-returned :
      {A B : Type 0} (f : C → A) (g : A → Call C B) (c : C) {x : B} {c' : C}
      → (gets f >>= g) c ≡ returned (x, c')
      → g (f c) c ≡ returned (x, c')
  unfolding ◌>>=◌ gets
  gets-returned f g c h = h

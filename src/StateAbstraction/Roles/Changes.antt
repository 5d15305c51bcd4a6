-- ===== src/StateAbstraction/Roles/Changes.antt =====
-- Sequences of changes of the roles. A change that reverts leaves everything as it was.
use guardian_safe.Prelude.{
  ℕ, ◌≡◌, refl, sym, subst, Bool, true, false, String, List, [], ◌∷◌, ◌++◌, any, every, ◌&&◌, arith,
  if◌then◌else◌, ◌==◌, ==_iff,
}
use guardian_safe.StateAbstraction.Revert.{
  Outcome, returned, reverted, pure, revert, gets, modify, require, ◌>>=◌,
}
use guardian_safe.StateAbstraction.Sets.{EnumerableSet}
use guardian_safe.StateAbstraction.Types.{FunctionPermission, update}
use guardian_safe.StateAbstraction.Roles.{
  State, create_role, assign_wallet, update_assigned_wallet, revoke_wallet, add_function_to_role,
  set_role, is_action_supported_by_function, is_meta_sign, is_meta_execute,
}

pub data RoleChange : Type 0 where
  create : String → ℕ → ℕ → Bool → RoleChange
  assign revoke : ℕ → ℕ → RoleChange
  replace : ℕ → ℕ → ℕ → RoleChange
  add_function : ℕ → FunctionPermission → RoleChange

-- What holds of every role still holds where one is written of which it holds.
pub update_all {ℓ} :
    {V : Type 0} (P : ℕ → V → Type ℓ) (f : ℕ → V) (r : ℕ) (v : V)
    → ((k : ℕ) → P k (f k))
    → P r v
    → (k : ℕ) → P k (update f r v k)
update_all P f r v all one k = go (k == r) (λ e. subst (λ j. P j v) (sym ((==_iff k r).0 e)) one)
  where
    go : (b : Bool) → (b ≡ true → P k v) → P k (if b then v else f k)
    go true new = new refl
    go false new = all k

module _ (sets : EnumerableSet) where
  unfoldable pub perform_change : RoleChange → State sets → Outcome (Unit {0} × State sets)
  perform_change (create name role_hash max_wallets is_protected) =
      create_role sets name role_hash max_wallets is_protected
  perform_change (assign role_hash wallet) = assign_wallet sets role_hash wallet
  perform_change (revoke role_hash wallet) = revoke_wallet sets role_hash wallet
  perform_change (replace role_hash new_wallet old_wallet) =
      update_assigned_wallet sets role_hash new_wallet old_wallet
  perform_change (add_function role_hash p) = add_function_to_role sets role_hash p

  abbrev pub state_after : State sets → Outcome (Unit {0} × State sets) → State sets
  state_after s (returned (u, t)) = t
  state_after s (reverted e) = s

  unfoldable pub run_changes : List RoleChange → State sets → State sets
  run_changes [] s = s
  run_changes (change ∷ changes) s = run_changes changes (state_after s (perform_change change s))

  -- What every change that returns keeps, every sequence of changes keeps.
  pub run_changes_keeps {ℓ} :
      (P : State sets → Type ℓ)
      → ((change : RoleChange) (s t : State sets)
          → perform_change change s ≡ returned (tt, t)
          → P s
          → P t)
      → (changes : List RoleChange) (s : State sets) → P s
      → P (run_changes changes s)
  unfolding run_changes
  run_changes_keeps P kept [] s p = p
  run_changes_keeps P kept (change ∷ changes) s p =
      run_changes_keeps P kept changes (state_after s (perform_change change s))
        (after (perform_change change s) (λ t e. kept change s t e p))
    where
      after :
          (o : Outcome (Unit {0} × State sets))
          → ((t : State sets) → o ≡ returned (tt, t) → P t)
          → P (state_after s o)
      after (returned (u, t)) q = q t refl
      after (reverted e) q = p

  pub add_function_lem :
      (r : ℕ) (p : FunctionPermission) (s t : State sets)
      → add_function_to_role sets r p s ≡ returned (tt, t)
      → (every (λ a. is_action_supported_by_function sets s p.function_selector a) p.granted_actions
          ≡ true)
        × ((any is_meta_sign p.granted_actions && any is_meta_execute p.granted_actions) ≡ false)
        × (any (λ q. q.function_selector == p.function_selector) (s.roles r).function_permissions
            ≡ false)
        × (t
            ≡ set_role sets r
                (record (s.roles r) {
                  function_permissions = (s.roles r).function_permissions ++ p ∷ [];
                })
                s)
  unfolding add_function_to_role ◌>>=◌ gets modify require pure revert
  add_function_lem r p s t e = ground arith

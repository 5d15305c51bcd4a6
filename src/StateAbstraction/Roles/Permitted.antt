-- ===== src/StateAbstraction/Roles/Permitted.antt =====
-- What the roles permit: who signs a meta-transaction does not execute it.
use guardian_safe.Prelude.{
  ℕ, ◌≡◌, refl, sym, subst, Bool, true, false, ◌&&◌, ◌||◌, List, [], ◌∷◌, ◌++◌, any, arith, ◌==◌,
  if◌then◌else◌, Bool-cases, inl, inr, ==_iff,
}
use guardian_safe.StateAbstraction.Enums.{TxAction}
use guardian_safe.StateAbstraction.Revert.{returned}
use guardian_safe.StateAbstraction.Sets.{EnumerableSet, IsLawful}
use guardian_safe.StateAbstraction.Types.{FunctionPermission, Role}
use guardian_safe.StateAbstraction.Roles.{
  State, set_role, includes_action, grants, role_has_action_permission, is_meta_sign,
  is_meta_execute,
}
use guardian_safe.StateAbstraction.Roles.Changes.{
  RoleChange, create, assign, revoke, replace, add_function, update_all, perform_change,
  run_changes, run_changes_keeps, add_function_lem,
}
use guardian_safe.StateAbstraction.Roles.Wallets.{create_lem, assign_lem, revoke_lem, replace_lem}

abbrev permits_in : List FunctionPermission → ℕ → TxAction → Bool
permits_in ps selector action = any (λ p. grants p selector action) ps

any-append :
    {A : Type 0} (f : A → Bool) (xs ys : List A) → any f (xs ++ ys) ≡ (any f xs || any f ys)
any-append f [] ys = refl
any-append f (x ∷ xs) ys = ground (arith, any-append f xs ys)

meta_sign_among :
    (a : TxAction) (actions : List TxAction)
    → includes_action a actions ≡ true
    → is_meta_sign a ≡ true
    → any is_meta_sign actions ≡ true
meta_sign_among a [] i h = cc
meta_sign_among a (b ∷ actions) i h = ground (arith, meta_sign_among a actions)

meta_execute_among :
    (a : TxAction) (actions : List TxAction)
    → includes_action a actions ≡ true
    → is_meta_execute a ≡ true
    → any is_meta_execute actions ≡ true
meta_execute_among a [] i h = cc
meta_execute_among a (b ∷ actions) i h = ground (arith, meta_execute_among a actions)

none_granted :
    (ps : List FunctionPermission) (selector : ℕ) (a : TxAction)
    → any (λ q. q.function_selector == selector) ps ≡ false
    → permits_in ps selector a ≡ false
none_granted [] selector a h = refl
none_granted (p ∷ ps) selector a h = ground (arith, none_granted ps selector a)

-- No function is permitted both to be signed for and to be executed.
abbrev pub IsSeparated : List FunctionPermission → Type 0
IsSeparated ps =
    (selector : ℕ) (a b : TxAction)
    → is_meta_sign a ≡ true
    → is_meta_execute b ≡ true
    → permits_in ps selector a ≡ true
    → permits_in ps selector b ≡ false

added-IsSeparated :
    (ps : List FunctionPermission) (p : FunctionPermission)
    → (any is_meta_sign p.granted_actions && any is_meta_execute p.granted_actions) ≡ false
    → any (λ q. q.function_selector == p.function_selector) ps ≡ false
    → IsSeparated ps
    → IsSeparated (ps ++ p ∷ [])
added-IsSeparated ps p c new h selector a b sign execute granted =
    elim (Bool-cases (p.function_selector == selector)) [
      | inl same ↦
          let e = (==_iff p.function_selector selector).0 same in
          let absent = subst (λ s. any (λ q. q.function_selector == s) ps ≡ false) e new in
          ground (
            arith,
            any-append (λ q. grants q selector a) ps (p ∷ []),
            any-append (λ q. grants q selector b) ps (p ∷ []),
            none_granted ps selector a absent,
            none_granted ps selector b absent,
            meta_sign_among a p.granted_actions,
            meta_execute_among b p.granted_actions,
          )
      | inr other ↦ ground (
        arith,
        any-append (λ q. grants q selector a) ps (p ∷ []),
        any-append (λ q. grants q selector b) ps (p ∷ []),
        h selector a b sign execute,
      )
    ]

module _ (sets : EnumerableSet) (law : IsLawful sets) where
  abbrev pub AllSeparated : State sets → Type 0
  AllSeparated s = (r : ℕ) → IsSeparated (s.roles r).function_permissions

  abbrev Kept : ℕ → Role sets.Set → Type 0
  Kept r role = IsSeparated role.function_permissions

  written :
      (r : ℕ) (role : Role sets.Set) (s t : State sets)
      → t ≡ set_role sets r role s
      → AllSeparated s
      → IsSeparated role.function_permissions
      → AllSeparated t
  written r role s t same h one =
      subst AllSeparated (sym same) (update_all Kept s.roles r role h one)

  change-AllSeparated :
      (change : RoleChange) (s t : State sets)
      → perform_change sets change s ≡ returned (tt, t)
      → AllSeparated s
      → AllSeparated t
  unfolding perform_change
  change-AllSeparated (create name r n b) s t e h =
      subst (λ (roles : ℕ → Role sets.Set). (k : ℕ) → Kept k (roles k))
        (sym (create_lem sets law name r n b s t e).1) (update_all Kept s.roles r _ h (h r))
  change-AllSeparated (assign r w) s t e h =
      written r _ s t (assign_lem sets law r w s t e).4 h (h r)
  change-AllSeparated (revoke r w) s t e h =
      written r _ s t (revoke_lem sets law r w s t e).3 h (h r)
  change-AllSeparated (replace r new old) s t e h =
      subst AllSeparated (sym (replace_lem sets law r new old s t e).3)
        (either (old == new) _ (update_all Kept s.roles r _ h (h r)))
    where
      either : (b : Bool) (u : State sets) → AllSeparated u → AllSeparated (if b then s else u)
      either true u q = h
      either false u q = q
  change-AllSeparated (add_function r p) s t e h =
      let (supported, separate, new, same) = add_function_lem sets r p s t e in
      written r _ s t same h (added-IsSeparated _ p separate new (h r))

  -- Where no role may both sign a meta-transaction for a function and execute one for it, no role
  -- may after any sequence of creations of roles, assignments, revocations and replacements of
  -- wallets and additions of functions to roles, those that revert included.
  pub role_has_action_permission-separated :
      (changes : List RoleChange) (s : State sets) (r selector : ℕ) (a b : TxAction)
      → AllSeparated s
      → is_meta_sign a ≡ true
      → is_meta_execute b ≡ true
      → role_has_action_permission sets (run_changes sets changes s) r selector a ≡ true
      → role_has_action_permission sets (run_changes sets changes s) r selector b ≡ false
  unfolding role_has_action_permission
  role_has_action_permission-separated changes s r selector a b h =
      run_changes_keeps sets AllSeparated change-AllSeparated changes s h r selector a b

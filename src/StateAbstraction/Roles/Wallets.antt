-- ===== src/StateAbstraction/Roles/Wallets.antt =====
-- The wallets of the roles: their limits.
use guardian_safe.Prelude.{
  ℕ, ◌+◌, ◌≤◌, ◌<◌, ◌≡◌, ◌≢◌, refl, sym, ap, subst, Bool, true, false, String, List, length, arith,
  ◌==◌, if◌then◌else◌, Bool-cases, ◌⊎◌, inl, inr,
}
use guardian_safe.StateAbstraction.Revert.{returned, pure, revert, gets, modify, require, ◌>>=◌}
use guardian_safe.StateAbstraction.Sets.{EnumerableSet, IsLawful}
use guardian_safe.StateAbstraction.Types.{Role, update}
use guardian_safe.StateAbstraction.Roles.{
  State, set_role, create_role, assign_wallet, update_assigned_wallet, revoke_wallet,
}
use guardian_safe.StateAbstraction.Roles.Changes.{
  RoleChange, create, assign, revoke, replace, add_function, update_all, perform_change,
  run_changes, run_changes_keeps, add_function_lem,
}

module _ (sets : EnumerableSet) where
  abbrev pub wallets : Role sets.Set → ℕ
  wallets role = length (sets.values role.authorized_wallets)

  -- A role under a hash has this hash or does not exist, one that does not exist has no wallets, and
  -- one that does has no more than its limit, and not the zero address.
  pub record IsStaffed (hash : ℕ) (role : Role sets.Set) : Type 0 where
    pub hashed : (role.role_hash ≡ hash) ⊎ (role.role_hash ≡ 0)
    pub unused : role.role_hash ≡ 0 → wallets role ≡ 0
    pub limited : wallets role ≤ role.max_wallets
    pub nonzero : sets.contains 0 role.authorized_wallets ≡ false

  abbrev pub AllStaffed : State sets → Type 0
  AllStaffed s = (hash : ℕ) → IsStaffed hash (s.roles hash)

module _ (sets : EnumerableSet) (law : IsLawful sets) where
  set_role-AllStaffed :
      (r : ℕ) (role : Role sets.Set) (s : State sets)
      → AllStaffed sets s
      → IsStaffed sets r role
      → AllStaffed sets (set_role sets r role s)
  set_role-AllStaffed r role s h one = update_all (IsStaffed sets) s.roles r role h one

  pub assign_lem :
      (r w : ℕ) (s t : State sets)
      → assign_wallet sets r w s ≡ returned (tt, t)
      → (w ≢ 0)
        × ((s.roles r).role_hash ≢ 0)
        × (wallets sets (s.roles r) < (s.roles r).max_wallets)
        × (sets.contains w (s.roles r).authorized_wallets ≡ false)
        × (t
            ≡ set_role sets r
                (record (s.roles r) {
                  authorized_wallets = sets.add w (s.roles r).authorized_wallets;
                  wallet_count = length (sets.values (sets.add w (s.roles r).authorized_wallets));
                })
                s)
  unfolding assign_wallet ◌>>=◌ gets modify require pure revert
  assign_lem r w s t e = ground arith

  pub revoke_lem :
      (r w : ℕ) (s t : State sets)
      → revoke_wallet sets r w s ≡ returned (tt, t)
      → ((s.roles r).role_hash ≢ 0)
        × (sets.contains w (s.roles r).authorized_wallets ≡ true)
        × (1 < wallets sets (s.roles r))
        × (t
            ≡ set_role sets r
                (record (s.roles r) {
                  authorized_wallets = sets.remove w (s.roles r).authorized_wallets;
                  wallet_count =
                      length (sets.values (sets.remove w (s.roles r).authorized_wallets));
                })
                s)
  unfolding revoke_wallet ◌>>=◌ gets modify require pure revert
  revoke_lem r w s t e = ground arith

  abbrev replaced : ℕ → ℕ → Role sets.Set → Role sets.Set
  replaced new old role = record role {
    authorized_wallets = sets.add new (sets.remove old role.authorized_wallets);
  }

  pub replace_lem :
      (r new old : ℕ) (s t : State sets)
      → update_assigned_wallet sets r new old s ≡ returned (tt, t)
      → ((s.roles r).role_hash ≢ 0)
        × (new ≢ 0)
        × (sets.contains old (s.roles r).authorized_wallets ≡ true)
        × (t ≡ (if old == new then s else set_role sets r (replaced new old (s.roles r)) s))
  unfolding update_assigned_wallet ◌>>=◌ gets modify require pure revert
  replace_lem r new old s t e = ground arith

  pub create_lem :
      (name : String) (r n : ℕ) (b : Bool) (s t : State sets)
      → create_role sets name r n b s ≡ returned (tt, t)
      → ((s.roles r).role_hash ≢ r)
        × (t.roles
            ≡ update s.roles r (record (s.roles r) {
              role_name = name;
              role_hash = r;
              max_wallets = n;
              wallet_count = 0;
              is_protected = b;
            }))
  unfolding create_role ◌>>=◌ gets modify require pure revert
  create_lem name r n b s t e = ground arith

  created-IsStaffed :
      (name : String) (r n : ℕ) (b : Bool) (role : Role sets.Set)
      → role.role_hash ≢ r
      → IsStaffed sets r role
      → IsStaffed sets r (record role {
        role_name = name;
        role_hash = r;
        max_wallets = n;
        wallet_count = 0;
        is_protected = b;
      })
  created-IsStaffed name r n b role e h =
      let none : wallets sets role ≡ 0 = ground (arith, h.hashed, h.unused) in
      record {
        hashed = inl refl;
        unused = λ z. none;
        limited = omega (arith, none);
        nonzero = h.nonzero;
      }

  assigned-IsStaffed :
      (r w : ℕ) (role : Role sets.Set)
      → w ≢ 0
      → role.role_hash ≢ 0
      → wallets sets role < role.max_wallets
      → sets.contains w role.authorized_wallets ≡ false
      → IsStaffed sets r role
      → IsStaffed sets r (record role {
        authorized_wallets = sets.add w role.authorized_wallets;
        wallet_count = length (sets.values (sets.add w role.authorized_wallets));
      })
  assigned-IsStaffed r w role z e l a h = record {
    hashed = h.hashed;
    unused = λ f. absurd (e f);
    limited = omega (arith, law.length-add w role.authorized_wallets a, l);
    nonzero = ground (arith, law.contains-add 0 w role.authorized_wallets, h.nonzero);
  }

  revoked-IsStaffed :
      (r w : ℕ) (role : Role sets.Set)
      → role.role_hash ≢ 0
      → sets.contains w role.authorized_wallets ≡ true
      → IsStaffed sets r role
      → IsStaffed sets r (record role {
        authorized_wallets = sets.remove w role.authorized_wallets;
        wallet_count = length (sets.values (sets.remove w role.authorized_wallets));
      })
  revoked-IsStaffed r w role e a h = record {
    hashed = h.hashed;
    unused = λ f. absurd (e f);
    limited = omega (arith, law.length-remove w role.authorized_wallets a, h.limited);
    nonzero = ground (arith, law.contains-remove 0 w role.authorized_wallets, h.nonzero);
  }

  -- Adding a wallet makes a set longer by at most one.
  length-add_bounded :
      (w : ℕ) (s : sets.Set) → length (sets.values (sets.add w s)) ≤ length (sets.values s) + 1
  length-add_bounded w s = elim (Bool-cases (sets.contains w s)) [
    | inl present ↦ omega (arith, ap length (law.values_add_present w s present))
    | inr absent ↦ omega (arith, law.length-add w s absent)
  ]

  replaced-IsStaffed :
      (r new old : ℕ) (role : Role sets.Set)
      → role.role_hash ≢ 0
      → new ≢ 0
      → sets.contains old role.authorized_wallets ≡ true
      → IsStaffed sets r role
      → IsStaffed sets r (replaced new old role)
  replaced-IsStaffed r new old role e z a h = record {
    hashed = h.hashed;
    unused = λ f. absurd (e f);
    limited = omega (
      arith,
      length-add_bounded new (sets.remove old role.authorized_wallets),
      law.length-remove old role.authorized_wallets a,
      h.limited,
    );
    nonzero = ground (
      arith,
      law.contains-add 0 new (sets.remove old role.authorized_wallets),
      law.contains-remove 0 old role.authorized_wallets,
      h.nonzero,
    );
  }

  change-AllStaffed :
      (change : RoleChange) (s t : State sets)
      → perform_change sets change s ≡ returned (tt, t)
      → AllStaffed sets s
      → AllStaffed sets t
  unfolding perform_change
  change-AllStaffed (create name r n b) s t e h =
      let (new, same) = create_lem name r n b s t e in
      subst (λ (roles : ℕ → Role sets.Set). (k : ℕ) → IsStaffed sets k (roles k)) (sym same)
        (update_all (IsStaffed sets) s.roles r _ h
          (created-IsStaffed name r n b (s.roles r) new (h r)))
  change-AllStaffed (assign r w) s t e h =
      let (nonzero, exists, limit, absent, same) = assign_lem r w s t e in
      subst (AllStaffed sets) (sym same) (
        set_role-AllStaffed r _ s h
          (assigned-IsStaffed r w (s.roles r) nonzero exists limit absent (h r)))
  change-AllStaffed (revoke r w) s t e h =
      let (exists, present, many, same) = revoke_lem r w s t e in
      subst (AllStaffed sets) (sym same)
        (set_role-AllStaffed r _ s h (revoked-IsStaffed r w (s.roles r) exists present (h r)))
  change-AllStaffed (replace r new old) s t e h =
      let (exists, nonzero, present, same) = replace_lem r new old s t e in
      subst (AllStaffed sets) (sym same) (
        either (old == new) _ (
          set_role-AllStaffed r _ s h
            (replaced-IsStaffed r new old (s.roles r) exists nonzero present (h r))))
    where
      either :
          (b : Bool) (u : State sets) → AllStaffed sets u → AllStaffed sets (if b then s else u)
      either true u q = h
      either false u q = q
  change-AllStaffed (add_function r p) s t e h =
      let (supported, separate, new, same) = add_function_lem sets r p s t e in
      subst (AllStaffed sets) (sym same) (
        set_role-AllStaffed r _ s h (record {
          hashed = (h r).hashed;
          unused = (h r).unused;
          limited = (h r).limited;
          nonzero = (h r).nonzero;
        }))

  -- Where every role is stored under its hash or not at all, has no wallet unless it exists, has no
  -- more wallets than its limit, and not the zero address, this holds after every sequence of
  -- creations of roles, assignments, revocations and replacements of wallets and additions of
  -- functions, those that revert included.
  pub run_changes-AllStaffed :
      (changes : List RoleChange) (s : State sets)
      → AllStaffed sets s
      → AllStaffed sets (run_changes sets changes s)
  run_changes-AllStaffed changes s h =
      run_changes_keeps sets (AllStaffed sets) change-AllStaffed changes s h

  -- Where a wallet is replaced by another one that the role already has, the role is left with one
  -- wallet less, and the number of wallets that it records is the same as before.
  pub update_assigned_wallet_shrinks :
      (r new old : ℕ) (s t : State sets)
      → update_assigned_wallet sets r new old s ≡ returned (tt, t)
      → old ≢ new
      → sets.contains new (s.roles r).authorized_wallets ≡ true
      → (wallets sets (t.roles r) + 1 ≡ wallets sets (s.roles r))
        × ((t.roles r).wallet_count ≡ (s.roles r).wallet_count)
  update_assigned_wallet_shrinks r new old s t e n p =
      let (exists, nonzero, present, same) = replace_lem r new old s t e in
      let at_r : t.roles r ≡ replaced new old (s.roles r) = ground arith in
      let others = sets.remove old (s.roles r).authorized_wallets in
      let kept : sets.contains new others ≡ true =
        ground (arith, law.contains-remove new old (s.roles r).authorized_wallets) in
      let shorter : wallets sets (replaced new old (s.roles r)) + 1 ≡ wallets sets (s.roles r) =
        omega (
          arith,
          ap length (law.values_add_present new others kept),
          law.length-remove old (s.roles r).authorized_wallets present,
        ) in
      (
        subst (λ (x : Role sets.Set). wallets sets x + 1 ≡ wallets sets (s.roles r)) (sym at_r)
            shorter,
        ap (λ (x : Role sets.Set). x.wallet_count) at_r,
      )

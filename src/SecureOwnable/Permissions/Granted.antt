-- ===== src/SecureOwnable/Permissions/Granted.antt =====
-- When the validation of a workflow's permissions succeeds.
use guardian_safe.Prelude.{
  Bool-cases, inl, inr, ◌≢◌, ◌⊎◌, ℕ, zero, suc, ◌==◌, ==_iff, ap, ◌++◌, not, All, get_elem?, any,
  find_split, find-append, Option-cases, String, ◌≡◌, refl, Bool, true, false, ◌↔◌, Option, none,
  some, List, [], ◌∷◌, arith, every,
}
use guardian_safe.Text.{lower_code, lower, codes, codes_eq, codes_eq_iff, same_address}
use guardian_safe.Eip712.Value.{zero_hash}
use guardian_safe.Script.{ok, >>=-eq-ok}
use guardian_safe.Accounts.{Wallet}
use guardian_safe.SecureOwnable.Session.{
  FunctionPermission, Node, Session, caller, call_contract_method,
}
use guardian_safe.SecureOwnable.Permissions.{
  Permission, get_role_hash, function_permission, grants, check_permission, validate_permission,
  validate_workflow_permissions,
}

module _ {N : Type 0} (node : Node N) (keccak256 : String → String) where
  -- A node that answers with one table of permissions, in time and unchanged by it.
  pub record Answers (table : String → List FunctionPermission) : Type 0 where
    pub in_time : (n : N) → node.timed_out n ≡ (ok false, n)
    pub reads :
        (hash from : String) (n : N) → node.get_role_permission hash from n ≡ (ok (table hash), n)

  -- the table has the function of `q` for its role, with every expected action
  abbrev granted_by : Option FunctionPermission → List ℕ → Bool
  granted_by none actions = false
  granted_by (some p) actions = grants p actions

  abbrev is_granted : (String → List FunctionPermission) → Permission → Bool
  is_granted table q =
      granted_by (function_permission q.function_selector (table (get_role_hash keccak256 q.role)))
        q.expected_actions

  module _ (table : String → List FunctionPermission) (answers : Answers table) where
    validate-check :
        (q : Permission) (s : Session N) (w : Wallet)
        → caller none s ≡ some w
        → validate_permission node keccak256 q s
          ≡ check_permission q
              (function_permission q.function_selector (table (get_role_hash keccak256 q.role)))
              s
    unfolding validate_permission call_contract_method
    validate-check q s w e = ground (
      arith,
      answers.in_time s.node,
      answers.reads (get_role_hash keccak256 q.role) w.address s.node,
    )

    check-pass :
        (q : Permission) (o : Option FunctionPermission) (s : Session N)
        → granted_by o q.expected_actions ≡ true
        → check_permission q o s ≡ (ok tt, s)
    unfolding check_permission
    check-pass q none s h = cc
    check-pass q (some p) s h = rw h

    check-fail :
        (q : Permission) (o : Option FunctionPermission) (s : Session N)
        → granted_by o q.expected_actions ≡ false
        → (check_permission q o s).0 ≢ ok tt
    unfolding check_permission
    check-fail q none s h e = cc
    check-fail q (some p) s h e = ground arith

    validate-every :
        (qs : List Permission) (s : Session N) (w : Wallet)
        → caller none s ≡ some w
        → (validate_workflow_permissions node keccak256 qs s ≡ (ok tt, s))
          ↔ (every (is_granted table) qs ≡ true)
    unfolding validate_workflow_permissions
    validate-every [] s w e = (λ _. refl, λ _. refl)
    validate-every (q ∷ qs) s w e = elim (Bool-cases (is_granted table q)) [
      | inl yes' ↦
          rw (validate-check q s w e, check-pass q _ s yes', yes') (validate-every qs s w e)
      | inr no' ↦ (
        (λ h.
            let (a, made, _) = >>=-eq-ok (validate_permission node keccak256 q) _ s h in
            absurd (check-fail q _ s no' (ground (arith, validate-check q s w e)))),
        (λ h. absurd (ground arith)),
      )
    ]

-- The hash of a role: those of the three roles, whose names are read in any case, and the zero
-- hash for another name.
abbrev pub RoleHash : (String → String) → String → String → Type 0
RoleHash keccak256 name hash =
    ((lower name ≡ codes "owner") × (hash ≡ keccak256 "OWNER_ROLE"))
    ⊎ ((lower name ≡ codes "broadcaster") × (hash ≡ keccak256 "BROADCASTER_ROLE"))
    ⊎ ((lower name ≡ codes "recovery") × (hash ≡ keccak256 "RECOVERY_ROLE"))
    ⊎ ((lower name ≢ codes "owner")
        × (lower name ≢ codes "broadcaster")
        × (lower name ≢ codes "recovery")
        × (hash ≡ zero_hash))

-- `a` stands at some position of the list.
abbrev pub Stands : ℕ → List ℕ → Type 0
Stands a xs = (i : ℕ) × (get_elem? xs i ≡ some a)

-- Among the permissions in the table under the hash of the role of `q`, the first one for the
-- function of `q` lists every expected action.
abbrev pub IsGranted : (String → String) → (String → List FunctionPermission) → Permission → Type 0
IsGranted keccak256 table q =
    (hash : String) × (before after : List FunctionPermission) × (p : FunctionPermission)
    × (RoleHash keccak256 q.role hash)
    × (table hash ≡ before ++ p ∷ after)
    × (every (λ x. not (same_address x.function_selector q.function_selector)) before ≡ true)
    × (same_address p.function_selector q.function_selector ≡ true)
    × (All (λ a. Stands a p.granted_actions) q.expected_actions)

any-Stands : (a : ℕ) (xs : List ℕ) → any (λ g. g == a) xs ≡ true → Stands a xs
any-Stands a [] h = cc
any-Stands a (x ∷ xs) h = elim (Bool-cases (x == a)) [
  | inl e ↦ (0, ap some ((==_iff x a).0 e))
  | inr e ↦ let (i, at) = any-Stands a xs (ground arith) in (suc i, at)
]

Stands-any : (a i : ℕ) (xs : List ℕ) → get_elem? xs i ≡ some a → any (λ g. g == a) xs ≡ true
Stands-any a i [] h = cc
Stands-any a zero (x ∷ xs) h = let e = (==_iff x a).1 (ground arith) in rw e refl
Stands-any a (suc i) (x ∷ xs) h = let e = Stands-any a i xs h in ground arith

grants-All :
    (p : FunctionPermission) (actions : List ℕ)
    → (grants p actions ≡ true) ↔ (All (λ a. Stands a p.granted_actions) actions)
grants-All p [] = (λ _. tt, λ _. refl)
grants-All p (a ∷ actions) =
    let rest = grants-All p actions in
    (
      (λ h. (any-Stands a p.granted_actions (ground arith), rest.0 (ground arith))),
      (λ all.
          let here' = Stands-any a all.0.0 p.granted_actions all.0.1 in
          let later = rest.1 all.1 in rw (here', later) refl),
    )

module _ (keccak256 : String → String) where
  get_role_hash-RoleHash : (name : String) → RoleHash keccak256 name (get_role_hash keccak256 name)
  unfolding get_role_hash
  get_role_hash-RoleHash name =
      let owner = codes_eq_iff (lower name) (codes "owner") in
      let broadcaster = codes_eq_iff (lower name) (codes "broadcaster") in
      let recovery = codes_eq_iff (lower name) (codes "recovery") in
      elim (Bool-cases (codes_eq (lower name) (codes "owner"))) [
        | inl e ↦ inl (owner.0 e, rw e refl)
        | inr e₁ ↦ elim (Bool-cases (codes_eq (lower name) (codes "broadcaster"))) [
          | inl e ↦ inr (inl (broadcaster.0 e, rw (e₁, e) refl))
          | inr e₂ ↦ elim (Bool-cases (codes_eq (lower name) (codes "recovery"))) [
            | inl e ↦ inr (inr (inl (recovery.0 e, rw (e₁, e₂, e) refl)))
            | inr e₃ ↦ inr (
                inr (
                  inr (
                    (λ p. let same = owner.1 p in cc),
                    (λ p. let same = broadcaster.1 p in cc),
                    (λ p. let same = recovery.1 p in cc),
                    rw (e₁, e₂, e₃) refl,
                  )))
          ]
        ]
      ]

  not-codes_eq : (xs ys : List ℕ) → xs ≢ ys → codes_eq xs ys ≡ false
  not-codes_eq xs ys h = elim (Bool-cases (codes_eq xs ys)) [
    | inl e ↦ absurd (h ((codes_eq_iff xs ys).0 e))
    | inr e ↦ e
  ]

  RoleHash-unique :
      (name hash : String) → RoleHash keccak256 name hash → hash ≡ get_role_hash keccak256 name
  unfolding get_role_hash lower_code
  RoleHash-unique name hash (inl (e, h)) = rw e h
  RoleHash-unique name hash (inr (inl (e, h))) = rw e h
  RoleHash-unique name hash (inr (inr (inl (e, h)))) = rw e h
  RoleHash-unique name hash (inr (inr (inr (a, b, c, h)))) =
      let no_owner = not-codes_eq (lower name) (codes "owner") a in
      let no_broadcaster = not-codes_eq (lower name) (codes "broadcaster") b in
      let no_recovery = not-codes_eq (lower name) (codes "recovery") c in
      rw (no_owner, no_broadcaster, no_recovery) h

module _ {N : Type 0} (node : Node N) (keccak256 : String → String)
    (table : String → List FunctionPermission) where
  is_granted-IsGranted :
      (q : Permission) → (is_granted node keccak256 table q ≡ true) ↔ (IsGranted keccak256 table q)
  is_granted-IsGranted q = (
    (λ h.
        let hash = get_role_hash keccak256 q.role in
        elim (Option-cases (function_permission q.function_selector (table hash))) [
          | inl missing ↦ absurd (ground arith)
          | inr (p, found) ↦
              let (before, after, split, unlike, like) = find_split _ (table hash) p found in
              (
                hash,
                before,
                after,
                p,
                get_role_hash-RoleHash keccak256 q.role,
                split,
                unlike,
                like,
                (grants-All p q.expected_actions).0 (ground arith),
              )
        ]),
    (λ (hash, before, after, p, named, split, unlike, like, all).
        let e = RoleHash-unique keccak256 q.role hash named in
        let found =
          find-append (λ x. same_address x.function_selector q.function_selector) before after p
            unlike like in
        let granted = (grants-All p q.expected_actions).1 all in rw (← e, split, found) granted),
  )

  -- By a node that answers from a table, in time and unchanged by it, and for a test with a wallet
  -- to call from, a validation returns with nothing changed exactly when for every required
  -- permission there is an entry of the table for the function under the hash of the role, and the
  -- first one lists every expected action. The hash is that of `OWNER_ROLE`, `BROADCASTER_ROLE` or
  -- `RECOVERY_ROLE`, by the name of the role in any case, and zero for another name.
  pub validate_workflow_permissions_iff :
      (answers : Answers node keccak256 table) (qs : List Permission) (s : Session N) (w : Wallet)
      → caller none s ≡ some w
      → (validate_workflow_permissions node keccak256 qs s ≡ (ok tt, s))
        ↔ (All (IsGranted keccak256 table) qs)
  validate_workflow_permissions_iff answers qs s w e =
      let valid = validate-every node keccak256 table answers qs s w e in
      let all = every-All qs in (λ h. all.0 (valid.0 h), λ h. valid.1 (all.1 h))
    where
      every-All :
          (qs : List Permission)
          → (every (is_granted node keccak256 table) qs ≡ true)
            ↔ (All (IsGranted keccak256 table) qs)
      every-All [] = (λ _. tt, λ _. refl)
      every-All (q ∷ qs) =
          let one = is_granted-IsGranted q in
          let rest = every-All qs in
          (
            (λ h. (one.0 (ground arith), rest.0 (ground arith))),
            (λ all. let here' = one.1 all.0 in let later = rest.1 all.1 in rw (here', later) refl),
          )

-- ===== src/StateAbstraction/Tests/Staff.antt =====
-- Changes of the roles of the small contract.
use guardian_safe.Prelude.{◌+◌, ◌≡◌, refl, true, false, inl, inr, List, [], ◌∷◌, arith}
use guardian_safe.StateAbstraction.Enums.{action_code, sign_meta_approve, execute_meta_approve}
use guardian_safe.StateAbstraction.Revert.{returned}
use guardian_safe.StateAbstraction.Sets.Distinct.{distinct_lists, distinct_lists-IsLawful}
use guardian_safe.StateAbstraction.Roles.{State, role_has_action_permission, update_assigned_wallet}
use guardian_safe.StateAbstraction.Roles.Changes.{
  RoleChange, create, assign, revoke, replace, add_function, update_all, run_changes, state_after,
}
use guardian_safe.StateAbstraction.Roles.Wallets.{
  wallets, IsStaffed, AllStaffed, run_changes-AllStaffed, update_assigned_wallet_shrinks,
}
use guardian_safe.StateAbstraction.Roles.Permitted.{role_has_action_permission-separated}
use guardian_safe.StateAbstraction.Tests.{suite, granting, operators, nobody, start}

start-AllStaffed : AllStaffed distinct_lists start.self
start-AllStaffed =
    update_all (IsStaffed distinct_lists) (λ r. nobody) 70 operators
      (λ r. record { hashed = inr refl; unused = λ z. refl; limited = omega arith; nonzero = refl })
      (record { hashed = inl refl; unused = λ z. cc; limited = omega arith; nonzero = refl })

-- The role is full, so that a wallet is assigned only after another was revoked.
abbrev reassignment : List RoleChange
reassignment =
    create "AUDITORS" 71 1 false
    ∷ assign 70 13
    ∷ revoke 70 11
    ∷ assign 70 13
    ∷ replace 70 14 12
    ∷ assign 71 13
    ∷ assign 71 14
    ∷ []

run_changes-AllStaffed_example :
    AllStaffed distinct_lists (run_changes distinct_lists reassignment start.self)
run_changes-AllStaffed_example =
    run_changes-AllStaffed distinct_lists distinct_lists-IsLawful reassignment start.self
      start-AllStaffed

abbrev doubled : State distinct_lists
doubled =
    state_after distinct_lists start.self
      (update_assigned_wallet distinct_lists 70 12 11 start.self)

doubled_returns : update_assigned_wallet distinct_lists 70 12 11 start.self ≡ returned (tt, doubled)
unfolding suite
doubled_returns = refl

update_assigned_wallet_shrinks_example :
    (wallets distinct_lists (doubled.roles 70) + 1 ≡ wallets distinct_lists operators)
    × ((doubled.roles 70).wallet_count ≡ operators.wallet_count)
update_assigned_wallet_shrinks_example =
    update_assigned_wallet_shrinks distinct_lists distinct_lists-IsLawful 70 12 11 start.self
      doubled doubled_returns (λ e. absurd (omega (arith, e))) refl

abbrev unstaffed : State distinct_lists
unstaffed = record start.self { roles = λ r. nobody; supported_roles_set = ([], refl) }

abbrev signers : List RoleChange
signers =
    create "SIGNERS" 71 1 false
    ∷ add_function 71 (granting 40 sign_meta_approve)
    ∷ add_function 71 (granting 40 execute_meta_approve)
    ∷ []

signers_sign :
    role_has_action_permission distinct_lists
      (run_changes distinct_lists signers unstaffed)
      71
      40
      sign_meta_approve
    ≡ true
unfolding suite
signers_sign = refl

role_has_action_permission-separated_example :
    role_has_action_permission distinct_lists
      (run_changes distinct_lists signers unstaffed)
      71
      40
      execute_meta_approve
    ≡ false
unfolding action_code
role_has_action_permission-separated_example =
    role_has_action_permission-separated distinct_lists distinct_lists-IsLawful signers unstaffed 71
      40 sign_meta_approve execute_meta_approve (λ r selector a b sign execute granted. refl) refl
      refl signers_sign

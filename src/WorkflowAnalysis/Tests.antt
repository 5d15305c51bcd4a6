-- ===== src/WorkflowAnalysis/Tests.antt =====
-- The analyses at small workflows.
use guardian_safe.Prelude.{
  ℕ, some, String, ◌≡◌, refl, true, false, not, ◌&&◌, ◌||◌, [], ◌∷◌, length, leb, every, str_eq,
}
use guardian_safe.Text.{codes, includes}
use guardian_safe.Workflow.Types.{step, WorkflowPath, Workflow}
use guardian_safe.Workflow.Cache.{Tester}
use guardian_safe.WorkflowAnalysis.Scores.{
  deduct, lacks_signature, delays_nothing, is_off_chain_only, analyze_path_security,
}
use guardian_safe.WorkflowAnalysis.Scores.Threshold.{analyze_path_security_secure}
use guardian_safe.WorkflowAnalysis.Consistency.{
  valid_roles, collect, check_role_naming_consistency, check_function_naming_consistency,
  check_phase_type_consistency,
}
use guardian_safe.WorkflowAnalysis.Consistency.Valid.{every_step, checks_valid}

suite : Unit {0}
unfolding deduct analyze_path_security collect check_role_naming_consistency
suite = tt

-- A path with a phase off the chain that requires no signature.
abbrev unsigned : WorkflowPath
unsigned = record {
  name = "Unsigned";
  description = "No signature";
  workflow_type = 1;
  estimated_time_sec = 0;
  requires_signature = false;
  has_off_chain_phase = true;
  steps =
      step "sign" "0x00" 3 ("OWNER" ∷ []) "off the chain" true "SIGNING"
      ∷ step "execute" "0x01" 6 ("NOBODY" ∷ []) "on the chain" false "EXECUTION"
      ∷ [];
}

abbrev workflow : Workflow
workflow = record {
  operation_type = "0x01";
  operation_name = "TEST";
  supported_roles = "OWNER" ∷ [];
  paths = unsigned ∷ [];
}

unsigned_score :
    analyze_path_security unsigned
    ≡ record { score = 80; issues = "Meta-transaction path without signature requirement" ∷ [] }
unfolding suite
unsigned_score = refl

nobody :
    check_role_naming_consistency (workflow ∷ [])
    ≡ record { is_consistent = false; issues = "Invalid role: NOBODY in TEST" ∷ [] }
unfolding suite
nobody = refl

analyze_path_security_secure_example : leb 80 (analyze_path_security unsigned).score ≡ (
    not (is_off_chain_only unsigned) && not (lacks_signature unsigned && delays_nothing unsigned))
analyze_path_security_secure_example = analyze_path_security_secure unsigned

checks_valid_example :
    ((check_role_naming_consistency (workflow ∷ [])).is_consistent
      ≡ every_step (λ x. every (λ r. includes r valid_roles) x.roles) (workflow ∷ []))
    × ((check_function_naming_consistency (workflow ∷ [])).is_consistent
        ≡ every_step (λ x. leb 3 (length (codes x.function_name))) (workflow ∷ []))
    × ((check_phase_type_consistency (workflow ∷ [])).is_consistent
        ≡ every_step
            (λ x. str_eq x.phase_type "SIGNING" || str_eq x.phase_type "EXECUTION")
            (workflow ∷ []))
checks_valid_example = checks_valid (workflow ∷ [])

abbrev still : ℕ → ℕ × ℕ
still t = (t, t)

abbrev hash : String → String
hash name = name

-- The workflow above is in the cache.
abbrev loaded : Tester ℕ
loaded = record {
  clock = 5;
  cache = record {
    all_workflows = some (workflow ∷ []);
    operation_workflows = [];
    last_update = some 3;
  };
}

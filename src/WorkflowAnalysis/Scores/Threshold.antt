-- ===== src/WorkflowAnalysis/Scores/Threshold.antt =====
-- What it takes to reach the thresholds of the analyses.
use guardian_safe.Prelude.{
  String, ◌≡◌, refl, ◌∙◌, Bool, true, false, not, ◌&&◌, ◌||◌, arith, length, leb, any, List, [],
  ◌∷◌, ◌==◌,
}
use guardian_safe.Workflow.Types.{WorkflowPath, Workflow}
use guardian_safe.WorkflowAnalysis.Scores.{
  full_score, deduct, lacks_signature, delays_nothing, is_off_chain_only, analyze_path_security,
  analyze_workflow_completeness,
}

secure_of :
    (a b c : Bool) (i j k : String)
    → leb 80 (deduct c 25 k (deduct b 15 j (deduct a 20 i full_score))).score
      ≡ (not c && not (a && b))
unfolding deduct
secure_of true true true i j k = refl
secure_of true true false i j k = refl
secure_of true false true i j k = refl
secure_of true false false i j k = refl
secure_of false true true i j k = refl
secure_of false true false i j k = refl
secure_of false false true i j k = refl
secure_of false false false i j k = refl

-- A path is counted as secure, by a score of 80 or more, exactly if it does not consist of steps off
-- the chain only, and is not both a path with a phase off the chain that requires no signature and
-- a path of the type with a time delay that takes no time.
pub analyze_path_security_secure :
    (p : WorkflowPath)
    → leb 80 (analyze_path_security p).score
      ≡ (not (is_off_chain_only p) && not (lacks_signature p && delays_nothing p))
unfolding analyze_path_security
analyze_path_security_secure p =
    secure_of (lacks_signature p) (delays_nothing p) (is_off_chain_only p) _ _ _

complete_of :
    (a b c : Bool) (i j k : String)
    → leb 90 (deduct c 30 k (deduct b 20 j (deduct a 50 i full_score))).score
      ≡ (not a && (not b && not c))
unfolding deduct
complete_of true true true i j k = refl
complete_of true true false i j k = refl
complete_of true false true i j k = refl
complete_of true false false i j k = refl
complete_of false true true i j k = refl
complete_of false true false i j k = refl
complete_of false false true i j k = refl
complete_of false false false i j k = refl

-- Whether a path is of the type with a time delay or has a phase off the chain.
abbrev pub is_usable : WorkflowPath → Bool
is_usable p = p.workflow_type == 0 || p.has_off_chain_phase

any-is_usable :
    (ps : List WorkflowPath)
    → any is_usable ps ≡ (any (λ p. p.workflow_type == 0) ps || any (λ p. p.has_off_chain_phase) ps)
any-is_usable [] = refl
any-is_usable (p ∷ ps) = ground (arith, any-is_usable ps)

any_of_none : (ps : List WorkflowPath) → (length ps == 0) ≡ true → any is_usable ps ≡ false
any_of_none [] h = refl
any_of_none (p ∷ ps) h = absurd (ground arith)

any_usable :
    (a b c d u : Bool)
    → u ≡ (c || d)
    → (a ≡ true → u ≡ false)
    → (not a && (not b && not (not c && not d))) ≡ (not b && u)
any_usable a b c d u e h = ground arith

-- A workflow is counted as complete, by a score of 90 or more, exactly if it has a role and a path
-- that is of the type with a time delay or has a phase off the chain.
pub analyze_workflow_completeness_complete :
    (w : Workflow)
    → leb 90 (analyze_workflow_completeness w).score
      ≡ (not (length w.supported_roles == 0) && any is_usable w.paths)
unfolding analyze_workflow_completeness
analyze_workflow_completeness_complete w =
    complete_of (length w.paths == 0) (length w.supported_roles == 0)
      (not (any (λ p. p.workflow_type == 0) w.paths)
        && not (any (λ p. p.has_off_chain_phase) w.paths))
      _ _ _
    ∙ any_usable (length w.paths == 0) (length w.supported_roles == 0)
        (any (λ p. p.workflow_type == 0) w.paths) (any (λ p. p.has_off_chain_phase) w.paths)
        (any is_usable w.paths) (any-is_usable w.paths) (any_of_none w.paths)

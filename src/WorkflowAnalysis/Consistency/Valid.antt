-- ===== src/WorkflowAnalysis/Consistency/Valid.antt =====
-- Which workflows pass the checks.
use guardian_safe.Prelude.{
  String, ◌≡◌, refl, sym, ◌∙◌, Bool, true, false, ◌||◌, arith, List, [], ◌∷◌, length, length-append,
  not, ltb, leb, str_eq, eq_iff, subst, Bool-cases, inl, inr, every, ◌==◌,
}
use guardian_safe.Text.{codes, includes}
use guardian_safe.Workflow.Types.{Step, WorkflowPath, Workflow}
use guardian_safe.WorkflowAnalysis.Consistency.{
  collect, unless, valid_roles, collect_steps, check_function_naming_consistency,
  check_role_naming_consistency, check_phase_type_consistency,
}

abbrev is_empty : List String → Bool
is_empty issues = length issues == 0

collect-is_empty {ℓ} :
    {A : Type ℓ} (f : A → List String) (g : A → Bool)
    → ((x : A) → is_empty (f x) ≡ g x)
    → (xs : List A) → is_empty (collect f xs) ≡ every g xs
unfolding collect
collect-is_empty f g h [] = refl
collect-is_empty f g h (x ∷ xs) =
    ground (arith, h x, collect-is_empty f g h xs, length-append (f x) (collect f xs))

unless-is_empty : (valid : Bool) (issue : String) → is_empty (unless valid issue) ≡ valid
unless-is_empty true issue = refl
unless-is_empty false issue = refl

named : (s : String) → not (str_eq s "" || ltb (length (codes s)) 3) ≡ leb 3 (length (codes s))
named s = elim (Bool-cases (str_eq s "")) [
  | inl empty ↦
      subst (λ t. not (str_eq t "" || ltb (length (codes t)) 3) ≡ leb 3 (length (codes t)))
        (sym ((eq_iff s "").0 empty)) refl
  | inr other ↦ ground arith
]

or_false : (a b : Bool) → (a || (b || false)) ≡ (a || b)
or_false a true = refl
or_false a false = refl

-- Whether a test holds of every step of every path of every workflow.
abbrev pub every_step : (Step → Bool) → List Workflow → Bool
every_step valid workflows = every (λ w. every (λ p. every valid p.steps) w.paths) workflows

collect_steps-is_empty :
    (f : Workflow → Step → List String) (valid : Step → Bool)
    → ((w : Workflow) (x : Step) → is_empty (f w x) ≡ valid x)
    → (workflows : List Workflow)
    → is_empty (collect_steps f workflows) ≡ every_step valid workflows
collect_steps-is_empty f valid h workflows =
    collect-is_empty _ _
      (λ w.
        collect-is_empty _ _ (λ (p : WorkflowPath). collect-is_empty (f w) valid (h w) p.steps)
          w.paths)
      workflows

-- The checks of the role names, the function names and the phase types find no issue exactly if
-- every step of every path of the workflows has valid roles only, a function name of three letters
-- or more, and a valid phase type, respectively.
pub checks_valid :
    (workflows : List Workflow)
    → ((check_role_naming_consistency workflows).is_consistent
        ≡ every_step (λ x. every (λ r. includes r valid_roles) x.roles) workflows)
      × ((check_function_naming_consistency workflows).is_consistent
          ≡ every_step (λ x. leb 3 (length (codes x.function_name))) workflows)
      × ((check_phase_type_consistency workflows).is_consistent
          ≡ every_step
              (λ x. str_eq x.phase_type "SIGNING" || str_eq x.phase_type "EXECUTION")
              workflows)
unfolding check_role_naming_consistency check_function_naming_consistency
    check_phase_type_consistency
checks_valid workflows = (
  collect_steps-is_empty _ _
      (λ w x. collect-is_empty _ _ (λ role. unless-is_empty (includes role valid_roles) _) x.roles)
      workflows,
  collect_steps-is_empty _ _ (λ w x. unless-is_empty _ _ ∙ named x.function_name) workflows,
  collect_steps-is_empty _ _ (λ w x. unless-is_empty _ _ ∙ or_false _ _) workflows,
)

-- ===== src/Runner/Results.antt =====
-- The counts of a runner, next to the world in which the suites run.
use guardian_safe.Prelude.{ℕ, ◌+◌, Option}
use guardian_safe.Script.{Script, modify}

pub record Results : Type 0 where
  pub total_suites : ℕ
  pub passed_suites : ℕ
  pub failed_suites : ℕ
  pub start_time : Option ℕ
  pub end_time : Option ℕ

pub record Runner (W : Type 0) : Type 0 where
  pub world : W
  pub results : Results

abbrev pub count_passed : Results → Results
count_passed r = record r { passed_suites = r.passed_suites + 1 }

abbrev pub count_failed : Results → Results
count_failed r = record r { failed_suites = r.failed_suites + 1 }

module _ {W : Type 0} where
  abbrev pub in_world : {A : Type 0} → Script W A → Script (Runner W) A
  in_world m s = let (r, w) = m s.world in (r, record s { world = w })

  abbrev pub on_results : (Results → Results) → Script (Runner W) (Unit {0})
  on_results f = modify (λ s. record s { results = f s.results })

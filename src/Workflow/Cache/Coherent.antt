-- ===== src/Workflow/Cache/Coherent.antt =====
-- What the cache answers.
use guardian_safe.Prelude.{
  ℕ, ◌==◌, sym, subst, ◌∙◌, ap, some-injective, String, ◌≡◌, refl, Option, none, some, List, ◌∷◌,
  arith, str_eq, eq_iff, if◌then◌else◌, Bool-cases, inl, inr,
}
use guardian_safe.Text.{◌<>◌}
use guardian_safe.Script.{Result, ok, err}
use guardian_safe.Workflow.Types.{Workflow}
use guardian_safe.Workflow.Catalog.{generate_workflow_data}
use guardian_safe.Workflow.Cache.{
  Cache, Tester, cached, of_type, from_cache, is_recent, refresh, remember, or_search,
  get_all_workflows, get_workflow_for_operation,
}

module _ {C : Type 0} (date_now : C → ℕ × C) (keccak256 : String → String) where
  abbrev right : String → Option Workflow
  right operation_type = of_type operation_type (generate_workflow_data keccak256)

  abbrev pub not_found : String → Option Workflow → Result Workflow
  not_found operation_type none = err ("Workflow not found for operation type: " <> operation_type)
  not_found operation_type (some w) = ok w

  -- What is cached is what would be computed.
  pub record IsCoherent (c : Cache) : Type 0 where
    pub all :
        (ws : List Workflow) → c.all_workflows ≡ some ws → ws ≡ generate_workflow_data keccak256
    pub each :
        (key : String) (w : Workflow)
        → cached key c.operation_workflows ≡ some w
        → right key ≡ some w

  -- What a catalog that is asked for does to a coherent cache.
  abbrev pub GivesAll : Tester C → Result (List Workflow) × Tester C → Type 0
  GivesAll s r =
      (r.0 ≡ ok (generate_workflow_data keccak256))
      × IsCoherent r.1.cache
      × (r.1.cache.operation_workflows ≡ s.cache.operation_workflows)

  refresh-GivesAll :
      (s t : Tester C)
      → IsCoherent s.cache
      → t.cache ≡ s.cache
      → GivesAll s (refresh date_now keccak256 t)
  unfolding refresh
  refresh-GivesAll s t h e = (
    refl,
    record {
      all = λ ws p. sym (some-injective _ _ p);
      each = λ key w p. h.each key w (ground arith);
    },
    ap (λ (c : Cache). c.operation_workflows) e,
  )

  from_cache-GivesAll :
      (o : Option (List Workflow)) (l : Option ℕ) (s : Tester C)
      → s.cache.all_workflows ≡ o
      → IsCoherent s.cache
      → GivesAll s (from_cache date_now keccak256 o l s)
  from_cache-GivesAll none l s e h = refresh-GivesAll s s h refl
  from_cache-GivesAll (some ws) none s e h = refresh-GivesAll s s h refl
  from_cache-GivesAll (some ws) (some last) s e h = elim (Bool-cases (last == 0)) [
    | inl zero' ↦ rw zero' (refresh-GivesAll s s h refl)
    | inr set ↦ elim (Bool-cases (is_recent (date_now s.clock).0 last)) [
      | inl recent ↦ rw (set, recent) (ap ok (h.all ws e), h, refl)
      | inr old ↦
          rw (set, old) (refresh-GivesAll s (record s { clock = (date_now s.clock).1 }) h refl)
    ]
  ]

  pub get_all_workflows-GivesAll :
      (s : Tester C) → IsCoherent s.cache → GivesAll s (get_all_workflows date_now keccak256 s)
  unfolding get_all_workflows
  get_all_workflows-GivesAll s h =
      from_cache-GivesAll s.cache.all_workflows s.cache.last_update s refl h

  remembered_lem :
      (operation_type key : String) (w v : Workflow) (ws : List (String × Workflow))
      → some w ≡ right operation_type
      → (cached key ws ≡ some v → right key ≡ some v)
      → cached key ((operation_type, w) ∷ ws) ≡ some v
      → right key ≡ some v
  remembered_lem operation_type key w v ws e h p = elim (Bool-cases (str_eq operation_type key)) [
    | inl same ↦
        subst (λ k. right k ≡ some v) ((eq_iff operation_type key).0 same)
          (sym e ∙ sym (ap (λ b. if b then some w else cached key ws) same) ∙ p)
    | inr other ↦ h (sym (ap (λ b. if b then some w else cached key ws) other) ∙ p)
  ]

  remember-IsCoherent :
      (operation_type : String) (o : Option Workflow) (s : Tester C)
      → o ≡ right operation_type
      → IsCoherent s.cache
      → ((remember date_now keccak256 operation_type o s).0 ≡ not_found operation_type o)
        × IsCoherent (remember date_now keccak256 operation_type o s).1.cache
  remember-IsCoherent operation_type none s e h = (refl, h)
  remember-IsCoherent operation_type (some w) s e h = (
    refl,
    record {
      all = h.all;
      each = λ key v p.
          remembered_lem operation_type key w v s.cache.operation_workflows e (h.each key v) p;
    },
  )

  or_search-IsCoherent :
      (operation_type : String) (o : Option Workflow) (s : Tester C)
      → cached operation_type s.cache.operation_workflows ≡ o
      → IsCoherent s.cache
      → ((or_search date_now keccak256 operation_type o s).0
          ≡ not_found operation_type (right operation_type))
        × IsCoherent (or_search date_now keccak256 operation_type o s).1.cache
  or_search-IsCoherent operation_type (some w) s e h =
      (ground (arith, h.each operation_type w e), h)
  or_search-IsCoherent operation_type none s e h =
      let (answer, coherent, same) = get_all_workflows-GivesAll s h in
      rw answer (
        remember-IsCoherent operation_type (right operation_type)
          (get_all_workflows date_now keccak256 s).1 refl coherent)

  -- Whatever the clock reads, a lookup in a coherent cache answers what a fresh catalog would, an
  -- error for an unknown operation included, and leaves a coherent cache.
  pub get_workflow_for_operation-IsCoherent :
      (operation_type : String) (s : Tester C)
      → IsCoherent s.cache
      → ((get_workflow_for_operation date_now keccak256 operation_type s).0
          ≡ not_found operation_type (right operation_type))
        × IsCoherent (get_workflow_for_operation date_now keccak256 operation_type s).1.cache
  unfolding get_workflow_for_operation
  get_workflow_for_operation-IsCoherent operation_type s h =
      or_search-IsCoherent operation_type (cached operation_type s.cache.operation_workflows) s refl
        h

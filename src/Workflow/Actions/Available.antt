-- ===== src/Workflow/Actions/Available.antt =====
-- Which actions are found.
use guardian_safe.Prelude.{
  ℕ, zero, suc, subst, some-injective, ◌-◌, ◌+◌, ◌≤◌, String, ◌≡◌, refl, Bool, true, ◌&&◌, ◌||◌, ap,
  sym, ◌∙◌, some, List, [], ◌∷◌, arith, ◌==◌, get_elem?, drop, get_elem?-drop, any, All, Bool-cases,
  inl, inr,
}
use native.Mathlib.Nat.{zero-add}
use guardian_safe.Text.{includes}
use guardian_safe.Workflow.Types.{Step, WorkflowPath, Workflow}
use guardian_safe.Workflow.Actions.{
  PathAction, PathActions, unless_empty, actions_from, path_actions, actions_of_paths,
  find_next_available_actions,
}

-- The action for the step `j` of the path `k`.
abbrev pub is_at : ℕ → ℕ → PathAction → Bool
is_at k j a = (a.path_index == k) && (a.step_index == j)

module _ (user_role : String) (current_step : ℕ) where
  -- An entry for a step of the path that the role may take, not before the current step.
  pub record IsAvailable (path : WorkflowPath) (a : PathAction) : Type 0 where
    pub not_before : current_step ≤ a.step_index
    pub at_index : get_elem? path.steps a.step_index ≡ some a.action_step
    pub allowed : includes user_role a.action_step.roles ≡ true
    pub next : a.is_next ≡ (a.step_index == current_step)
    pub named : a.path_name ≡ path.name

  actions_from-IsAvailable :
      (path : WorkflowPath) (k i : ℕ) (xs : List Step)
      → current_step ≤ i
      → ((j : ℕ) → get_elem? xs j ≡ get_elem? path.steps (i + j))
      → All (IsAvailable path) (actions_from user_role current_step path k i xs)
  unfolding actions_from
  actions_from-IsAvailable path k i [] h e = tt
  actions_from-IsAvailable path k i (x ∷ xs) h e =
      let rest =
        actions_from-IsAvailable path k (suc i) xs (omega arith)
          (λ j. e (suc j) ∙ ap (get_elem? path.steps) (omega arith)) in
      let here : get_elem? path.steps i ≡ some x =
        sym (e 0 ∙ ap (get_elem? path.steps) (omega arith)) in
      elim (Bool-cases (includes user_role x.roles)) [
        | inl yes' ↦ rw yes' (
          record { not_before = h; at_index = here; allowed = yes'; next = refl; named = refl },
          rest,
        )
        | inr no' ↦ rw no' rest
      ]

  path_actions-IsAvailable :
      (path : WorkflowPath) (k : ℕ)
      → All (IsAvailable path) (path_actions user_role current_step path k)
  unfolding path_actions
  path_actions-IsAvailable path k =
      actions_from-IsAvailable path k current_step (drop current_step path.steps) (omega arith)
        (λ j. get_elem?-drop current_step j path.steps)

  keep_nonempty :
      (path : WorkflowPath) (as' : List PathAction) (rest : List PathActions)
      → All (IsAvailable path) as'
      → All (λ g. All (IsAvailable g.path) g.actions) rest
      → All
          (λ g. All (IsAvailable g.path) g.actions)
          (unless_empty user_role current_step path as' rest)
  keep_nonempty path [] rest h k = k
  keep_nonempty path (a ∷ as') rest h k = (h, k)

  actions_of_paths-IsAvailable :
      (k : ℕ) (ps : List WorkflowPath)
      → All (λ g. All (IsAvailable g.path) g.actions) (actions_of_paths user_role current_step k ps)
  unfolding actions_of_paths
  actions_of_paths-IsAvailable k [] = tt
  actions_of_paths-IsAvailable k (p ∷ ps) =
      keep_nonempty p _ _ (path_actions-IsAvailable p k) (actions_of_paths-IsAvailable (suc k) ps)

  -- Every action that is found for a path is a step of that path at its index, not before the
  -- current step and open to the role; it is marked as next exactly at the current step.
  pub find_next_available_actions-IsAvailable :
      (w : Workflow)
      → All
          (λ g. All (IsAvailable g.path) g.actions)
          (find_next_available_actions user_role current_step w)
  unfolding find_next_available_actions
  find_next_available_actions-IsAvailable w = actions_of_paths-IsAvailable 0 w.paths

  actions_from_complete :
      (path : WorkflowPath) (k i j : ℕ) (xs : List Step) (x : Step)
      → get_elem? xs j ≡ some x
      → includes user_role x.roles ≡ true
      → any (is_at k (i + j)) (actions_from user_role current_step path k i xs) ≡ true
  unfolding actions_from
  actions_from_complete path k i j [] x e h = ground arith
  actions_from_complete path k i zero (y ∷ xs) x e h = ground arith
  actions_from_complete path k i (suc j) (y ∷ xs) x e h =
      let there : i + suc j ≡ suc i + j = omega arith in
      rw there (ground (arith, actions_from_complete path k (suc i) j xs x e h))

  path_actions_complete :
      (path : WorkflowPath) (k j : ℕ) (x : Step)
      → get_elem? path.steps j ≡ some x
      → current_step ≤ j
      → includes user_role x.roles ≡ true
      → any (is_at k j) (path_actions user_role current_step path k) ≡ true
  unfolding path_actions
  path_actions_complete path k j x f h g =
      let there : current_step + (j - current_step) ≡ j = omega arith in
      subst (λ i. any (is_at k i) (path_actions user_role current_step path k) ≡ true) there
        (actions_from_complete path k current_step (j - current_step) (drop current_step path.steps)
          x
          (get_elem?-drop current_step (j - current_step) path.steps
            ∙ ap (get_elem? path.steps) there
            ∙ f)
          g)

  any-unless_empty :
      (q : PathAction → Bool) (path : WorkflowPath) (as' : List PathAction)
      (rest : List PathActions)
      → any (λ g. any q g.actions) (unless_empty user_role current_step path as' rest)
        ≡ (any q as' || any (λ g. any q g.actions) rest)
  any-unless_empty q path [] rest = refl
  any-unless_empty q path (a ∷ as') rest = refl

  actions_of_paths_complete :
      (base k j : ℕ) (ps : List WorkflowPath) (p : WorkflowPath) (x : Step)
      → get_elem? ps k ≡ some p
      → get_elem? p.steps j ≡ some x
      → current_step ≤ j
      → includes user_role x.roles ≡ true
      → any
          (λ g. any (is_at (base + k) j) g.actions)
          (actions_of_paths user_role current_step base ps)
        ≡ true
  unfolding actions_of_paths
  actions_of_paths_complete base k j [] p x e f h g = ground arith
  actions_of_paths_complete base zero j (q ∷ qs) p x e f h g =
      let first : base + 0 ≡ base = omega arith in
      rw (first, any-unless_empty (is_at base j))
        (ground (
          arith,
          path_actions_complete q base j x
              (ap (λ r. get_elem? r.steps j) (some-injective _ _ e) ∙ f) h g,
        ))
  actions_of_paths_complete base (suc k) j (q ∷ qs) p x e f h g =
      let later : base + suc k ≡ suc base + k = omega arith in
      rw (later, any-unless_empty (is_at (suc base + k) j))
        (ground (arith, actions_of_paths_complete (suc base) k j qs p x e f h g))

  -- Every step of every path, from the current step on, that the role may take is found, under the
  -- indices of its path and of its place there.
  pub find_next_available_actions_complete :
      (k j : ℕ) (w : Workflow) (p : WorkflowPath) (x : Step)
      → get_elem? w.paths k ≡ some p
      → get_elem? p.steps j ≡ some x
      → current_step ≤ j
      → includes user_role x.roles ≡ true
      → any (λ g. any (is_at k j) g.actions) (find_next_available_actions user_role current_step w)
        ≡ true
  unfolding find_next_available_actions
  find_next_available_actions_complete k j w p x e f h g =
      subst
        (λ m.
          any (λ g'. any (is_at m j) g'.actions) (actions_of_paths user_role current_step 0 w.paths)
          ≡ true)
        (zero-add k) (actions_of_paths_complete 0 k j w.paths p x e f h g)

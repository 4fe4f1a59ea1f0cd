-- ===== src/Solver/Fuel.antt =====
-- engine/solver.py: proofs about the count of steps of `search`.
use mathlib.Core.Path.{subst}
use untangle.Base.{
  ℕ, zero, suc, ◌+◌, ◌≤◌, ltb, ◌≡◌, refl, ap, sym, ◌∙◌, inl, inr, String, ◌||◌, Bool-cases, List,
  [], ◌∷◌, arith,
}
use untangle.Base.Floats.{Floats}
use untangle.Solver.Graph.{Cost, CandidateAssignment, zero_cost, add_costs}
use untangle.Solver.Search.{
  Task, SearchState, keep_best, is_pruned, Visit, try_one, try_each, expand, search, baseline,
  outcome, solve_component,
}
use untangle.Solver.Induct.{search-keeps, search_over, search_within, keep_best_cases}

module _ {F : Type 0} ⦃fl : Floats F⦄ (task : Task F) where
  keep_best-steps :
      (ch : List (CandidateAssignment F)) (cost : Cost F) (st : SearchState F) (s : ℕ)
      → s ≤ st.steps
      → s ≤ (keep_best task ch cost st).steps
  keep_best-steps ch cost st s h = elim (keep_best_cases task ch cost st) [
    | inl (e, _) ↦ subst (λ t. s ≤ t.steps) (sym e) h
    | inr (e, _) ↦ subst (λ t. s ≤ t.steps) (sym e) h
  ]

  -- The count never falls.
  search-steps :
      (n : ℕ) (u k : List String) (ch : List (CandidateAssignment F)) (cost : Cost F)
      (st : SearchState F) (s : ℕ)
      → s ≤ st.steps
      → s ≤ (search task n u k ch cost st).steps
  search-steps n u k ch cost st s h =
      search-keeps {0, 0} task (λ _ _ _ _. Unit) (λ t. s ≤ t.steps) (λ _ _ _ _ _ _ _ _. tt)
        (λ c ch cost t _ p. keep_best-steps ch cost t s p) (λ t p. omega (arith, p)) (λ t p. p) n u
        k ch cost st tt h

  -- Two visits that do the same from a count of `s` on.
  abbrev AgreeFrom : ℕ → Visit task → Visit task → Type 0
  AgreeFrom s v w =
      (u k : List String) (ch : List (CandidateAssignment F)) (cost : Cost F) (st : SearchState F)
      → s ≤ st.steps
      → v u k ch cost st ≡ w u k ch cost st

  abbrev Climbs : Visit task → Type 0
  Climbs v =
      (u k : List String) (ch : List (CandidateAssignment F)) (cost : Cost F) (st : SearchState F)
      (s : ℕ)
      → s ≤ st.steps
      → s ≤ (v u k ch cost st).steps

  module _ (s : ℕ) (v w : Visit task) (agree : AgreeFrom s v w) (climbs : Climbs w)
      (u k : List String) (ch : List (CandidateAssignment F)) (cost : Cost F) where
    try_one-agree :
        (c : CandidateAssignment F) (st : SearchState F)
        → s ≤ st.steps
        → (try_one task v u k ch cost c st ≡ try_one task w u k ch cost c st)
          × (s ≤ (try_one task w u k ch cost c st).steps)
    try_one-agree c st h =
        elim (Bool-cases
          (st.step_budget_exceeded || is_pruned task (add_costs cost c.cost_tuple) st)) [
            | inl t ↦ rw t (refl, h)
            | inr f ↦ rw f (agree _ _ _ _ st h, climbs _ _ _ _ st s h)
          ]

    try_each-agree :
        (cs : List (CandidateAssignment F)) (st : SearchState F)
        → s ≤ st.steps
        → try_each task v u k ch cost cs st ≡ try_each task w u k ch cost cs st
    unfolding try_each
    try_each-agree [] st h = refl
    try_each-agree (c ∷ cs) st h =
        let (e, climb) = try_one-agree c st h in
        ap (try_each task v u k ch cost cs) e ∙ try_each-agree cs _ climb

  expand-agree :
      (s : ℕ) (v w : Visit task)
      → AgreeFrom s v w
      → Climbs w
      → AgreeFrom s (expand task v) (expand task w)
  expand-agree s v w agree climbs [] k ch cost st h = refl
  expand-agree s v w agree climbs (x ∷ xs) k ch cost st h =
      try_each-agree s v w agree climbs (x ∷ xs) k ch cost _ st h

  search-agree :
      (n m s : ℕ)
      → suc task.max_steps ≤ n + s
      → suc task.max_steps ≤ m + s
      → AgreeFrom s (search task n) (search task m)
  unfolding search
  search-agree zero zero s hn hm u k ch cost st h = refl
  search-agree zero (suc m) s hn hm u k ch cost st h =
      sym (search_over task m u k ch cost st (ground arith))
  search-agree (suc n) zero s hn hm u k ch cost st h =
      search_over task n u k ch cost st (ground arith)
  search-agree (suc n) (suc m) s hn hm u k ch cost st h =
      elim (Bool-cases (ltb task.max_steps (suc st.steps))) [
        | inl t ↦ search_over task n u k ch cost st t ∙ sym (search_over task m u k ch cost st t)
        | inr f ↦
            search_within task n u k ch cost st f
            ∙ (expand-agree (suc s) (search task n) (search task m)
                  (search-agree n m (suc s) (omega (arith, hn)) (omega (arith, hm)))
                  (search-steps m) u k ch cost _ (omega (arith, h))
                ∙ sym (search_within task m u k ch cost st f))
      ]

  -- The search of a component ends by its count of steps: with any fuel above `task.max_steps`, its state and so
  -- its outcome are the same, so no fuel bounds the source's recursion.
  pub solve_component-fuel :
      (comp : List String) (fuel : ℕ)
      → suc task.max_steps ≤ fuel
      → outcome task comp (search task fuel comp [] [] zero_cost (baseline task comp))
        ≡ solve_component task comp
  unfolding solve_component
  solve_component-fuel comp fuel h = ap (outcome task comp) (
      search-agree fuel (suc task.max_steps) 0 (omega (arith, h)) (omega arith) comp [] [] zero_cost
        _ (omega arith))

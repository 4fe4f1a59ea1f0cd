-- ===== src/Solver/Optimal.antt =====
-- engine/solver.py: proofs about the result of `_solve_component`.
use mathlib.Core.Path.{subst}
use mathlib.Core.List.{append-nil, append_assoc}
use untangle.Base.{
  suc, ◌==◌, ◌≡◌, refl, ap, sym, ◌∙◌, inl, inr, ◌⊎◌, String, true, false, Bool-cases, some,
  Option-cases, List, [], ◌∷◌, ◌++◌, length,
}
use untangle.Base.Floats.{Floats, IsOrder}
use untangle.Attribution.RuleLaws.{same_some}
use untangle.Solver.Graph.{Cost, CandidateAssignment, zero_cost, add_costs, cost_le}
use untangle.Solver.Search.{
  Task, SearchState, Solved, least, without_keys, consume, cost_from, default_chosen, keep_best,
  search, baseline, outcome, solve_component,
}
use untangle.Solver.Induct.{IsChoice, search-keeps, keep_best_cases}
use untangle.Solver.Costs.{IsPlan, all_assigned, assign, cost_from-append, Bounded}
use untangle.Solver.Searches.{search-Searches}

module _ {F : Type 0} ⦃fl : Floats F⦄ (ordered : IsOrder fl.leq) (task : Task F) where
  module _ (comp : List String) where
    abbrev pub Plan : List (CandidateAssignment F) → Type 0
    Plan p = IsPlan task comp [] p

    -- A kept assignment is the baseline or a plan, and its cost is the sum of its costs.
    abbrev Kept : Cost F × List (CandidateAssignment F) → Type 0
    Kept b = (b.0 ≡ cost_from zero_cost b.1) × ((b.1 ≡ default_chosen task comp) ⊎ Plan b.1)

    abbrev KeptBest : SearchState F → Type 0
    KeptBest st = (b : Cost F × List (CandidateAssignment F)) → st.best ≡ some b → Kept b

    -- The choices made so far lead to a plan, whatever completes them.
    abbrev Begins : List String → List String → List (CandidateAssignment F) → Cost F → Type 0
    Begins u k ch cost =
        ((rest : List (CandidateAssignment F)) → IsPlan task u k rest → Plan (ch ++ rest))
        × (cost ≡ cost_from zero_cost ch)

    choose-Begins :
        (k : String) (ks consumed : List String) (ch : List (CandidateAssignment F)) (cost : Cost F)
        (c : CandidateAssignment F)
        → Begins (k ∷ ks) consumed ch cost
        → IsChoice task (k ∷ ks) consumed (least k ks) c
        → Begins
            (without_keys (k ∷ ks) c)
            (consume task.graph consumed c)
            (ch ++ c ∷ [])
            (add_costs cost c.cost_tuple)
    choose-Begins k ks consumed ch cost c (h, e) choice = (
      λ rest p.
          subst Plan (sym (append_assoc ch (c ∷ []) rest))
            (h (c ∷ rest) (assign k ks consumed c rest choice p)),
      ap (λ x. add_costs x c.cost_tuple) e ∙ sym (cost_from-append zero_cost ch c),
    )

    leaf-KeptBest :
        (consumed : List String) (ch : List (CandidateAssignment F)) (cost : Cost F)
        (st : SearchState F)
        → Begins [] consumed ch cost
        → KeptBest st
        → KeptBest (keep_best task ch cost st)
    leaf-KeptBest consumed ch cost st (h, e) kept = elim (keep_best_cases task ch cost st) [
      | inl (same, _) ↦ subst KeptBest (sym same) kept
      | inr (same, _) ↦ subst KeptBest (sym same) (λ b q.
          subst Kept (same_some q)
            (e, inr (subst Plan (append-nil ch) (h [] (all_assigned consumed)))))
    ]

    baseline-KeptBest : KeptBest (baseline task comp)
    baseline-KeptBest b q = elim (Bool-cases (length (default_chosen task comp) == length comp)) [
      | inl t ↦ subst Kept (same_some (rw t at q)) (refl, inl refl)
      | inr f ↦ cc (rw f at q)
    ]

    -- What holds of a result that is not timed out.
    abbrev pub IsBest : Solved F → Type 0
    IsBest r =
        ((p : List (CandidateAssignment F))
          → Plan p
          → cost_le r.cost (cost_from zero_cost p) ≡ true)
        × (((r.cost ≡ cost_from zero_cost r.assignment)
              × ((r.assignment ≡ default_chosen task comp) ⊎ Plan r.assignment))
            ⊎ ((r.assignment ≡ []) × ((p : List (CandidateAssignment F)) → Plan p → ⊥)))

    outcome-IsBest :
        (st : SearchState F)
        → (st.step_budget_exceeded ≡ false
            → (p : List (CandidateAssignment F)) → Plan p
            → Bounded st (cost_from zero_cost p))
        → KeptBest st
        → (outcome task comp st).timed_out ≡ false
        → IsBest (outcome task comp st)
    outcome-IsBest st bounded kept live = elim (Bool-cases st.step_budget_exceeded) [
      | inl t ↦ cc (rw t at live)
      | inr f ↦ elim (Option-cases st.best) [
        | inl n ↦
            let none_at_all : (p : List (CandidateAssignment F)) → Plan p → ⊥ =
              λ p plan. let (b, q, _) = bounded f p plan in cc (n, q) in
            rw (f, n) (λ p plan. absurd (none_at_all p plan), inr (refl, none_at_all))
        | inr (b, q) ↦
            rw (f, q)
              (
                λ p plan.
                    let (c, k, h) = bounded f p plan in
                    subst (λ x. cost_le x.0 (cost_from zero_cost p) ≡ true) (same_some (sym k ∙ q))
                      h,
                inl (kept b q),
              )
      ]
    ]

    -- A component that is solved within its steps: its assignment costs no more than any plan (each credit
    -- assigned once, each settlement used at most once and by no earlier component, no excluded candidate),
    -- and it is itself such a plan or the baseline in which every credit abstains, at the sum of its costs;
    -- it is empty only where there is no plan. The floats are no NaN.
    pub solve_component-IsBest :
        (solve_component task comp).timed_out ≡ false → IsBest (solve_component task comp)
    unfolding solve_component
    solve_component-IsBest live =
        let st = search task (suc task.max_steps) comp [] [] zero_cost (baseline task comp) in
        outcome-IsBest st
          (λ on p plan.
            search-Searches ordered task (suc task.max_steps) comp [] [] zero_cost _ p on plan)
          (search-keeps {0, 0} task Begins KeptBest choose-Begins leaf-KeptBest (λ t p. p)
            (λ t p. p) (suc task.max_steps) comp [] [] zero_cost _ (λ rest p. p, refl)
            baseline-KeptBest)
          live

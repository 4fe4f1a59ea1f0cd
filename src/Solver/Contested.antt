-- ===== src/Solver/Contested.antt =====
-- engine/solver.py: proofs about contested credits and the results of `_solve_component`.
use untangle.Base.{
  ℕ, suc, ◌≡◌, refl, inl, inr, ◌⊎◌, String, Bool, true, false, ◌&&◌, not, Bool-cases, &&-left,
  Option-cases, List, [], ◌∷◌, filter, In, In-of_filter, In-of_flat_map, if◌then◌else◌,
}
use untangle.Base.Keys.{Dict, ◌=?◌, =?_eq, insert, contains, keys, string_eq}
use untangle.Base.Floats.{Floats, IsOrder, less}
use untangle.Models.{Contest}
use untangle.Solver.Graph.{Cost, zero_cost, CandidateAssignment, AssignmentGraph}
use untangle.Solver.Search.{
  Task, SearchState, Solved, search, baseline, candidates_of, default_chosen, outcome,
  solve_component,
}
use untangle.Solver.Costs.{IsPlan}
use untangle.Solver.Optimal.{solve_component-IsBest}
use untangle.Solver.Plans.{add-unused}
use untangle.Base.Dicts.{keys-insert}
use untangle.Solver.Assign.{
  Assigning, abstains, task_of, contest_keys, contest_one, contest_each, contest_all,
}

module _ {F : Type 0} ⦃fl : Floats F⦄ (task : Task F) where
  pub default_chosen-target :
      (comp : List String) (c : CandidateAssignment F)
      → In c (default_chosen task comp)
      → c.target_id ≡ "abstain"
  unfolding default_chosen
  default_chosen-target comp c m =
      let (k, _, n) =
        In-of_flat_map
          (λ k.
            filter (λ c. (c.target_id =? "abstain") && not (contains c.assignment_id task.excluded))
              (candidates_of task k))
          c _ m in
      =?_eq c.target_id "abstain" (
        &&-left _ _
          (In-of_filter
            (λ c. (c.target_id =? "abstain") && not (contains c.assignment_id task.excluded)) c
            (candidates_of task k) n).1)

  outcome-timed :
      (comp : List String) (st : SearchState F)
      → (outcome task comp st).timed_out ≡ true
      → (outcome task comp st).assignment ≡ default_chosen task comp
  outcome-timed comp st h = elim (Bool-cases st.step_budget_exceeded) [
    | inl t ↦ rw t refl
    | inr f ↦ elim (Option-cases st.best) [
      | inl n ↦ cc (rw (f, n) at h)
      | inr (b, n) ↦ cc (rw (f, n) at h)
    ]
  ]

  -- What a component is given: the baseline, a plan, or nothing.
  pub solve_component_kinds :
      IsOrder fl.leq
      → (comp : List String)
      → ((solve_component task comp).assignment ≡ default_chosen task comp)
        ⊎ (IsPlan task comp [] (solve_component task comp).assignment
            ⊎ ((solve_component task comp).assignment ≡ []))
  unfolding solve_component
  solve_component_kinds ordered comp = elim (Bool-cases (solve_component task comp).timed_out) [
    | inl t ↦ inl (
        outcome-timed comp
          (search task (suc task.max_steps) comp [] [] zero_cost (baseline task comp)) t)
    | inr f ↦ elim (solve_component-IsBest ordered task comp f).1 [
      | inr (e, _) ↦ inr (inr e)
      | inl (_, inl e) ↦ inl e
      | inl (_, inr p) ↦ inr (inl p)
    ]
  ]

-- A credit that is not contested.
abbrev pub Uncontested : {F : Type 0} → Dict String (Contest F) → String → Type 0
Uncontested d k = contains k (keys d) ≡ false

insert-Uncontested :
    {F : Type 0} (k j : String) (v : Contest F) (d : Dict String (Contest F))
    → Uncontested (insert j v d) k
    → Uncontested d k
insert-Uncontested k j v d h = add-unused k j (keys d) (rw (keys-insert j v d) at h)

module _ {F : Type 0} ⦃fl : Floats F⦄ (g : AssignmentGraph F) (margin_threshold : F)
    (max_steps : ℕ) where
  -- A contested credit stays contested.
  contest_keys-Uncontested :
      (c : CandidateAssignment F) (gap : F) (alternative : List (CandidateAssignment F))
      (ks : List String) (d : Dict String (Contest F)) (k : String)
      → Uncontested (contest_keys g margin_threshold max_steps c gap alternative ks d) k
      → Uncontested d k
  contest_keys-Uncontested c gap alternative [] d k h = h
  contest_keys-Uncontested c gap alternative (j ∷ js) d k h =
      insert-Uncontested k j _ d (contest_keys-Uncontested c gap alternative js _ k h)

  contest_one-Uncontested :
      (comp consumed : List String) (best : Cost F) (c : CandidateAssignment F)
      (d : Dict String (Contest F)) (k : String)
      → Uncontested (contest_one g margin_threshold max_steps comp consumed best c d) k
      → Uncontested d k
  unfolding contest_one
  contest_one-Uncontested comp consumed best c d k h =
      let alt =
        solve_component (task_of g margin_threshold max_steps (c.assignment_id ∷ []) consumed)
          comp in
      let gap = fl.round 4 (fl.minus alt.cost.evidence best.evidence) in
      either_of (abstains c) _ d _ k h
        (λ h1.
          either_of _ d
            (contest_keys g margin_threshold max_steps c gap alt.assignment c.credit_keys d) d k h1
            (λ h2. h2) (contest_keys-Uncontested c gap alt.assignment c.credit_keys d k))
        (λ h1. h1)
    where
      either_of :
          (b : Bool) (x y z : Dict String (Contest F)) (k : String)
          → Uncontested (if b then y else x) k
          → (Uncontested x k → Uncontested z k)
          → (Uncontested y k → Uncontested z k)
          → Uncontested z k
      either_of true x y z k h f t = t h
      either_of false x y z k h f t = f h

  contest_each-Uncontested :
      (comp consumed : List String) (best : Cost F) (cs : List (CandidateAssignment F))
      (d : Dict String (Contest F)) (k : String)
      → Uncontested (contest_each g margin_threshold max_steps comp consumed best cs d) k
      → Uncontested d k
  unfolding contest_each
  contest_each-Uncontested comp consumed best [] d k h = h
  contest_each-Uncontested comp consumed best (c ∷ cs) d k h =
      contest_one-Uncontested comp consumed best c d k
        (contest_each-Uncontested comp consumed best cs _ k h)

  pub contest_all-Uncontested :
      (comp : List String) (s : Assigning F) (r : Solved F) (k : String)
      → Uncontested (contest_all g margin_threshold max_steps comp s r) k
      → Uncontested s.contested_credits k
  contest_all-Uncontested comp s r k h = elim (Bool-cases (less (fl.decimal 0) margin_threshold)) [
    | inl t ↦
        contest_each-Uncontested comp s.consumed_settlements r.cost r.assignment s.contested_credits
          k (rw t at h)
    | inr f ↦ rw f at h
  ]

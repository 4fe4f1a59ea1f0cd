-- ===== src/Solver/Search.antt =====
-- engine/solver.py: `_solve_component`, the branch and bound over one component. The recursion of
-- `search` is on fuel, which starts one above `max_steps`.
use untangle.Base.{
  ℕ, zero, suc, ltb, ◌==◌, String, Bool, true, false, ◌&&◌, ◌||◌, not, Option, none, some, List, [],
  ◌∷◌, ◌++◌, filter, flat_map, all, length, if◌then◌else◌,
}
use untangle.Base.Keys.{◌=?◌, lookup, contains, add, keys, string_eq}
use untangle.Base.Floats.{Floats}
use untangle.Subsets.{text_le}
use untangle.Reconcile.Index.{or_else}
use untangle.Attribution.Setsum.{sort_sids}
use untangle.Solver.Graph.{
  Cost, CandidateAssignment, AssignmentGraph, zero_cost, add_costs, cost_le, cost_less,
  prefix_greater, candidate_le,
}

-- The arguments of `_solve_component` but for the component.
pub record Task (F : Type 0) : Type 0 where
  pub graph : AssignmentGraph F
  pub excluded : List String
  pub global_consumed : List String
  pub max_steps : ℕ

-- The variables that `search` shares: `best_cost` with `best_assignment`, `steps` and its flag.
pub record SearchState (F : Type 0) : Type 0 where
  pub best : Option (Cost F × List (CandidateAssignment F))
  pub steps : ℕ
  pub step_budget_exceeded : Bool

-- The triple that `_solve_component` returns.
pub record Solved (F : Type 0) : Type 0 where
  pub assignment : List (CandidateAssignment F)
  pub cost : Cost F
  pub timed_out : Bool

-- `min(unassigned)`
abbrev pub least : String → List String → String
least m [] = m
least m (k ∷ ks) = least (if text_le m k then m else k) ks

module _ {F : Type 0} where
  -- `c.target_id in graph.settlements`
  abbrev pub has_settlement : AssignmentGraph F → CandidateAssignment F → Bool
  has_settlement g c = contains c.target_id (keys g.settlements)

  -- `unassigned - set(c.credit_keys)`
  abbrev pub without_keys : List String → CandidateAssignment F → List String
  without_keys unassigned c = filter (λ k. not (contains k c.credit_keys)) unassigned

  abbrev pub consume : AssignmentGraph F → List String → CandidateAssignment F → List String
  consume g sids c = if has_settlement g c then add c.target_id sids else sids

module _ {F : Type 0} ⦃fl : Floats F⦄ where
  unfoldable pub insert_candidate :
      CandidateAssignment F → List (CandidateAssignment F) → List (CandidateAssignment F)
  insert_candidate c [] = c ∷ []
  insert_candidate c (d ∷ ds) =
      let rest = insert_candidate c ds in if candidate_le c d then c ∷ d ∷ ds else d ∷ rest

  unfoldable pub sort_candidates : List (CandidateAssignment F) → List (CandidateAssignment F)
  unfolding insert_candidate
  sort_candidates [] = []
  sort_candidates (c ∷ cs) = insert_candidate c (sort_candidates cs)

  -- The sum of the costs, as the search adds them up.
  unfoldable pub cost_from : Cost F → List (CandidateAssignment F) → Cost F
  cost_from cost [] = cost
  cost_from cost (c ∷ cs) = cost_from (add_costs cost c.cost_tuple) cs

  module _ (task : Task F) where
    abbrev pub candidates_of : String → List (CandidateAssignment F)
    candidates_of k = or_else [] (lookup k task.graph.candidates_by_credit)

    -- `default_chosen`
    unfoldable pub default_chosen : List String → List (CandidateAssignment F)
    unfolding sort_sids
    default_chosen comp =
        flat_map
          (λ k.
            filter (λ c. (c.target_id =? "abstain") && not (contains c.assignment_id task.excluded))
              (candidates_of k))
          (sort_sids comp)

    -- The conditions of `valid_cands`.
    abbrev pub is_valid : List String → List String → CandidateAssignment F → Bool
    is_valid unassigned consumed c =
        not (contains c.assignment_id task.excluded)
        && (all (λ k. contains k unassigned) c.credit_keys
            && (not (has_settlement task.graph c)
                || (not (contains c.target_id task.global_consumed)
                    && not (contains c.target_id consumed))))

    unfoldable pub valid_cands : List String → List String → String → List (CandidateAssignment F)
    unfolding sort_candidates
    valid_cands unassigned consumed next_credit =
        sort_candidates (filter (is_valid unassigned consumed) (candidates_of next_credit))

    -- A complete assignment: keep it if it is better.
    abbrev pub keep_best : List (CandidateAssignment F) → Cost F → SearchState F → SearchState F
    keep_best chosen cost st = elim st.best [
      | none ↦ record st { best = some (cost, chosen) }
      | some b ↦ if cost_less cost b.0 then record st { best = some (cost, chosen) } else st
    ]

    -- `best_cost is not None and tentative_cost[:2] > best_cost[:2]`
    abbrev pub is_pruned : Cost F → SearchState F → Bool
    is_pruned cost st = elim st.best [ none ↦ false | some b ↦ prefix_greater cost b.0 ]

    abbrev pub Visit : Type 0
    Visit =
        List String
        → List String
        → List (CandidateAssignment F)
        → Cost F
        → SearchState F
        → SearchState F

    -- One candidate of the loop, with `search` itself as `visit`.
    abbrev pub try_one :
        Visit
        → (unassigned consumed : List String) → List (CandidateAssignment F)
        → Cost F
        → CandidateAssignment F
        → SearchState F
        → SearchState F
    try_one visit unassigned consumed chosen cost c st =
        if st.step_budget_exceeded || is_pruned (add_costs cost c.cost_tuple) st
        then st
        else visit (without_keys unassigned c) (consume task.graph consumed c) (chosen ++ c ∷ [])
            (add_costs cost c.cost_tuple) st

    -- The loop over the candidates; `return` on the flag passes the rest over too.
    unfoldable pub try_each :
        Visit
        → (unassigned consumed : List String) → List (CandidateAssignment F)
        → Cost F
        → List (CandidateAssignment F)
        → SearchState F
        → SearchState F
    unfolding prefix_greater
    try_each visit unassigned consumed chosen cost [] st = st
    try_each visit unassigned consumed chosen cost (c ∷ cs) st =
        try_each visit unassigned consumed chosen cost cs
          (try_one visit unassigned consumed chosen cost c st)

    abbrev pub count_step : SearchState F → SearchState F
    count_step st = record st { steps = suc st.steps }

    abbrev pub exceed : SearchState F → SearchState F
    exceed st = record st { step_budget_exceeded = true }

    -- The body of `search` after the count.
    abbrev pub expand : Visit → Visit
    expand visit [] consumed chosen cost st = keep_best chosen cost st
    expand visit (k ∷ ks) consumed chosen cost st =
        try_each visit (k ∷ ks) consumed chosen cost (valid_cands (k ∷ ks) consumed (least k ks)) st

    unfoldable pub search : ℕ → Visit
    unfolding try_each valid_cands cost_le
    search zero unassigned consumed chosen cost st = exceed (count_step st)
    search (suc n) unassigned consumed chosen cost st = elim (ltb task.max_steps (suc st.steps)) [
      | true ↦ exceed (count_step st)
      | false ↦ expand (search n) unassigned consumed chosen cost (count_step st)
    ]

    -- Before the search: the baseline in which every credit abstains.
    abbrev pub baseline : List String → SearchState F
    baseline comp = record {
      best =
          if length (default_chosen comp) == length comp
          then some (cost_from zero_cost (default_chosen comp), default_chosen comp)
          else none;
      steps = 0;
      step_budget_exceeded = false;
    }

    abbrev pub default_cost : List String → Cost F
    default_cost comp =
        if length (default_chosen comp) == length comp
        then cost_from zero_cost (default_chosen comp)
        else zero_cost

    abbrev pub no_assignment : Cost F
    no_assignment = record {
      invalid = 999;
      unexplained = 999999999;
      residual = 999999999;
      evidence = fl.decimal 0;
      operations = fl.decimal 9990000;
    }

    -- What the search leaves.
    abbrev pub outcome : List String → SearchState F → Solved F
    outcome comp st =
        if st.step_budget_exceeded
        then record { assignment = default_chosen comp; cost = default_cost comp; timed_out = true }
        else elim st.best [
          | none ↦ record { assignment = []; cost = no_assignment; timed_out = false }
          | some b ↦ record { assignment = b.1; cost = b.0; timed_out = false }
        ]

    unfoldable pub solve_component : List String → Solved F
    unfolding default_chosen cost_from search cost_le
    solve_component comp =
        outcome comp (search (suc task.max_steps) comp [] [] zero_cost (baseline comp))

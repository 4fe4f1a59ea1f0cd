-- ===== src/Solver/Tests.antt =====
-- Two credits of 1,000 paise compete for the one settlement of that net.
use untangle.Base.{
  ℕ, ◌≡◌, refl, inl, inr, String, true, false, none, some, List, [], ◌∷◌, In, arith,
}
use untangle.Base.Int.{ℤ, pos, negsuc, ◌+ℤ◌}
use untangle.Base.Keys.{contains, string_eq}
use untangle.Attribution.Examples.{decimals, decimals-IsOrder}
use untangle.Solver.Graph.{CandidateAssignment, AssignmentGraph, SolverNode, zero_cost}
use untangle.Solver.Search.{
  Task, has_settlement, cost_from, search, baseline, outcome, solve_component,
}
use untangle.Solver.Fuel.{solve_component-fuel}
use untangle.Solver.Costs.{IsPlan, all_assigned, assign}
use untangle.Solver.Optimal.{IsBest, solve_component-IsBest}
use untangle.Solver.Assign.{CreditAssignmentVerdict, solve_graph, solve_assignment}
use untangle.Solver.Exclusive.{solve_assignment-exclusive}
use untangle.Solver.Plans.{AllApart, IsPlan-exact}

abbrev candidate : String → String → ℕ → ℤ → CandidateAssignment ℤ
candidate key target unexplained evidence = record {
  assignment_id = key;
  credit_keys = key ∷ [];
  target_id = target;
  rail = target;
  tier = "B";
  confidence = pos 9000;
  evidence = [];
  residual_paise = pos 0;
  cost_tuple = record {
    invalid = 0;
    unexplained = unexplained;
    residual = 0;
    evidence = evidence;
    operations = pos 10000;
  };
  is_split = false;
}

abbrev to_settlement : String → CandidateAssignment ℤ
to_settlement key = candidate key "setl_a" 0 (negsuc 8999)

abbrev abstains : String → CandidateAssignment ℤ
abstains key = candidate key "abstain" 1000 (pos 0)

abbrev settlement : SolverNode
settlement = record {
  node_id = "setl_a";
  kind = "settlement";
  amount_paise = pos 1000;
  value_date = some 738000;
  metadata = none;
}

abbrev contest : AssignmentGraph ℤ
contest = record {
  credits = [];
  settlements = ("setl_a", settlement) ∷ [];
  candidates = [];
  candidates_by_credit =
      ("line_1", abstains "line_1" ∷ to_settlement "line_1" ∷ [])
      ∷ ("line_2", abstains "line_2" ∷ to_settlement "line_2" ∷ [])
      ∷ [];
  candidates_by_settlement = [];
  components = [];
  un_enumerable_credits = [];
}

abbrev task : Task ℤ
task = record { graph = contest; excluded = []; global_consumed = []; max_steps = 20 }

abbrev both : List String
both = "line_1" ∷ "line_2" ∷ []

abbrev winner : List (CandidateAssignment ℤ)
winner = to_settlement "line_1" ∷ abstains "line_2" ∷ []

solves : (solve_component task both).assignment ≡ winner
unfolding solve_component ◌+ℤ◌
solves = refl

in_time : (solve_component task both).timed_out ≡ false
unfolding solve_component ◌+ℤ◌
in_time = refl

solve_component-IsBest_example : IsBest decimals-IsOrder task both (solve_component task both)
solve_component-IsBest_example = solve_component-IsBest decimals-IsOrder task both in_time

-- With two steps the search times out, and both abstain.
times_out : solve_component (record task { max_steps = 2 }) both ≡ record {
  assignment = abstains "line_1" ∷ abstains "line_2" ∷ [];
  cost = cost_from zero_cost (abstains "line_1" ∷ abstains "line_2" ∷ []);
  timed_out = true;
}
unfolding solve_component ◌+ℤ◌
times_out = refl

solve_component-fuel_example :
    outcome task both (search task 500 both [] [] zero_cost (baseline task both))
    ≡ solve_component task both
solve_component-fuel_example = solve_component-fuel task both 500 (omega arith)

winner-IsPlan : IsPlan task both [] winner
unfolding ◌+ℤ◌
winner-IsPlan =
    assign "line_1" ("line_2" ∷ []) [] (to_settlement "line_1") _ (inr (inl refl), refl)
      (assign "line_2" [] _ (abstains "line_2") [] (inl refl, refl) (all_assigned _))

IsPlan-exact_example :
    ((x : String) → In x both → (c : CandidateAssignment ℤ) × In c winner × In x c.credit_keys)
    × ((c : CandidateAssignment ℤ)
        → In c winner
        → ((x : String) → In x c.credit_keys → In x both)
          × (has_settlement contest c ≡ true → contains c.target_id [] ≡ false))
    × AllApart contest winner
IsPlan-exact_example = IsPlan-exact task both winner winner-IsPlan

-- A settlement that was paid out in two credits of 500 paise.
abbrev halves : CandidateAssignment ℤ
halves = record (candidate "split:setl_a:line_1+line_2" "setl_a" 0 (negsuc 8999)) {
  credit_keys = both;
  is_split = true;
}

abbrev shared : AssignmentGraph ℤ
shared = record contest {
  credits = ("line_1", settlement) ∷ ("line_2", settlement) ∷ [];
  candidates_by_credit =
      ("line_1", abstains "line_1" ∷ halves ∷ [])
      ∷ ("line_2", abstains "line_2" ∷ halves ∷ [])
      ∷ [];
  components = both ∷ [];
}

abbrev half_verdict : String → CreditAssignmentVerdict ℤ
half_verdict key = record {
  line_key = key;
  rail = "setl_a";
  target_id = "setl_a";
  confidence = pos 9000;
  tier = "B";
  evidence = [];
  abstained = false;
  residual_paise = pos 0;
  covered_split_keys = [];
  competing_global_explanation = none;
  rejected_local_matches = [];
}

assigns : solve_assignment shared (pos 0) 20 ≡ half_verdict "line_1" ∷ half_verdict "line_2" ∷ []
unfolding solve_assignment ◌+ℤ◌
assigns = refl

solve_assignment-exclusive_example :
    (c : CandidateAssignment ℤ) × In c (solve_graph shared (pos 0) 20).all_chosen
    × In "line_1" c.credit_keys
    × In "line_2" c.credit_keys
solve_assignment-exclusive_example =
    solve_assignment-exclusive decimals-IsOrder shared (pos 0) 20 refl (half_verdict "line_1")
      (half_verdict "line_2") (rw assigns (inl refl)) (rw assigns (inr (inl refl))) refl refl refl
      refl

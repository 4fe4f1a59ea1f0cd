-- ===== src/Solver/Assign.antt =====
-- engine/solver.py: `solve_assignment`, the components in turn, the contested credits and the verdicts.
-- The texts of notes and details are left out.
use untangle.Base.{
  ℕ, ◌==◌, String, Bool, true, false, ◌&&◌, ◌||◌, not, Option, none, some, List, [], ◌∷◌, ◌++◌, map,
  filter, all, if◌then◌else◌,
}
use untangle.Base.Int.{ℤ, pos}
use untangle.Base.Keys.{Dict, ◌=?◌, lookup, insert, contains, add, keys, string_eq}
use untangle.Base.Floats.{Floats, less}
use untangle.Models.{EvidenceItem, Contender, Contest}
use untangle.Attribution.Setsum.{sort_sids}
use untangle.Solver.Graph.{Cost, CandidateAssignment, AssignmentGraph}
use untangle.Solver.Search.{Task, Solved, has_settlement, solve_component}

pub record CreditAssignmentVerdict (F : Type 0) : Type 0 where
  pub line_key : String
  pub rail : String
  pub target_id : String
  pub confidence : F
  pub tier : String
  pub evidence : List (EvidenceItem F)
  pub abstained : Bool
  pub residual_paise : ℤ
  pub covered_split_keys : List String
  pub competing_global_explanation : Option (Contest F)
  pub rejected_local_matches : List String

-- The variables of the loop over the components.
pub record Assigning (F : Type 0) : Type 0 where
  pub all_chosen : List (CandidateAssignment F)
  pub consumed_settlements : List String
  pub contested_credits : Dict String (Contest F)
  pub is_optimal : Bool

module _ {F : Type 0} where
  -- The last assignment with this credit, as in a dict that a loop fills.
  unfoldable pub by_credit : String → List (CandidateAssignment F) → Option (CandidateAssignment F)
  by_credit k [] = none
  by_credit k (c ∷ cs) = elim (by_credit k cs) [
    | some d ↦ some d
    | none ↦ if contains k c.credit_keys then some c else none
  ]

  abbrev pub contender : CandidateAssignment F → Contender F
  contender c = record {
    assignment_id = c.assignment_id;
    target_id = c.target_id;
    rail = c.rail;
    confidence = c.confidence;
  }

  abbrev pub abstains : CandidateAssignment F → Bool
  abstains c = (c.target_id =? "abstain") || (c.rail =? "UNKNOWN")

  -- The settlements that are recorded as consumed: not those whose credits are all contested.
  abbrev pub consume_one :
      AssignmentGraph F
      → Dict String (Contest F)
      → List String
      → CandidateAssignment F
      → List String
  consume_one g contested sids c =
      if has_settlement g c && not (all (λ k. contains k (keys contested)) c.credit_keys)
      then add c.target_id sids
      else sids

  unfoldable pub consume_all :
      AssignmentGraph F
      → Dict String (Contest F)
      → List String
      → List (CandidateAssignment F)
      → List String
  consume_all g contested sids [] = sids
  consume_all g contested sids (c ∷ cs) =
      consume_all g contested (consume_one g contested sids c) cs

module _ {F : Type 0} ⦃fl : Floats F⦄ (g : AssignmentGraph F) (margin_threshold : F)
    (max_steps : ℕ) where
  abbrev pub task_of : List String → List String → Task F
  task_of excluded consumed = record {
    graph = g;
    excluded = excluded;
    global_consumed = consumed;
    max_steps = max_steps;
  }

  -- `alt_cost[:3] == best_cost[:3]`
  abbrev pub ties : Cost F → Cost F → Bool
  ties a b =
      (a.invalid == b.invalid) && ((a.unexplained == b.unexplained) && (a.residual == b.residual))

  abbrev pub contest_of : CandidateAssignment F → F → CandidateAssignment F → Contest F
  contest_of chosen gap competing = record {
    chosen = contender chosen;
    competing = contender competing;
    objective_gap = gap;
    margin_threshold = margin_threshold;
  }

  abbrev pub or_chosen :
      CandidateAssignment F → Option (CandidateAssignment F) → CandidateAssignment F
  or_chosen c none = c
  or_chosen c (some d) = d

  -- The credits of `c` are contested, each with its assignment in the alternative.
  abbrev pub contest_keys :
      CandidateAssignment F
      → F
      → List (CandidateAssignment F)
      → List String
      → Dict String (Contest F)
      → Dict String (Contest F)
  contest_keys c gap alternative [] d = d
  contest_keys c gap alternative (k ∷ ks) d =
      contest_keys c gap alternative ks
        (insert k (contest_of c gap (or_chosen c (by_credit k alternative))) d)

  abbrev pub is_none : {A : Type 0} → List A → Bool
  is_none [] = true
  is_none (_ ∷ _) = false

  -- The search for the best alternative without one choice.
  unfoldable pub contest_one :
      List String
      → List String
      → Cost F
      → CandidateAssignment F
      → Dict String (Contest F)
      → Dict String (Contest F)
  unfolding solve_component by_credit
  contest_one comp consumed best c d =
      let alt = solve_component (task_of (c.assignment_id ∷ []) consumed) comp in
      let gap = fl.round 4 (fl.minus alt.cost.evidence best.evidence) in
      if abstains c
      then d
      else if (not (is_none alt.assignment) && ties alt.cost best) && fl.leq gap margin_threshold
      then contest_keys c gap alt.assignment c.credit_keys d
      else d

  unfoldable pub contest_each :
      List String
      → List String
      → Cost F
      → List (CandidateAssignment F)
      → Dict String (Contest F)
      → Dict String (Contest F)
  unfolding contest_one
  contest_each comp consumed best [] d = d
  contest_each comp consumed best (c ∷ cs) d =
      contest_each comp consumed best cs (contest_one comp consumed best c d)

  abbrev pub contest_all : List String → Assigning F → Solved F → Dict String (Contest F)
  contest_all comp s r =
      if less (fl.decimal 0) margin_threshold
      then contest_each comp s.consumed_settlements r.cost r.assignment s.contested_credits
      else s.contested_credits

  -- One component of the loop.
  unfoldable pub solve_one : Assigning F → List String → Assigning F
  unfolding solve_component contest_each consume_all
  solve_one s comp =
      let r = solve_component (task_of [] s.consumed_settlements) comp in
      let contested = contest_all comp s r in
      record {
        all_chosen = s.all_chosen ++ r.assignment;
        consumed_settlements = consume_all g contested s.consumed_settlements r.assignment;
        contested_credits = contested;
        is_optimal = s.is_optimal && not r.timed_out;
      }

  unfoldable pub solve_each : Assigning F → List (List String) → Assigning F
  unfolding solve_one
  solve_each s [] = s
  solve_each s (comp ∷ comps) = solve_each (solve_one s comp) comps

  unfoldable pub solve_graph : Assigning F
  unfolding solve_each
  solve_graph =
      solve_each
        (record {
          all_chosen = [];
          consumed_settlements = [];
          contested_credits = [];
          is_optimal = is_none g.un_enumerable_credits;
        })
        g.components

  -- The ids of the candidates that were not chosen, among those of one credit.
  abbrev pub rejected_of : Assigning F → String → List String
  rejected_of s k = sort_sids (
      map (λ c. c.assignment_id)
        (filter
          (λ c.
            not (contains c.assignment_id (map (λ d. d.assignment_id) s.all_chosen))
            && (not (c.target_id =? "abstain") && contains k c.credit_keys))
          g.candidates))

  abbrev pub abstained_verdict :
      String → Option (Contest F) → List String → CreditAssignmentVerdict F
  abstained_verdict k contest rejected = record {
    line_key = k;
    rail = "UNKNOWN";
    target_id = "abstain";
    confidence = fl.decimal 0;
    tier = "B";
    evidence = [];
    abstained = true;
    residual_paise = pos 0;
    covered_split_keys = [];
    competing_global_explanation = contest;
    rejected_local_matches = rejected;
  }

  abbrev pub chosen_verdict :
      String → CandidateAssignment F → List String → CreditAssignmentVerdict F
  chosen_verdict k c rejected =
      let razorpay = c.rail =? "razorpay_settlement" in
      record {
        line_key = k;
        rail = c.rail;
        target_id = c.target_id;
        confidence = c.confidence;
        tier = c.tier;
        evidence = c.evidence;
        abstained = false;
        residual_paise = if razorpay then c.residual_paise else pos 0;
        covered_split_keys = if razorpay && c.is_split then c.credit_keys else [];
        competing_global_explanation = none;
        rejected_local_matches = rejected;
      }

  -- The verdict on one credit.
  unfoldable pub verdict_on : Assigning F → String → CreditAssignmentVerdict F
  unfolding by_credit sort_sids
  verdict_on s k = elim (lookup k s.contested_credits) [
    | some contest ↦ abstained_verdict k (some contest) (rejected_of s k)
    | none ↦ elim (by_credit k s.all_chosen) [
      | none ↦ abstained_verdict k none (rejected_of s k)
      | some c ↦
          if abstains c
          then abstained_verdict k none (rejected_of s k)
          else chosen_verdict k c (rejected_of s k)
    ]
  ]

  -- The verdicts of `solve_assignment`, in the order of the credits; without credits there are none.
  unfoldable pub solve_assignment : List (CreditAssignmentVerdict F)
  unfolding verdict_on solve_graph
  solve_assignment = map (verdict_on solve_graph) (sort_sids (keys g.credits))

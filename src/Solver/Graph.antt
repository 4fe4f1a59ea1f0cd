-- ===== src/Solver/Graph.antt =====
-- engine/solver.py: the records of the solver, and the order of its costs. The integers of a cost are
-- never negative, so they are natural numbers.
use untangle.Base.{
  ℕ, ◌+◌, leb, ltb, ◌==◌, String, Bool, true, false, not, Option, List, [], ◌∷◌, if◌then◌else◌,
}
use untangle.Base.Int.{ℤ}
use untangle.Base.Keys.{Dict, string_eq}
use untangle.Base.Floats.{Floats, lex, lex_by}
use untangle.Models.{EvidenceItem}
use untangle.Subsets.{text_le}

-- `metadata` has the narration and the reference of a credit.
pub record SolverNode : Type 0 where
  pub node_id : String
  pub kind : String
  pub amount_paise : ℤ
  pub value_date : Option ℕ
  pub metadata : Option (String × Option String)

-- A cost tuple: the invalid picks, the unexplained paise, the residual paise, the evidence weight (negated)
-- and the cost of operations.
pub record Cost (F : Type 0) : Type 0 where
  pub invalid : ℕ
  pub unexplained : ℕ
  pub residual : ℕ
  pub evidence : F
  pub operations : F

pub record CandidateAssignment (F : Type 0) : Type 0 where
  pub assignment_id : String
  pub credit_keys : List String
  pub target_id : String
  pub rail : String
  pub tier : String
  pub confidence : F
  pub evidence : List (EvidenceItem F)
  pub residual_paise : ℤ
  pub cost_tuple : Cost F
  pub is_split : Bool

pub record AssignmentGraph (F : Type 0) : Type 0 where
  pub credits : Dict String SolverNode
  pub settlements : Dict String SolverNode
  pub candidates : List (CandidateAssignment F)
  pub candidates_by_credit : Dict String (List (CandidateAssignment F))
  pub candidates_by_settlement : Dict String (List (CandidateAssignment F))
  pub components : List (List String)
  pub un_enumerable_credits : List String

abbrev pub list_le : List String → List String → Bool
list_le [] ys = true
list_le (x ∷ xs) [] = false
list_le (x ∷ xs) (y ∷ ys) = lex (text_le x y) (text_le y x) (list_le xs ys)

module _ {F : Type 0} ⦃fl : Floats F⦄ where
  abbrev pub zero_cost : Cost F
  zero_cost = record {
    invalid = 0;
    unexplained = 0;
    residual = 0;
    evidence = fl.decimal 0;
    operations = fl.decimal 0;
  }

  -- `_add_costs`
  abbrev pub add_costs : Cost F → Cost F → Cost F
  add_costs a b = record {
    invalid = a.invalid + b.invalid;
    unexplained = a.unexplained + b.unexplained;
    residual = a.residual + b.residual;
    evidence = fl.round 4 (fl.plus a.evidence b.evidence);
    operations = fl.round 4 (fl.plus a.operations b.operations);
  }

  -- The comparisons of cost tuples: by operations, then with each member before them.
  abbrev pub float_le : Cost F → Cost F → Bool
  float_le = lex_by (λ c. c.evidence) fl.leq (λ a b. fl.leq a.operations b.operations)

  abbrev pub tail_le : Cost F → Cost F → Bool
  tail_le = lex_by (λ c. c.residual) leb float_le

  -- `a <= b`
  unfoldable pub cost_le : Cost F → Cost F → Bool
  cost_le = lex_by (λ c. c.invalid) leb (lex_by (λ c. c.unexplained) leb tail_le)

  -- `a < b`
  abbrev pub cost_less : Cost F → Cost F → Bool
  cost_less a b = not (cost_le b a)

  -- `a[:2] > b[:2]`
  unfoldable pub prefix_greater : Cost F → Cost F → Bool
  prefix_greater a b =
      if a.invalid == b.invalid then ltb b.unexplained a.unexplained else ltb b.invalid a.invalid

  -- `(c.cost_tuple, c.credit_keys, c.target_id, c.assignment_id)`
  abbrev pub candidate_le : CandidateAssignment F → CandidateAssignment F → Bool
  candidate_le =
      lex_by (λ c. c.cost_tuple) cost_le
        (lex_by (λ c. c.credit_keys) list_le
          (lex_by (λ c. c.target_id) text_le (λ c d. text_le c.assignment_id d.assignment_id)))

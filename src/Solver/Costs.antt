-- ===== src/Solver/Costs.antt =====
-- engine/solver.py: plans, and proofs about the order and the sums of costs.
use untangle.Base.{
  ◌≤◌, leb, ◌≡◌, refl, inl, inr, String, true, Bool-cases, some, List, [], ◌∷◌, ◌++◌, arith,
}
use untangle.Base.Floats.{Floats, IsOrder, lex_by-IsOrder, by-IsOrder}
use untangle.Solver.Graph.{
  Cost, CandidateAssignment, add_costs, cost_le, float_le, tail_le, prefix_greater,
}
use untangle.Solver.Search.{Task, SearchState, least, without_keys, consume, cost_from}
use untangle.Solver.Induct.{IsChoice}

leb-IsOrder : IsOrder leb
leb-IsOrder = record { total = λ a b h. ground arith; trans = λ a b c h k. ground arith }

module _ {F : Type 0} ⦃fl : Floats F⦄ where
  -- A choice for the least credit that is left, over and over, until none is.
  pub data IsPlan (task : Task F)
      : List String → List String → List (CandidateAssignment F) → Type 0 where
    all_assigned : (consumed : List String) → IsPlan task [] consumed []
    assign :
        (k : String) (ks consumed : List String) (c : CandidateAssignment F)
        (rest : List (CandidateAssignment F))
        → IsChoice task (k ∷ ks) consumed (least k ks) c
        → IsPlan task (without_keys (k ∷ ks) c) (consume task.graph consumed c) rest
        → IsPlan task (k ∷ ks) consumed (c ∷ rest)

  pub cost_from-append :
      (cost : Cost F) (cs : List (CandidateAssignment F)) (c : CandidateAssignment F)
      → cost_from cost (cs ++ c ∷ []) ≡ add_costs (cost_from cost cs) c.cost_tuple
  unfolding cost_from
  cost_from-append cost [] c = refl
  cost_from-append cost (d ∷ cs) c = cost_from-append (add_costs cost d.cost_tuple) cs c

  -- The first two members of a cost only grow.
  cost_from-grows :
      (cost : Cost F) (cs : List (CandidateAssignment F))
      → (cost.invalid ≤ (cost_from cost cs).invalid)
        × (cost.unexplained ≤ (cost_from cost cs).unexplained)
  unfolding cost_from
  cost_from-grows cost [] = (omega arith, omega arith)
  cost_from-grows cost (c ∷ cs) =
      let (a, b) = cost_from-grows (add_costs cost c.cost_tuple) cs in
      (omega (arith, a), omega (arith, b))

  pub pruned_costlier :
      (cost best : Cost F) (cs : List (CandidateAssignment F))
      → prefix_greater cost best ≡ true
      → cost_le best (cost_from cost cs) ≡ true
  unfolding prefix_greater cost_le
  pruned_costlier cost best cs h = let (a, b) = cost_from-grows cost cs in ground arith

  pub cost_le-IsOrder : IsOrder fl.leq → IsOrder {A = Cost F} cost_le
  unfolding cost_le
  cost_le-IsOrder ordered =
      lex_by-IsOrder (λ c. c.invalid) leb _ leb-IsOrder
        (lex_by-IsOrder (λ c. c.unexplained) leb tail_le leb-IsOrder
          (lex_by-IsOrder (λ c. c.residual) leb float_le leb-IsOrder
            (lex_by-IsOrder (λ c. c.evidence) fl.leq _ ordered
              (by-IsOrder (λ c. c.operations) fl.leq ordered))))

  pub cost_le_refl : IsOrder fl.leq → (c : Cost F) → cost_le c c ≡ true
  cost_le_refl ordered c = elim (Bool-cases (cost_le c c)) [
    | inl t ↦ t
    | inr f ↦ (cost_le-IsOrder ordered).total c c f
  ]

  -- The best so far costs no more than `x`.
  abbrev pub Bounded : SearchState F → Cost F → Type 0
  Bounded st x =
      (b : Cost F × List (CandidateAssignment F)) × (st.best ≡ some b) × (cost_le b.0 x ≡ true)

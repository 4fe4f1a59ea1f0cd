-- ===== src/Solver/Exclusive.antt =====
-- engine/solver.py: proofs about the assignments of all components.
use mathlib.Core.Path.{subst}
use untangle.Base.{
  ℕ, ◌≡◌, refl, ap, sym, ◌∙◌, inl, inr, String, true, false, Bool-cases, none, some, Option-cases,
  List, [], ◌∷◌, In-of_map, In, In-append_cases,
}
use untangle.Base.Keys.{Dict, ◌=?◌, lookup, contains, contains-In, keys, string_eq}
use untangle.Base.Floats.{Floats, IsOrder}
use untangle.Models.{Contest}
use untangle.Attribution.RuleLaws.{same_some}
use untangle.Attribution.Setsum.{sort_sids}
use untangle.Solver.Graph.{CandidateAssignment, AssignmentGraph}
use untangle.Solver.Search.{has_settlement, solve_component}
use untangle.Solver.Plans.{IsPlan-exact}
use untangle.Solver.Assign.{
  CreditAssignmentVerdict, Assigning, by_credit, abstains, task_of, contest_all, solve_one,
  solve_each, solve_graph, verdict_on, solve_assignment,
}
use untangle.Solver.Contested.{
  Uncontested, default_chosen-target, solve_component_kinds, contest_all-Uncontested,
}
use untangle.Solver.Binding.{
  Binds, Marked, Ordered, consume_all-keeps, consume_all-Marked, Ordered-append, Ordered-pair,
  AllApart-Ordered, unsettled-Ordered,
}

lookup-none-contains :
    {V : Type 0} (k : String) (d : Dict String V) → lookup k d ≡ none → contains k (keys d) ≡ false
lookup-none-contains k [] h = refl
lookup-none-contains k ((j, v) ∷ d) h = elim (Bool-cases (k =? j)) [
  | inl t ↦ cc (rw t at h)
  | inr f ↦ rw f (lookup-none-contains k d (rw f at h))
]

module _ {F : Type 0} ⦃fl : Floats F⦄ (ordered : IsOrder fl.leq) (g : AssignmentGraph F)
    (margin_threshold : F) (max_steps : ℕ)
    (no_abstain : contains "abstain" (keys g.settlements) ≡ false) where
  abbrev SoFar : Assigning F → Type 0
  SoFar s =
      Marked g s.consumed_settlements s.contested_credits s.all_chosen
      × Ordered g s.contested_credits s.all_chosen

  -- The assignment of one component: apart, and away from the settlements that are used.
  component_joins :
      (comp consumed : List String) (d : Dict String (Contest F))
      → let cs =
          (solve_component (task_of g margin_threshold max_steps [] consumed) comp).assignment in
        Ordered g d cs
        × ((e : CandidateAssignment F)
            → In e cs
            → has_settlement g e ≡ true
            → contains e.target_id consumed ≡ false)
  component_joins comp consumed d =
      let task = task_of g margin_threshold max_steps [] consumed in
      elim (solve_component_kinds task ordered comp) [
        | inl base ↦
            let unsettled : (c : CandidateAssignment F)
                → In c (solve_component task comp).assignment
                → has_settlement g c ≡ false =
              λ c m.
                ap (λ t. contains t (keys g.settlements))
                  (default_chosen-target task comp c (subst (In c) base m))
                ∙ no_abstain in
            (unsettled-Ordered g d _ unsettled, λ e m h. cc (unsettled e m, h))
        | inr (inl plan) ↦
            let (_, within, apart) = IsPlan-exact task comp _ plan in
            (AllApart-Ordered g d _ apart, λ e m h. (within e m).1 h)
        | inr (inr none_at_all) ↦
            let empty : (c : CandidateAssignment F)
                → In c (solve_component task comp).assignment
                → ⊥ =
              λ c m. subst (In c) none_at_all m in
            (unsettled-Ordered g d _ (λ c m. absurd (empty c m)), λ e m h. absurd (empty e m))
      ]

  Binds-before :
      (d d' : Dict String (Contest F)) (c : CandidateAssignment F)
      → ((k : String) → Uncontested d' k → Uncontested d k)
      → Binds g d' c
      → Binds g d c
  Binds-before d d' c mono ((k, m, u), h) = ((k, m, mono k u), h)

  Ordered-later :
      (d d' : Dict String (Contest F)) (cs : List (CandidateAssignment F))
      → ((k : String) → Uncontested d' k → Uncontested d k)
      → Ordered g d cs
      → Ordered g d' cs
  Ordered-later d d' [] mono o = tt
  Ordered-later d d' (c ∷ cs) mono (h, o) =
      (λ e m b. h e m (Binds-before d d' c mono b), Ordered-later d d' cs mono o)

  solve_one-SoFar :
      (s : Assigning F) (comp : List String)
      → SoFar s
      → SoFar (solve_one g margin_threshold max_steps s comp)
  unfolding solve_one
  solve_one-SoFar s comp (marked, o) =
      let r =
        solve_component (task_of g margin_threshold max_steps [] s.consumed_settlements) comp in
      let d' = contest_all g margin_threshold max_steps comp s r in
      let mono : (k : String) → Uncontested d' k → Uncontested s.contested_credits k =
        contest_all-Uncontested g margin_threshold max_steps comp s r in
      let (fresh, free) = component_joins comp s.consumed_settlements d' in
      let before : Marked g s.consumed_settlements d' s.all_chosen =
        λ c m b. marked c m (Binds-before s.contested_credits d' c mono b) in
      (
        λ c m b. elim (In-append_cases c s.all_chosen r.assignment m) [
          | inl k ↦
              consume_all-keeps g d' c.target_id s.consumed_settlements r.assignment (before c k b)
          | inr k ↦ consume_all-Marked g d' s.consumed_settlements r.assignment c k b
        ],
        Ordered-append g d' s.consumed_settlements s.all_chosen r.assignment before
            (Ordered-later s.contested_credits d' s.all_chosen mono o) fresh free,
      )

  solve_each-SoFar :
      (s : Assigning F) (comps : List (List String))
      → SoFar s
      → SoFar (solve_each g margin_threshold max_steps s comps)
  unfolding solve_each
  solve_each-SoFar s [] h = h
  solve_each-SoFar s (comp ∷ comps) h =
      solve_each-SoFar (solve_one g margin_threshold max_steps s comp) comps
        (solve_one-SoFar s comp h)

  by_credit-In :
      (k : String) (cs : List (CandidateAssignment F)) (c : CandidateAssignment F)
      → by_credit k cs ≡ some c
      → In c cs × In k c.credit_keys
  unfolding by_credit
  by_credit-In k [] c q = cc q
  by_credit-In k (x ∷ cs) c q = elim (Option-cases (by_credit k cs)) [
    | inr (d, n) ↦ let (m, i) = by_credit-In k cs c (n ∙ rw (by_credit, n) at q) in (inr m, i)
    | inl n ↦ elim (Bool-cases (contains k x.credit_keys)) [
      | inl t ↦
          let same : x ≡ c = same_some (rw (by_credit, n, t) at q) in
          (inl (sym same), subst (λ y. In k y.credit_keys) same (contains-In k x.credit_keys t))
      | inr f ↦ cc (rw (by_credit, n, f) at q)
    ]
  ]

  -- A credit with a verdict is uncontested, and its verdict is that of an assignment.
  verdict_on-chosen :
      (s : Assigning F) (k : String)
      → (verdict_on g margin_threshold max_steps s k).abstained ≡ false
      → (c : CandidateAssignment F) × In c s.all_chosen
        × In k c.credit_keys
        × Uncontested s.contested_credits k
        × ((verdict_on g margin_threshold max_steps s k).target_id ≡ c.target_id)
  unfolding verdict_on
  verdict_on-chosen s k h = elim (Option-cases (lookup k s.contested_credits)) [
    | inr (contest, n) ↦ cc (rw (verdict_on, n) at h)
    | inl n ↦ elim (Option-cases (by_credit k s.all_chosen)) [
      | inl m ↦ cc (rw (verdict_on, n, m) at h)
      | inr (c, m) ↦ elim (Bool-cases (abstains c)) [
        | inl t ↦ cc (rw (verdict_on, n, m, t) at h)
        | inr f ↦
            let (listed, i) = by_credit-In k s.all_chosen c m in
            (
              c,
              listed,
              i,
              lookup-none-contains k s.contested_credits n,
              rw (verdict_on, n, m, f) refl,
            )
      ]
    ]
  ]

  verdict_on-line_key :
      (s : Assigning F) (k : String) → (verdict_on g margin_threshold max_steps s k).line_key ≡ k
  unfolding verdict_on
  verdict_on-line_key s k = elim (Option-cases (lookup k s.contested_credits)) [
    | inr (contest, n) ↦ rw (verdict_on, n) refl
    | inl n ↦ elim (Option-cases (by_credit k s.all_chosen)) [
      | inl m ↦ rw (verdict_on, n, m) refl
      | inr (c, m) ↦ elim (Bool-cases (abstains c)) [
        | inl t ↦ rw (verdict_on, n, m, t) refl
        | inr f ↦ rw (verdict_on, n, m, f) refl
      ]
    ]
  ]

  -- A verdict that is no abstention is that of a chosen assignment with its credit, which is uncontested.
  solve_assignment-chosen :
      (v : CreditAssignmentVerdict F)
      → In v (solve_assignment g margin_threshold max_steps)
      → v.abstained ≡ false
      → let s = solve_graph g margin_threshold max_steps in
        (c : CandidateAssignment F) × In c s.all_chosen
        × In v.line_key c.credit_keys
        × Uncontested s.contested_credits v.line_key
        × (v.target_id ≡ c.target_id)
  unfolding solve_assignment
  solve_assignment-chosen v m live =
      let s = solve_graph g margin_threshold max_steps in
      let (k, _, q) =
        In-of_map (verdict_on g margin_threshold max_steps s) v (sort_sids (keys g.credits)) m in
      let (c, listed, i, u, t) = verdict_on-chosen s k (ap (λ x. x.abstained) (sym q) ∙ live) in
      let key : k ≡ v.line_key = sym (ap (λ x. x.line_key) q ∙ verdict_on-line_key s k) in
      (
        c,
        listed,
        subst (λ x. In x c.credit_keys) key i,
        subst (Uncontested s.contested_credits) key u,
        ap (λ x. x.target_id) q ∙ t,
      )

  -- Over the whole period no settlement is given twice: two verdicts for the same settlement come from one
  -- chosen assignment, of which both credits are part. The floats are no NaN, and no settlement has the
  -- id "abstain".
  pub solve_assignment-exclusive :
      (v w : CreditAssignmentVerdict F)
      → In v (solve_assignment g margin_threshold max_steps)
      → In w (solve_assignment g margin_threshold max_steps)
      → v.abstained ≡ false
      → w.abstained ≡ false
      → v.target_id ≡ w.target_id
      → contains v.target_id (keys g.settlements) ≡ true
      → (c : CandidateAssignment F) × In c (solve_graph g margin_threshold max_steps).all_chosen
        × In v.line_key c.credit_keys
        × In w.line_key c.credit_keys
  unfolding solve_graph
  solve_assignment-exclusive v w m n live_v live_w same settled =
      let s = solve_graph g margin_threshold max_steps in
      let (_, o) = solve_each-SoFar _ g.components (λ c m b. elim m [ ], tt) in
      let (c, mc, kc, uk, tk) = solve_assignment-chosen v m live_v in
      let (e, me, je, uj, tj) = solve_assignment-chosen w n live_w in
      let hc : has_settlement g c ≡ true =
        ap (λ t. contains t (keys g.settlements)) (sym tk) ∙ settled in
      let he : has_settlement g e ≡ true =
        ap (λ t. contains t (keys g.settlements)) (sym tj ∙ sym same) ∙ settled in
      let one : c ≡ e =
        Ordered-pair g s.contested_credits s.all_chosen c e o mc me ((v.line_key, kc, uk), hc)
          ((w.line_key, je, uj), he) (sym tk ∙ (same ∙ tj)) in
      (c, mc, kc, subst (λ y. In w.line_key y.credit_keys) (sym one) je)

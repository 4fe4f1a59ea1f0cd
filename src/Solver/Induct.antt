-- ===== src/Solver/Induct.antt =====
-- engine/solver.py: proofs by induction over the calls and the leaves of `search`.
use mathlib.Core.Path.{subst}
use untangle.Base.{
  ℕ, zero, suc, ltb, ◌≡◌, refl, sym, ◌∙◌, inl, inr, ◌⊎◌, String, true, false, ◌||◌, Bool-cases,
  some, Option-cases, List, [], ◌∷◌, ◌++◌, In, In-filter, In-of_filter,
}
use untangle.Base.Floats.{Floats}
use untangle.Attribution.RuleLaws.{same_some}
use untangle.Solver.Graph.{Cost, CandidateAssignment, add_costs, cost_less, candidate_le}
use untangle.Solver.Search.{
  Task, SearchState, least, without_keys, consume, insert_candidate, sort_candidates, candidates_of,
  is_valid, valid_cands, keep_best, is_pruned, Visit, try_one, try_each, count_step, exceed, expand,
  search,
}

module _ {F : Type 0} ⦃fl : Floats F⦄ where
  insert_candidate-of :
      (c x : CandidateAssignment F) (ds : List (CandidateAssignment F))
      → In x (insert_candidate c ds)
      → In x (c ∷ ds)
  unfolding insert_candidate
  insert_candidate-of c x [] m = m
  insert_candidate-of c x (d ∷ ds) m = elim (Bool-cases (candidate_le c d)) [
    | inl t ↦ rw t at m
    | inr f ↦ elim (rw f at m) [
      | inl e ↦ inr (inl e)
      | inr k ↦ elim (insert_candidate-of c x ds k) [ inl e ↦ inl e | inr l ↦ inr (inr l) ]
    ]
  ]

  insert_candidate-In :
      (c x : CandidateAssignment F) (ds : List (CandidateAssignment F))
      → In x (c ∷ ds)
      → In x (insert_candidate c ds)
  unfolding insert_candidate
  insert_candidate-In c x [] m = m
  insert_candidate-In c x (d ∷ ds) m = elim (Bool-cases (candidate_le c d)) [
    | inl t ↦ rw t m
    | inr f ↦ rw f (elim m [
      | inl e ↦ inr (insert_candidate-In c x ds (inl e))
      | inr (inl e) ↦ inl e
      | inr (inr k) ↦ inr (insert_candidate-In c x ds (inr k))
    ])
  ]

  sort_candidates-of :
      (x : CandidateAssignment F) (cs : List (CandidateAssignment F))
      → In x (sort_candidates cs)
      → In x cs
  unfolding sort_candidates
  sort_candidates-of x [] m = m
  sort_candidates-of x (c ∷ cs) m = elim (insert_candidate-of c x (sort_candidates cs) m) [
    | inl e ↦ inl e
    | inr k ↦ inr (sort_candidates-of x cs k)
  ]

  sort_candidates-In :
      (x : CandidateAssignment F) (cs : List (CandidateAssignment F))
      → In x cs
      → In x (sort_candidates cs)
  unfolding sort_candidates
  sort_candidates-In x [] m = m
  sort_candidates-In x (c ∷ cs) (inl e) = insert_candidate-In c x (sort_candidates cs) (inl e)
  sort_candidates-In x (c ∷ cs) (inr k) =
      insert_candidate-In c x (sort_candidates cs) (inr (sort_candidates-In x cs k))

  module _ (task : Task F) where
    -- A choice that `search` may make for the least of the credits that are left.
    abbrev pub IsChoice : List String → List String → String → CandidateAssignment F → Type 0
    IsChoice unassigned consumed k c =
        In c (candidates_of task k) × (is_valid task unassigned consumed c ≡ true)

    pub valid_cands-IsChoice :
        (unassigned consumed : List String) (k : String) (c : CandidateAssignment F)
        → In c (valid_cands task unassigned consumed k)
        → IsChoice unassigned consumed k c
    unfolding valid_cands
    valid_cands-IsChoice unassigned consumed k c m =
        In-of_filter (is_valid task unassigned consumed) c (candidates_of task k)
          (sort_candidates-of c _ m)

    pub IsChoice-valid_cands :
        (unassigned consumed : List String) (k : String) (c : CandidateAssignment F)
        → IsChoice unassigned consumed k c
        → In c (valid_cands task unassigned consumed k)
    unfolding valid_cands
    IsChoice-valid_cands unassigned consumed k c (m, v) =
        sort_candidates-In c _
          (In-filter (is_valid task unassigned consumed) c (candidates_of task k) m v)

    -- The two branches of `search` after the count.
    pub search_over :
        (n : ℕ) (u k : List String) (ch : List (CandidateAssignment F)) (cost : Cost F)
        (st : SearchState F)
        → ltb task.max_steps (suc st.steps) ≡ true
        → search task (suc n) u k ch cost st ≡ exceed task (count_step task st)
    unfolding search
    search_over n u k ch cost st t = rw (search, t) refl

    pub search_within :
        (n : ℕ) (u k : List String) (ch : List (CandidateAssignment F)) (cost : Cost F)
        (st : SearchState F)
        → ltb task.max_steps (suc st.steps) ≡ false
        → search task (suc n) u k ch cost st
          ≡ expand task (search task n) u k ch cost (count_step task st)
    unfolding search
    search_within n u k ch cost st f = rw (search, f) refl

    -- `Inv` holds of the arguments of every call, `P` of the state before and after it.
    module _ {κ μ}
        (Inv : List String → List String → List (CandidateAssignment F) → Cost F → Type κ)
        (P : SearchState F → Type μ)
        (choose : (k : String) (ks consumed : List String) (chosen : List (CandidateAssignment F))
            (cost : Cost F) (c : CandidateAssignment F)
          → Inv (k ∷ ks) consumed chosen cost
          → IsChoice (k ∷ ks) consumed (least k ks) c
          → Inv
              (without_keys (k ∷ ks) c)
              (consume task.graph consumed c)
              (chosen ++ c ∷ [])
              (add_costs cost c.cost_tuple))
        (leaf : (consumed : List String) (chosen : List (CandidateAssignment F)) (cost : Cost F)
            (st : SearchState F)
          → Inv [] consumed chosen cost
          → P st
          → P (keep_best task chosen cost st))
        (counted : (st : SearchState F) → P st → P (count_step task st))
        (exceeded : (st : SearchState F) → P st → P (exceed task st)) where
      abbrev pub Kept : Visit task → Type (κ ⊔ μ)
      Kept visit =
          (u k : List String) (ch : List (CandidateAssignment F)) (cost : Cost F)
          (st : SearchState F)
          → Inv u k ch cost
          → P st
          → P (visit u k ch cost st)

      pub try_one-keeps :
          (visit : Visit task)
          → Kept visit
          → (k : String) (ks consumed : List String) (chosen : List (CandidateAssignment F))
            (cost : Cost F) (c : CandidateAssignment F) (st : SearchState F)
          → Inv (k ∷ ks) consumed chosen cost
          → IsChoice (k ∷ ks) consumed (least k ks) c
          → P st
          → P (try_one task visit (k ∷ ks) consumed chosen cost c st)
      try_one-keeps visit h k ks consumed chosen cost c st inv ch p =
          elim (Bool-cases
            (st.step_budget_exceeded || is_pruned task (add_costs cost c.cost_tuple) st)) [
              | inl t ↦ rw t p
              | inr f ↦ rw f (h _ _ _ _ st (choose k ks consumed chosen cost c inv ch) p)
            ]

      pub try_each-keeps :
          (visit : Visit task)
          → Kept visit
          → (k : String) (ks consumed : List String) (chosen : List (CandidateAssignment F))
            (cost : Cost F) (cs : List (CandidateAssignment F)) (st : SearchState F)
          → Inv (k ∷ ks) consumed chosen cost
          → ((c : CandidateAssignment F) → In c cs → IsChoice (k ∷ ks) consumed (least k ks) c)
          → P st
          → P (try_each task visit (k ∷ ks) consumed chosen cost cs st)
      unfolding try_each
      try_each-keeps visit h k ks consumed chosen cost [] st inv all p = p
      try_each-keeps visit h k ks consumed chosen cost (c ∷ cs) st inv all p =
          try_each-keeps visit h k ks consumed chosen cost cs _ inv (λ d m. all d (inr m))
            (try_one-keeps visit h k ks consumed chosen cost c st inv (all c (inl refl)) p)

      expand-keeps : (visit : Visit task) → Kept visit → Kept (expand task visit)
      expand-keeps visit h [] k ch cost st inv p = leaf k ch cost st inv p
      expand-keeps visit h (x ∷ xs) k ch cost st inv p =
          try_each-keeps visit h x xs k ch cost _ st inv
            (λ c m. valid_cands-IsChoice (x ∷ xs) k (least x xs) c m) p

      pub search-keeps : (n : ℕ) → Kept (search task n)
      unfolding search
      search-keeps zero u k ch cost st inv p = exceeded _ (counted st p)
      search-keeps (suc n) u k ch cost st inv p =
          elim (Bool-cases (ltb task.max_steps (suc st.steps))) [
            | inl t ↦ subst P (sym (search_over n u k ch cost st t)) (exceeded _ (counted st p))
            | inr f ↦
                subst P (sym (search_within n u k ch cost st f))
                  (expand-keeps (search task n) (search-keeps n) u k ch cost _ inv (counted st p))
          ]

    -- A leaf leaves the best, or takes its place, which it does where there was none or a costlier one.
    pub keep_best_cases :
        (ch : List (CandidateAssignment F)) (cost : Cost F) (st : SearchState F)
        → let after = keep_best task ch cost st in
          ((after ≡ st)
            × ((b : Cost F × List (CandidateAssignment F)) × (st.best ≡ some b)
                × (cost_less cost b.0 ≡ false)))
          ⊎ ((after ≡ record st { best = some (cost, ch) })
              × ((b : Cost F × List (CandidateAssignment F))
                  → st.best ≡ some b
                  → cost_less cost b.0 ≡ true))
    keep_best_cases ch cost st = elim (Option-cases st.best) [
      | inl n ↦ inr (rw n refl, λ b q. cc (n, q))
      | inr (b, n) ↦ elim (Bool-cases (cost_less cost b.0)) [
        | inl t ↦ inr (
          rw (n, t) refl,
          λ c q. subst (λ x. cost_less cost x.0 ≡ true) (same_some (sym n ∙ q)) t,
        )
        | inr f ↦ inl (rw (n, f) refl, (b, n, f))
      ]
    ]

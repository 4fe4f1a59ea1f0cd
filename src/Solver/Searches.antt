-- ===== src/Solver/Searches.antt =====
-- engine/solver.py: proofs about `search` and the plans that it passes over.
use mathlib.Core.Path.{subst}
use untangle.Base.{
  ℕ, zero, suc, ltb, ◌≡◌, refl, ap, sym, ◌∙◌, inl, inr, String, Bool, true, false, ◌||◌, Bool-cases,
  some, Option-cases, List, [], ◌∷◌, ◌++◌, In, if_true, if_false, arith,
}
use untangle.Base.Floats.{Floats, IsOrder}
use untangle.Solver.Graph.{Cost, CandidateAssignment, add_costs, prefix_greater}
use untangle.Solver.Search.{
  Task, SearchState, least, without_keys, consume, cost_from, keep_best, is_pruned, Visit, try_one,
  try_each, expand, search,
}
use untangle.Solver.Induct.{
  IsChoice-valid_cands, search-keeps, search_over, search_within, keep_best_cases,
}
use untangle.Solver.Costs.{
  IsPlan, all_assigned, assign, pruned_costlier, cost_le-IsOrder, cost_le_refl, Bounded,
}

module _ {F : Type 0} ⦃fl : Floats F⦄ (ordered : IsOrder fl.leq) (task : Task F) where
  abbrev pub search_on : ℕ → Visit task
  search_on n = search task n

  abbrev try_on :
      ℕ
      → String
      → List String
      → List String
      → List (CandidateAssignment F)
      → Cost F
      → CandidateAssignment F
      → SearchState F
      → SearchState F
  try_on n k ks consumed ch cost c st = try_one task (search_on n) (k ∷ ks) consumed ch cost c st

  abbrev try_all_on :
      ℕ
      → String
      → List String
      → List String
      → List (CandidateAssignment F)
      → Cost F
      → List (CandidateAssignment F)
      → SearchState F
      → SearchState F
  try_all_on n k ks consumed ch cost cs st =
      try_each task (search_on n) (k ∷ ks) consumed ch cost cs st

  keep_best-Bounded :
      (ch : List (CandidateAssignment F)) (cost : Cost F) (st : SearchState F) (x : Cost F)
      → Bounded st x
      → Bounded (keep_best task ch cost st) x
  keep_best-Bounded ch cost st x (b, q, h) = elim (keep_best_cases task ch cost st) [
    | inl (e, _) ↦ subst (λ t. Bounded t x) (sym e) (b, q, h)
    | inr (e, lower) ↦
        subst (λ t. Bounded t x) (sym e)
          (
            (cost, ch),
            refl,
            (cost_le-IsOrder ordered).trans cost b.0 x
                ((cost_le-IsOrder ordered).total b.0 cost (ground (arith, lower b q))) h,
          )
  ]

  -- A leaf is bounded by its own cost.
  keep_best-own :
      (ch : List (CandidateAssignment F)) (cost : Cost F) (st : SearchState F)
      → Bounded (keep_best task ch cost st) cost
  keep_best-own ch cost st = elim (keep_best_cases task ch cost st) [
    | inl (e, (b, q, h)) ↦ subst (λ t. Bounded t cost) (sym e) (b, q, ground arith)
    | inr (e, _) ↦ subst (λ t. Bounded t cost) (sym e) ((cost, ch), refl, cost_le_refl ordered cost)
  ]

  -- The bound, and the flag, once there, stay through the loop over the candidates.
  search-Bounded :
      (n : ℕ) (u k : List String) (ch : List (CandidateAssignment F)) (cost : Cost F)
      (st : SearchState F) (x : Cost F)
      → Bounded st x
      → Bounded (search_on n u k ch cost st) x
  search-Bounded n u k ch cost st x h =
      search-keeps {0, 0} task (λ _ _ _ _. Unit) (λ t. Bounded t x) (λ _ _ _ _ _ _ _ _. tt)
        (λ c ch cost t _ p. keep_best-Bounded ch cost t x p) (λ t p. p) (λ t p. p) n u k ch cost st
        tt h

  try_all-Bounded :
      (n : ℕ) (k : String) (ks consumed : List String) (ch : List (CandidateAssignment F))
      (cost : Cost F) (cs : List (CandidateAssignment F)) (st : SearchState F) (x : Cost F)
      → Bounded st x
      → Bounded (try_all_on n k ks consumed ch cost cs st) x
  unfolding try_each
  try_all-Bounded n k ks consumed ch cost [] st x h = h
  try_all-Bounded n k ks consumed ch cost (c ∷ cs) st x h =
      try_all-Bounded n k ks consumed ch cost cs _ x
        (elim (Bool-cases
          (st.step_budget_exceeded || is_pruned task (add_costs cost c.cost_tuple) st)) [
            | inl t ↦ rw t h
            | inr f ↦ rw f (search-Bounded n _ _ _ _ st x h)
          ])

  -- The two branches of one round of the loop.
  abbrev skipped : Cost F → CandidateAssignment F → SearchState F → Bool
  skipped cost c st = st.step_budget_exceeded || is_pruned task (add_costs cost c.cost_tuple) st

  try_one_skips :
      (n : ℕ) (k : String) (ks consumed : List String) (ch : List (CandidateAssignment F))
      (cost : Cost F) (c : CandidateAssignment F) (st : SearchState F)
      → skipped cost c st ≡ true
      → try_on n k ks consumed ch cost c st ≡ st
  try_one_skips n k ks consumed ch cost c st t = if_true (skipped cost c st) _ _ t

  try_one_visits :
      (n : ℕ) (k : String) (ks consumed : List String) (ch : List (CandidateAssignment F))
      (cost : Cost F) (c : CandidateAssignment F) (st : SearchState F)
      → skipped cost c st ≡ false
      → try_on n k ks consumed ch cost c st
        ≡ search_on n
            (without_keys (k ∷ ks) c)
            (consume task.graph consumed c)
            (ch ++ c ∷ [])
            (add_costs cost c.cost_tuple)
            st
  try_one_visits n k ks consumed ch cost c st f = if_false (skipped cost c st) _ _ f

  is_pruned-best :
      (cost : Cost F) (st : SearchState F)
      → is_pruned task cost st ≡ true
      → (b : Cost F × List (CandidateAssignment F)) × (st.best ≡ some b)
        × (prefix_greater cost b.0 ≡ true)
  is_pruned-best cost st h = elim (Option-cases st.best) [
    | inl n ↦ cc (rw n at h)
    | inr (b, q) ↦ (b, q, rw q at h)
  ]

  try_all-exceeded :
      (n : ℕ) (k : String) (ks consumed : List String) (ch : List (CandidateAssignment F))
      (cost : Cost F) (cs : List (CandidateAssignment F)) (st : SearchState F)
      → st.step_budget_exceeded ≡ true
      → (try_all_on n k ks consumed ch cost cs st).step_budget_exceeded ≡ true
  unfolding try_each
  try_all-exceeded n k ks consumed ch cost [] st h = h
  try_all-exceeded n k ks consumed ch cost (c ∷ cs) st h =
      try_all-exceeded n k ks consumed ch cost cs _ (
        ap (λ t. t.step_budget_exceeded)
          (try_one_skips n k ks consumed ch cost c st
            (ap (λ b. b || is_pruned task (add_costs cost c.cost_tuple) st) h))
        ∙ h)

  -- What `search` finds costs no more than any completion of what it was given.
  abbrev pub Searches : ℕ → Type 0
  Searches n =
      (u k : List String) (ch : List (CandidateAssignment F)) (cost : Cost F) (st : SearchState F)
      (rest : List (CandidateAssignment F))
      → (search_on n u k ch cost st).step_budget_exceeded ≡ false
      → IsPlan task u k rest
      → Bounded (search_on n u k ch cost st) (cost_from cost rest)

  try_one-Bounded :
      (n : ℕ)
      → Searches n
      → (k : String) (ks consumed : List String) (ch : List (CandidateAssignment F)) (cost : Cost F)
        (c : CandidateAssignment F) (st : SearchState F) (rest : List (CandidateAssignment F))
      → (try_on n k ks consumed ch cost c st).step_budget_exceeded ≡ false
      → IsPlan task (without_keys (k ∷ ks) c) (consume task.graph consumed c) rest
      → Bounded (try_on n k ks consumed ch cost c st) (cost_from cost (c ∷ rest))
  unfolding cost_from
  try_one-Bounded n ih k ks consumed ch cost c st rest live plan =
      elim (Bool-cases (skipped cost c st)) [
        | inl t ↦
            let same = try_one_skips n k ks consumed ch cost c st t in
            let on : st.step_budget_exceeded ≡ false =
              ap (λ s. s.step_budget_exceeded) (sym same) ∙ live in
            let (b, q, p) =
              is_pruned-best (add_costs cost c.cost_tuple) st
                (sym (ap (λ x. x || is_pruned task (add_costs cost c.cost_tuple) st) on) ∙ t) in
            subst (λ s. Bounded s (cost_from cost (c ∷ rest))) (sym same)
              (b, q, pruned_costlier (add_costs cost c.cost_tuple) b.0 rest p)
        | inr f ↦
            let same = try_one_visits n k ks consumed ch cost c st f in
            subst (λ s. Bounded s (cost_from cost (c ∷ rest))) (sym same)
              (ih _ _ _ _ st rest (ap (λ s. s.step_budget_exceeded) (sym same) ∙ live) plan)
      ]

  try_all-Searches :
      (n : ℕ)
      → Searches n
      → (k : String) (ks consumed : List String) (ch : List (CandidateAssignment F)) (cost : Cost F)
        (cs : List (CandidateAssignment F)) (c : CandidateAssignment F) (st : SearchState F)
        (rest : List (CandidateAssignment F))
      → In c cs
      → (try_all_on n k ks consumed ch cost cs st).step_budget_exceeded ≡ false
      → IsPlan task (without_keys (k ∷ ks) c) (consume task.graph consumed c) rest
      → Bounded (try_all_on n k ks consumed ch cost cs st) (cost_from cost (c ∷ rest))
  unfolding try_each
  try_all-Searches n ih k ks consumed ch cost [] c st rest m live plan = elim m [ ]
  try_all-Searches n ih k ks consumed ch cost (d ∷ cs) c st rest (inr m) live plan =
      try_all-Searches n ih k ks consumed ch cost cs c _ rest m live plan
  try_all-Searches n ih k ks consumed ch cost (d ∷ cs) c st rest (inl e) live plan =
      let st' = try_on n k ks consumed ch cost d st in
      let on : st'.step_budget_exceeded ≡ false = elim (Bool-cases st'.step_budget_exceeded) [
        | inr f ↦ f
        | inl t ↦ cc (try_all-exceeded n k ks consumed ch cost cs st' t, live)
      ] in
      try_all-Bounded n k ks consumed ch cost cs st' _ (
        subst (λ x. Bounded st' (cost_from cost (x ∷ rest))) (sym e)
          (try_one-Bounded n ih k ks consumed ch cost d st rest on (
            subst (λ x. IsPlan task (without_keys (k ∷ ks) x) (consume task.graph consumed x) rest)
              e plan)))

  expand-Searches :
      (n : ℕ)
      → Searches n
      → (u k : List String) (ch : List (CandidateAssignment F)) (cost : Cost F) (st : SearchState F)
        (rest : List (CandidateAssignment F))
      → (expand task (search_on n) u k ch cost st).step_budget_exceeded ≡ false
      → IsPlan task u k rest
      → Bounded (expand task (search_on n) u k ch cost st) (cost_from cost rest)
  unfolding cost_from
  expand-Searches n ih [] k ch cost st [] live (all_assigned _) = keep_best-own ch cost st
  expand-Searches n ih [] k ch cost st (c ∷ rest) live plan = elim plan [ ]
  expand-Searches n ih (x ∷ xs) k ch cost st [] live plan = elim plan [ ]
  expand-Searches n ih (x ∷ xs) k ch cost st (c ∷ rest) live (assign _ _ _ _ _ choice plan) =
      try_all-Searches n ih x xs k ch cost _ c st rest
        (IsChoice-valid_cands task (x ∷ xs) k (least x xs) c choice) live plan

  pub search-Searches : (n : ℕ) → Searches n
  unfolding search
  search-Searches zero u k ch cost st rest live plan = cc live
  search-Searches (suc n) u k ch cost st rest live plan =
      elim (Bool-cases (ltb task.max_steps (suc st.steps))) [
        | inl t ↦ cc (ap (λ s. s.step_budget_exceeded) (search_over task n u k ch cost st t), live)
        | inr f ↦
            let same = search_within task n u k ch cost st f in
            subst (λ s. Bounded s (cost_from cost rest)) (sym same)
              (expand-Searches n (search-Searches n) u k ch cost _ rest
                (ap (λ s. s.step_budget_exceeded) (sym same) ∙ live) plan)
      ]

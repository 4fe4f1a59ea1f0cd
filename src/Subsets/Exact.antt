-- ===== src/Subsets/Exact.antt =====
-- `find_bounded_subsets` against an independent description: the sublists that hit the target.
use mathlib.Core.List.{append-nil, append_assoc}
use untangle.Base.{
  ℕ, zero, suc, ◌+◌, ◌≤◌, ◌<◌, ◌≡◌, refl, ap, sym, ◌∙◌, String, Bool, true, false, not, inl, inr,
  List, [], ◌∷◌, ◌++◌, map, length, take, filter, flat_map, In, In-filter, In-of_filter, In-map,
  In-of_map, In-flat_map, In-of_flat_map, In-take, take_all, take_short, take-append_exact,
  length-append, ltb, leb, leb→le, Bool-cases, ◌==◌, ◌⊎◌, arith,
}
use untangle.Base.Int.{ℤ, pos, negsuc, pos_part, neg_part, abs, sum, ◌-ℤ◌, ◌≤ℤ◌, ◌<ℤ◌, ltb_ℤ}
use untangle.Base.Flow.{finish, for_each, for_each-flat_map, ok}
use untangle.Subsets.Combinations.{combinations, Sublist, combinations_sound, combinations_complete}
use untangle.Subsets.Defs.{
  Item, item_id, value, BoundedSubsetResult, Options, Progress, range, range_from, misses, examine,
  search, arrange, find_bounded_subsets,
}

abbrev report : Progress → BoundedSubsetResult
report p = record { subsets = p.1; exhausted = false }

module _ (target : ℤ) (tolerance : ℕ) where
  abbrev hits : List Item → Bool
  hits combo = not (misses target tolerance combo)

  abbrev found : List (List Item) → List (List String)
  found combos = map (map item_id) (filter hits combos)

module _ (target : ℤ) (tolerance max_combinations max_results : ℕ) where
  walk : Progress → List (List Item) → BoundedSubsetResult
  walk p combos =
      finish (for_each (examine target tolerance max_combinations max_results) p combos) report

  -- What the loop has done on `combos`, from a number of combinations examined and some matches.
  record Outcome (n : ℕ) (ms : List (List String)) (combos : List (List Item))
      (r : BoundedSubsetResult) : Type 0 where
    closed : r.exhausted ≡ true → r.subsets ≡ []
    exact : r.exhausted ≡ false → r.subsets ≡ take max_results (ms ++ found target tolerance combos)
    within : n + length combos ≤ max_combinations → r.exhausted ≡ false

  take_full :
      (n : ℕ) (ms : List (List String)) (c : List Item) (cs : List (List Item))
      → length ms < max_results
      → max_results ≤ length (ms ++ map item_id c ∷ [])
      → take max_results (ms ++ map item_id c ∷ found target tolerance cs)
        ≡ ms ++ map item_id c ∷ []
  take_full n ms c cs h k =
      ap (take max_results) (sym (append_assoc ms (map item_id c ∷ []) (found target tolerance cs)))
      ∙ take-append_exact max_results (ms ++ map item_id c ∷ []) (found target tolerance cs)
          (omega (arith, length-append ms (map item_id c ∷ [])))

  walk-Outcome :
      (n : ℕ) (ms : List (List String)) (combos : List (List Item))
      → length ms < max_results
      → Outcome n ms combos (walk (n, ms) combos)
  unfolding walk for_each examine
  walk-Outcome n ms [] h = record {
    closed = λ e. cc;
    exact = λ e. rw append-nil (sym (take_all max_results ms (omega arith)));
    within = λ _. refl;
  }
  walk-Outcome n ms (c ∷ cs) h = elim (Bool-cases (ltb max_combinations (suc n))) [
    | inl over ↦
        rw over (record { closed = λ _. refl; exact = λ e. cc; within = λ w. ground arith })
    | inr under ↦ elim (Bool-cases (misses target tolerance c)) [
      | inl miss ↦
          rw (under, miss)
            (let ih = walk-Outcome (suc n) ms cs h in
              record {
                closed = ih.closed;
                exact = λ e. rw miss (ih.exact e);
                within = λ w. ih.within (omega arith);
              })
      | inr hit ↦ elim (Bool-cases (leb max_results (length (ms ++ map item_id c ∷ [])))) [
        | inl full ↦
            rw (under, hit, full)
              (record {
                closed = λ e. cc;
                exact = λ _. rw hit (sym (take_full n ms c cs h (leb→le _ _ full)));
                within = λ _. refl;
              })
        | inr more ↦
            rw (under, hit, more)
              (let ih = walk-Outcome (suc n) (ms ++ map item_id c ∷ []) cs (ground arith) in
                record {
                  closed = ih.closed;
                  exact = λ e. rw hit (ih.exact e ∙ ap (take max_results) (append_assoc ms _ _));
                  within = λ w. ih.within (omega arith);
                })
      ]
    ]
  ]

In-range_from : (k lo n : ℕ) → In k (range_from lo n) → (lo ≤ k) × (k < lo + n)
In-range_from k lo zero m = elim m [ ]
In-range_from k lo (suc n) (inl e) = (omega arith, omega arith)
In-range_from k lo (suc n) (inr m) =
    (omega (arith, In-range_from k (suc lo) n m), omega (arith, In-range_from k (suc lo) n m))

range_from-In : (k lo n : ℕ) → lo ≤ k → k < lo + n → In k (range_from lo n)
range_from-In k lo zero h g = absurd (omega arith)
range_from-In k lo (suc n) h g = elim (Bool-cases (k == lo)) [
  | inl e ↦ inl (ground arith)
  | inr e ↦ inr (range_from-In k (suc lo) n (ground arith) (omega arith))
]

nonneg : (z : ℤ) → ltb_ℤ z (pos 0) ≡ false → neg_part z ≡ 0
nonneg (pos n) h = refl
nonneg (negsuc n) h = ground arith

nonneg_above : (a b : ℤ) → ltb_ℤ a (pos 0) ≡ false → ltb_ℤ b a ≡ false → neg_part b ≡ 0
nonneg_above a (pos n) h k = refl
nonneg_above a (negsuc n) h k = ground arith

-- The combinations that the two loops go through, in order.
abbrev pub all_combinations : ℕ → ℕ → List Item → List (List Item)
all_combinations min_terms max_terms ordered =
    flat_map (λ k. combinations k ordered) (range min_terms (max_terms + 1))

search-eq-walk :
    (target : ℤ) (tolerance min_terms max_terms max_combinations max_results : ℕ)
    (ordered : List Item)
    → search target tolerance min_terms max_terms max_combinations max_results ordered
      ≡ walk target tolerance max_combinations max_results
          (0, [])
          (all_combinations min_terms max_terms ordered)
unfolding search walk
search-eq-walk target tolerance min_terms max_terms max_combinations max_results ordered =
    ap (λ f. finish f report)
      (for_each-flat_map (examine target tolerance max_combinations max_results)
        (λ k. combinations k ordered) (0, []) (range min_terms (max_terms + 1)))

-- What the guards of a call that returned have established.
record Guarded (items : List Item) (target : ℤ) (o : Options) : Type 0 where
  tolerance : neg_part o.tolerance ≡ 0
  min_terms : neg_part o.min_terms ≡ 0
  max_terms : neg_part o.max_terms ≡ 0
  terms : o.min_terms ≤ℤ o.max_terms
  results : 0 < pos_part o.max_results
  combinations : 0 < pos_part o.max_combinations

abbrev run : List Item → ℤ → Options → BoundedSubsetResult
run items target o =
    search target (pos_part o.tolerance) (pos_part o.min_terms) (pos_part o.max_terms)
      (pos_part o.max_combinations) (pos_part o.max_results) (arrange o.sort_items items)

find-Guarded :
    (items : List Item) (target : ℤ) (o : Options) (r : BoundedSubsetResult)
    → find_bounded_subsets items target o ≡ ok r
    → Guarded items target o
unfolding find_bounded_subsets
find-Guarded items target o r h = record {
  tolerance = ground (arith, nonneg o.tolerance);
  min_terms = ground (arith, nonneg o.min_terms);
  max_terms = ground (arith, nonneg_above o.min_terms o.max_terms);
  terms = ground arith;
  results = ground arith;
  combinations = ground arith;
}

find-eq-run :
    (items : List Item) (target : ℤ) (o : Options) (r : BoundedSubsetResult)
    → find_bounded_subsets items target o ≡ ok r
    → ((r ≡ record { subsets = []; exhausted = true })
        × (ltb_ℤ o.max_items (pos (length (arrange o.sort_items items))) ≡ true))
      ⊎ (r ≡ run items target o)
unfolding find_bounded_subsets
find-eq-run items target o r h = ground arith

-- A choice of the items that meets the bounds of the search: what the search is for.
pub record Matches (items : List Item) (target : ℤ) (o : Options) (c : List Item) : Type 0 where
  pub chosen : Sublist c (arrange o.sort_items items)
  pub at_least : o.min_terms ≤ℤ pos (length c)
  pub at_most : pos (length c) ≤ℤ o.max_terms
  pub near : pos (abs (sum (map value c) -ℤ target)) ≤ℤ o.tolerance

module _ (items : List Item) (target : ℤ) (o : Options) where
  abbrev pub tries : List (List Item)
  tries =
      all_combinations (pos_part o.min_terms) (pos_part o.max_terms) (arrange o.sort_items items)

  abbrev hit_lists : List (List String)
  hit_lists = found target (pos_part o.tolerance) tries

  Matches-of_hit :
      (c : List Item)
      → Guarded items target o
      → In c tries
      → not (misses target (pos_part o.tolerance) c) ≡ true
      → Matches items target o c
  Matches-of_hit c g m h =
      let (k, n, d) = In-of_flat_map (λ k. combinations k (arrange o.sort_items items)) c _ m in
      let (lo, hi) = In-range_from k _ _ n in
      let (s, len) = combinations_sound k c _ d in
      record {
        chosen = s;
        at_least = omega (arith, g.min_terms);
        at_most = omega (arith, g.min_terms, g.max_terms, g.terms);
        near = ground (arith, g.tolerance);
      }

  hit-of_Matches :
      (c : List Item)
      → Guarded items target o
      → Matches items target o c
      → In c tries × (not (misses target (pos_part o.tolerance) c) ≡ true)
  hit-of_Matches c g m = (
    In-flat_map (λ k. combinations k (arrange o.sort_items items)) (length c) c _
        (range_from-In (length c) _ _ (omega (arith, m.at_least, g.min_terms))
          (omega (arith, m.at_most, m.at_least, g.min_terms, g.max_terms, g.terms)))
        (combinations_complete m.chosen),
    ground (arith, m.near, g.tolerance),
  )

  run-Outcome :
      0 < pos_part o.max_results
      → Outcome target
          (pos_part o.tolerance)
          (pos_part o.max_combinations)
          (pos_part o.max_results)
          0
          []
          tries
          (run items target o)
  run-Outcome h = rw search-eq-walk (
      walk-Outcome target (pos_part o.tolerance) (pos_part o.max_combinations)
        (pos_part o.max_results) 0 [] tries h)

  -- Every subset returned names a choice of items within the bounds whose sum is near the target.
  pub find_bounded_subsets_sound :
      (r : BoundedSubsetResult) (s : List String)
      → find_bounded_subsets items target o ≡ ok r
      → In s r.subsets
      → (c : List Item) × Matches items target o c × (s ≡ map item_id c)
  find_bounded_subsets_sound r s h m = elim (find-eq-run items target o r h) [
    | inl (e, _) ↦ absurd (rw e at m)
    | inr e ↦
        let g = find-Guarded items target o r h in
        let out = run-Outcome g.results in
        elim (Bool-cases (run items target o).exhausted) [
          | inl t ↦ absurd (rw (e, out.closed t) at m)
          | inr f ↦
              let n : In s (take (pos_part o.max_results) hit_lists) = rw (e, out.exact f) at m in
              let (c, k, q) = In-of_map (map item_id) s _ (In-take _ s hit_lists n) in
              let (t, hit) = In-of_filter (hits target (pos_part o.tolerance)) c tries k in
              (c, Matches-of_hit c g t hit, q)
        ]
  ]

  -- A search that is not exhausted and returns fewer subsets than asked for has found them all.
  pub find_bounded_subsets_complete :
      (r : BoundedSubsetResult) (c : List Item)
      → find_bounded_subsets items target o ≡ ok r
      → r.exhausted ≡ false
      → pos (length r.subsets) <ℤ o.max_results
      → Matches items target o c
      → In (map item_id c) r.subsets
  find_bounded_subsets_complete r c h live few m = elim (find-eq-run items target o r h) [
    | inl (e, _) ↦ cc
    | inr e ↦
        let g = find-Guarded items target o r h in
        let out = run-Outcome g.results in
        let all : r.subsets ≡ take (pos_part o.max_results) hit_lists =
          ap (λ (t : BoundedSubsetResult). t.subsets) e ∙ out.exact (cc) in
        let (t, hit) = hit-of_Matches c g m in
        let inside =
          In-map (map item_id) c _ (In-filter (hits target (pos_part o.tolerance)) c tries t hit) in
        let short : take (pos_part o.max_results) hit_lists ≡ hit_lists =
          take_short (pos_part o.max_results) hit_lists
            (omega (arith, ap (length {A = List String}) all)) in
        rw (all, short) inside
  ]

  -- A search stopped by a budget returns no subset, and one within its budgets is not stopped.
  pub find_bounded_subsets_exhausted :
      (r : BoundedSubsetResult)
      → find_bounded_subsets items target o ≡ ok r
      → (r.exhausted ≡ true → r.subsets ≡ [])
        × (pos (length (arrange o.sort_items items)) ≤ℤ o.max_items
            → pos (length tries) ≤ℤ o.max_combinations
            → r.exhausted ≡ false)
  find_bounded_subsets_exhausted r h = elim (find-eq-run items target o r h) [
    | inl (e, over) ↦ (λ _. ap (λ (t : BoundedSubsetResult). t.subsets) e, λ fits _. ground arith)
    | inr e ↦
        let g = find-Guarded items target o r h in
        let out = run-Outcome g.results in
        rw e (out.closed, λ _ fits. out.within (ground (arith, g.combinations)))
  ]

  -- With two results asked for, a single subset returned is the only choice that matches.
  pub find_bounded_subsets_unique :
      (r : BoundedSubsetResult) (s : List String) (c : List Item)
      → find_bounded_subsets items target o ≡ ok r
      → pos 2 ≤ℤ o.max_results
      → r.subsets ≡ s ∷ []
      → Matches items target o c
      → map item_id c ≡ s
  find_bounded_subsets_unique r s c h two single m = elim (Bool-cases r.exhausted) [
    | inl t ↦ cc ((find_bounded_subsets_exhausted r h).0 t)
    | inr f ↦
        elim (rw single at (find_bounded_subsets_complete r c h f (rw single (omega arith)) m)) [
          | inl e ↦ e
          | inr n ↦ absurd n
        ]
  ]

-- ===== src/Subsets/Legacy.antt =====
-- engine/bounded_subsets.py: `find_legacy_subsets`, the amount-indexed search for two or three terms.
use untangle.Base.{
  ℕ, String, Bool, false, ◌&&◌, ◌||◌, Option, none, some, List, [], ◌∷◌, ◌++◌, length, any, all,
  leb, if◌then◌else◌,
}
use untangle.Base.Int.{ℤ, pos, pos_part, ◌-ℤ◌, ltb_ℤ, leb_ℤ}
use untangle.Base.Keys.{Dict, lookup, insert, contains, string_eq, int_eq}
use untangle.Base.Flow.{Flow, next, stop, finish, then_flow, for_each, Result, ok, err}
use untangle.Subsets.Defs.{
  Item, item_id, value, BoundedSubsetResult, ValueError, invalid_bounds, identities_not_unique,
  amounts_not_positive, has_duplicates, has_nonpositive, text_le,
}

-- `value_to_ids.get(v, [])`
abbrev pub or_empty : Option (List String) → List String
or_empty none = []
or_empty (some ids) = ids

abbrev pub ids_at : ℤ → Dict ℤ (List String) → List String
ids_at v d = or_empty (lookup v d)

-- `for item_id, value in ordered: value_to_ids.setdefault(value, []).append(item_id)`
unfoldable pub index_values : Dict ℤ (List String) → List Item → Dict ℤ (List String)
index_values d [] = d
index_values d (x ∷ xs) =
    index_values (insert (value x) (ids_at (value x) d ++ item_id x ∷ []) d) xs

-- Equality of `frozenset`s that are given by their elements.
abbrev pub same_set : List String → List String → Bool
same_set s t = all (λ x. contains x t) s && all (λ x. contains x s) t

-- The variables `seen` and `matches`.
abbrev pub Seen : Type 0
Seen = List (List String) × List (List String)

-- `if subset not in seen: ...`, the statement that ends both loops.
unfoldable pub record_match : ℕ → Seen → List String → Flow Seen BoundedSubsetResult
record_match max_results (seen, matches) subset =
    if any (same_set subset) seen
    then next (seen, matches)
    else (let found = matches ++ subset ∷ [] in
        if leb max_results (length found)
        then stop (record { subsets = found; exhausted = false })
        else next (subset ∷ seen, found))

module _ (max_results : ℕ) (target : ℤ) (index : Dict ℤ (List String)) where
  unfoldable pub pair_step : Item → Seen → String → Flow Seen BoundedSubsetResult
  unfolding record_match
  pair_step item s other =
      if text_le other (item_id item)
      then next s
      else record_match max_results s (item_id item ∷ other ∷ [])

  -- The loop over pairs.
  unfoldable pub pairs : Seen → List Item → Flow Seen BoundedSubsetResult
  unfolding pair_step for_each
  pairs = for_each (λ s item. for_each (pair_step item) s (ids_at (target -ℤ value item) index))

  unfoldable pub triple_step : Item → Item → Seen → String → Flow Seen BoundedSubsetResult
  unfolding record_match
  triple_step first second s third =
      if text_le third (item_id second)
      then next s
      else record_match max_results s (item_id first ∷ item_id second ∷ third ∷ [])

  unfoldable pub second_step : Item → Seen → Item → Flow Seen BoundedSubsetResult
  unfolding triple_step for_each
  second_step first s second =
      let remainder = target -ℤ value first -ℤ value second in
      if leb_ℤ remainder (pos 0)
      then next s
      else for_each (triple_step first second) s (ids_at remainder index)

  -- The loop over triples: `second` runs over what stands behind `first`.
  unfoldable pub triples : Seen → List Item → Flow Seen BoundedSubsetResult
  unfolding second_step for_each
  triples s [] = next s
  triples s (first ∷ rest) = then_flow (for_each (second_step first) s rest) (λ t. triples t rest)

-- The two loops, and the value that is returned after them.
unfoldable pub legacy_search : ℕ → ℤ → List Item → BoundedSubsetResult
unfolding pairs triples index_values
legacy_search max_results target ordered =
    let index = index_values [] ordered in
    finish
      (then_flow (pairs max_results target index ([], []) ordered)
        (λ s. triples max_results target index s ordered))
      (λ s. record { subsets = s.1; exhausted = false })

unfoldable pub find_legacy_subsets : List Item → ℤ → ℤ → Result ValueError BoundedSubsetResult
find_legacy_subsets ordered target max_results =
    if leb_ℤ target (pos 0) || ltb_ℤ max_results (pos 1)
    then err invalid_bounds
    else if has_duplicates ordered
    then err identities_not_unique
    else if has_nonpositive ordered
    then err amounts_not_positive
    else ok (legacy_search (pos_part max_results) target ordered)

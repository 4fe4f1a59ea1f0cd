-- ===== src/Subsets/Defs.antt =====
-- engine/bounded_subsets.py: the data, the checks on the arguments, and `find_bounded_subsets`.
-- Amounts are integers of the model, so the source's test that an amount is an int is vacuous here.
use Prim.Native.Nat.{Ordering}
use Prim.Native.String.{compare as compare_text}
use untangle.Base.{
  ℕ, zero, suc, ◌+◌, ◌-◌, String, Bool, true, false, ◌||◌, not, List, [], ◌∷◌, ◌++◌, map, length,
  any, ltb, leb, ◌==◌, if◌then◌else◌,
}
use untangle.Base.Int.{ℤ, pos, pos_part, abs, sum, ◌-ℤ◌, ltb_ℤ, leb_ℤ}
use untangle.Base.Keys.{to_set, string_eq}
use untangle.Base.Flow.{Flow, next, stop, finish, for_each, Result, ok, err}
use untangle.Subsets.Combinations.{combinations}

-- `(item_id, value)`
abbrev pub Item : Type 0
Item = String × ℤ

abbrev pub item_id : Item → String
item_id i = i.0

abbrev pub value : Item → ℤ
value i = i.1

pub record BoundedSubsetResult : Type 0 where
  pub subsets : List (List String)
  pub exhausted : Bool

-- The messages of the `ValueError`s.
pub data ValueError : Type 0 where
  invalid_bounds budgets_not_positive identities_not_unique amounts_not_positive : ValueError

-- `s <= t` and `s < t` of Python's strings: by code points.
abbrev pub text_le : String → String → Bool
text_le s t = elim (compare_text s t) [ Ordering.gt ↦ false | _ ↦ true ]

-- `list.sort(key=lambda item: item[0])`, which keeps the order of equal keys.
unfoldable pub insert_by_id : Item → List Item → List Item
insert_by_id x [] = x ∷ []
insert_by_id x (y ∷ ys) =
    let rest = insert_by_id x ys in if text_le (item_id x) (item_id y) then x ∷ y ∷ ys else y ∷ rest

unfoldable pub sort_by_id : List Item → List Item
unfolding insert_by_id
sort_by_id [] = []
sort_by_id (x ∷ xs) = insert_by_id x (sort_by_id xs)

-- `len({item_id for item_id, _ in ordered}) != len(ordered)`
abbrev pub has_duplicates : List Item → Bool
has_duplicates items = let ids = map item_id items in not (length (to_set ids) == length ids)

-- `any(value <= 0 for _, value in ordered)`
abbrev pub has_nonpositive : List Item → Bool
has_nonpositive = any (λ i. leb_ℤ (value i) (pos 0))

-- The keyword arguments.
pub record Options : Type 0 where
  pub tolerance : ℤ
  pub min_terms : ℤ
  pub max_terms : ℤ
  pub max_items : ℤ
  pub max_combinations : ℤ
  pub max_results : ℤ
  pub sort_items : Bool

abbrev pub defaults : Options
defaults = record {
  tolerance = pos 0;
  min_terms = pos 1;
  max_terms = pos 5;
  max_items = pos 16;
  max_combinations = pos 100000;
  max_results = pos 2;
  sort_items = true;
}

-- `range(lo, lo + n)`
abbrev pub range_from : ℕ → ℕ → List ℕ
range_from lo zero = []
range_from lo (suc n) = lo ∷ range_from (suc lo) n

-- `range(lo, hi)`
abbrev pub range : ℕ → ℕ → List ℕ
range lo hi = range_from lo (hi - lo)

-- `abs(sum(value for _, value in combo) - target) > tolerance`
abbrev pub misses : ℤ → ℕ → List Item → Bool
misses target tolerance combo = ltb tolerance (abs (sum (map value combo) -ℤ target))

-- The variables `examined` and `matches` of the loop.
abbrev pub Progress : Type 0
Progress = ℕ × List (List String)

-- The body of the inner loop.
unfoldable pub examine :
    (target : ℤ) (tolerance max_combinations max_results : ℕ)
    → Progress
    → List Item
    → Flow Progress BoundedSubsetResult
examine target tolerance max_combinations max_results (examined, matches) combo =
    if ltb max_combinations (suc examined)
    then stop (record { subsets = []; exhausted = true })
    else if misses target tolerance combo
    then next (suc examined, matches)
    else (let found = matches ++ map item_id combo ∷ [] in
        if leb max_results (length found)
        then stop (record { subsets = found; exhausted = false })
        else next (suc examined, found))

-- The two loops. The guards of `find_bounded_subsets` have made the bounds natural numbers.
unfoldable pub search :
    (target : ℤ) (tolerance min_terms max_terms max_combinations max_results : ℕ)
    → List Item
    → BoundedSubsetResult
unfolding examine for_each
search target tolerance min_terms max_terms max_combinations max_results ordered =
    finish
      (for_each
        (λ progress term_count.
          for_each (examine target tolerance max_combinations max_results) progress
            (combinations term_count ordered))
        (0, []) (range min_terms (max_terms + 1)))
      (λ progress. record { subsets = progress.1; exhausted = false })

abbrev pub arrange : Bool → List Item → List Item
arrange sort_items items = if sort_items then sort_by_id items else items

unfoldable pub find_bounded_subsets :
    List Item → ℤ → Options → Result ValueError BoundedSubsetResult
unfolding search sort_by_id
find_bounded_subsets items target o =
    if leb_ℤ target (pos 0)
      || (ltb_ℤ o.tolerance (pos 0) || (ltb_ℤ o.min_terms (pos 0) || ltb_ℤ o.max_terms o.min_terms))
    then err invalid_bounds
    else if ltb_ℤ o.max_items (pos 1)
        || (ltb_ℤ o.max_combinations (pos 1) || ltb_ℤ o.max_results (pos 1))
    then err budgets_not_positive
    else (let ordered = arrange o.sort_items items in
        if ltb_ℤ o.max_items (pos (length ordered))
        then ok (record { subsets = []; exhausted = true })
        else if has_duplicates ordered
        then err identities_not_unique
        else if has_nonpositive ordered
        then err amounts_not_positive
        else ok (
            search target (pos_part o.tolerance) (pos_part o.min_terms) (pos_part o.max_terms)
              (pos_part o.max_combinations) (pos_part o.max_results) ordered))

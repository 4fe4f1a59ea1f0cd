-- ===== src/Reconcile/Defs.antt =====
-- engine/reconcile.py: the coverage of one credit, and the two passes of `reconcile`.
-- `tokens` (the lower-case UTR tokens of a line's text) is a parameter.
use untangle.Base.{
  ℕ, leb, ltb, ◌==◌, String, Bool, true, false, ◌&&◌, ◌||◌, not, Option, none, some, List, [], ◌∷◌,
  ◌++◌, map, flat_map, filter, any, length, if◌then◌else◌,
}
use untangle.Base.Int.{ℤ, pos, abs, sum, ◌-ℤ◌, ltb_ℤ}
use untangle.Base.Keys.{Dict, lookup, add, contains, string_eq, int_eq, nat_eq}
use untangle.Base.Flow.{Result, ok, ◌>>=◌}
use untangle.Models.{BankCreditLine, net_paise, ReconciliationResult}
use untangle.Covered.{Row, entity_key, id_of}
use untangle.Subsets.{
  Item, BoundedSubsetResult, ValueError, Options, defaults, find_bounded_subsets,
}
use untangle.Subsets.Legacy.{find_legacy_subsets, same_set}
use untangle.Reconcile.Index.{SettlementIndex, within_window, or_else, rows_under}

-- The sets of a `SettlementIndex` that a run fills.
pub record Marks : Type 0 where
  pub ambiguous_lines : List String
  pub un_enumerable_lines : List String
  pub duplicate_or_split_lines : List String
  pub unbalanced_lines : Dict String ℤ
  pub uncredited_sids : List String

abbrev pub no_marks : Marks
no_marks = record {
  ambiguous_lines = [];
  un_enumerable_lines = [];
  duplicate_or_split_lines = [];
  unbalanced_lines = [];
  uncredited_sids = [];
}

abbrev pub drift_tolerance_paise : ℕ
drift_tolerance_paise = 100

abbrev pub setsum_max_candidates : ℕ
setsum_max_candidates = 200

abbrev pub setsum_expansion_max_candidates : ℕ
setsum_expansion_max_candidates = 16

abbrev pub setsum_options : Options
setsum_options = record defaults { sort_items = false }

-- `seen_subsets` holds the sets of the members of `satisfying_subsets`, so one list serves as both.
unfoldable pub add_subset : List (List String) → List String → List (List String)
add_subset satisfying subset =
    if any (same_set subset) satisfying then satisfying else satisfying ++ subset ∷ []

unfoldable pub add_subsets : List (List String) → List (List String) → List (List String)
unfolding add_subset
add_subsets satisfying [] = satisfying
add_subsets satisfying (s ∷ ss) = add_subsets (add_subset satisfying s) ss

module _ (s : SettlementIndex) (line : BankCreditLine) (used : List String) where
  -- A settlement that this credit may cover.
  abbrev pub usable : String → Bool
  usable sid = not (contains sid used) && within_window s sid line

  -- Step 1, the loop over `net_to_sids.get(line.amount_paise, [])`.
  unfoldable pub single_matches : List (List String)
  unfolding add_subsets
  single_matches =
      add_subsets [] (
        map (λ sid. sid ∷ []) (filter usable (or_else [] (lookup line.amount_paise s.net_to_sids))))

  -- `cands`
  unfoldable pub candidates : List Item
  candidates =
      filter
        (λ c.
          not (contains c.0 used)
          && (ltb_ℤ (pos 0) c.1 && (ltb_ℤ c.1 line.amount_paise && within_window s c.0 line)))
        s.net_by_sid

-- The search of step 2, for a pool that is not empty and not too large.
unfoldable pub setsum_search : List Item → ℤ → Result ValueError BoundedSubsetResult
setsum_search cands amount =
    if leb (length cands) setsum_expansion_max_candidates
    then find_bounded_subsets cands amount setsum_options
    else find_legacy_subsets cands amount (pos 2)

-- The subsets of step 2; `none` is a search that ran out of its budget.
unfoldable pub setsum_matches : List Item → ℤ → Result ValueError (Option (List (List String)))
unfolding setsum_search
setsum_matches cands amount =
    if (length cands == 0) || ltb setsum_max_candidates (length cands)
    then ok (some [])
    else (do r ← setsum_search cands amount; if r.exhausted then ok none else ok (some r.subsets))

-- The decision at the end: one subset is an answer, several are an ambiguity.
unfoldable pub decide_subset : String → Marks → List (List String) → Marks × List String
decide_subset key m [] = (m, [])
decide_subset key m (subset ∷ []) = (m, subset)
decide_subset key m (_ ∷ _ ∷ _) = (record m { ambiguous_lines = add key m.ambiguous_lines }, [])

unfoldable pub amount_or_setsum_sids :
    SettlementIndex → BankCreditLine → List String → Marks → Result ValueError (Marks × List String)
unfolding setsum_matches single_matches candidates add_subsets
amount_or_setsum_sids s line used m = do
  found ← setsum_matches (candidates s line used) line.amount_paise
  elim found [
    | none ↦ ok (record m { un_enumerable_lines = add line.key m.un_enumerable_lines }, [])
    | some subsets ↦
        ok (decide_subset line.key m (add_subsets (single_matches s line used) subsets))
  ]

-- `[r for s in sids for r in sindex.rows_by_sid.get(s, [])]`
abbrev pub covered_rows : SettlementIndex → List String → List Row
covered_rows s sids = flat_map (rows_under s.rows_by_sid) sids

abbrev pub covered_net : SettlementIndex → List String → ℤ
covered_net s sids = sum (map (λ r. net_paise r.row) (covered_rows s sids))

unfoldable pub result_of : SettlementIndex → BankCreditLine → List String → ReconciliationResult
result_of s line sids = record {
  line_key = line.key;
  covered_entity_ids = map entity_key (covered_rows s sids);
  covered_net_paise = covered_net s sids;
  credit_amount_paise = line.amount_paise;
  residual_paise = line.amount_paise -ℤ covered_net s sids;
  balanced = true;
  covered_row_ids = map (id_of s.row_ids) (covered_rows s sids);
}

unfoldable pub make_result :
    BankCreditLine → List String → SettlementIndex → Option ReconciliationResult
unfolding result_of
make_result line sids s =
    if ltb drift_tolerance_paise (abs (line.amount_paise -ℤ covered_net s sids))
    then none
    else some (result_of s line sids)

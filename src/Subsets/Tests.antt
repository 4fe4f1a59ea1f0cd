-- ===== src/Subsets/Tests.antt =====
-- Runs of the subset-sum search, and its theorems at concrete inputs.
use untangle.Base.{◌≡◌, refl, true, false, inl, List, [], ◌∷◌, map, length, In, All, arith}
use untangle.Base.Int.{pos, ◌+ℤ◌, ◌-ℤ◌, ◌≤ℤ◌}
use untangle.Base.Flow.{for_each, ok}
use untangle.Subsets.{Item, item_id, BoundedSubsetResult, Options, defaults, find_bounded_subsets}
use untangle.Subsets.Combinations.{combinations, skip, keep, nil}
use untangle.Subsets.Exact.{
  Matches, tries, find_bounded_subsets_sound, find_bounded_subsets_complete,
  find_bounded_subsets_exhausted, find_bounded_subsets_unique,
}
use untangle.Subsets.Legacy.{find_legacy_subsets, legacy_search}
use untangle.Subsets.LegacySound.{AddsUp, find_legacy_subsets_sound}

abbrev nets : List Item
nets = ("setl_c", pos 700) ∷ ("setl_a", pos 250) ∷ ("setl_b", pos 300) ∷ []

abbrev kept_order : Options
kept_order = record defaults { sort_items = false }

abbrev one_match : BoundedSubsetResult
one_match = record { subsets = ("setl_c" ∷ "setl_b" ∷ []) ∷ []; exhausted = false }

nets_kept : find_bounded_subsets nets (pos 1000) kept_order ≡ ok one_match
unfolding find_bounded_subsets combinations for_each ◌-ℤ◌ ◌+ℤ◌
nets_kept = refl

nets_sorted :
    find_bounded_subsets nets (pos 550) defaults
    ≡ ok (record { subsets = ("setl_a" ∷ "setl_b" ∷ []) ∷ []; exhausted = false })
unfolding find_bounded_subsets combinations for_each ◌-ℤ◌ ◌+ℤ◌
nets_sorted = refl

nets_pair : Matches nets (pos 1000) kept_order (("setl_c", pos 700) ∷ ("setl_b", pos 300) ∷ [])
unfolding ◌+ℤ◌ ◌-ℤ◌
nets_pair = record {
  chosen = keep ("setl_c", pos 700) (skip ("setl_a", pos 250) (keep ("setl_b", pos 300) nil));
  at_least = omega arith;
  at_most = omega arith;
  near = omega arith;
}

find_bounded_subsets_sound_example :
    (c : List Item) × Matches nets (pos 1000) kept_order c
    × ("setl_c" ∷ "setl_b" ∷ [] ≡ map item_id c)
find_bounded_subsets_sound_example =
    find_bounded_subsets_sound nets (pos 1000) kept_order one_match ("setl_c" ∷ "setl_b" ∷ [])
      nets_kept (inl refl)

find_bounded_subsets_complete_example : In ("setl_c" ∷ "setl_b" ∷ []) one_match.subsets
find_bounded_subsets_complete_example =
    find_bounded_subsets_complete nets (pos 1000) kept_order one_match
      (("setl_c", pos 700) ∷ ("setl_b", pos 300) ∷ []) nets_kept refl (omega arith) nets_pair

find_bounded_subsets_unique_example :
    map item_id (("setl_c", pos 700) ∷ ("setl_b", pos 300) ∷ []) ≡ "setl_c" ∷ "setl_b" ∷ []
find_bounded_subsets_unique_example =
    find_bounded_subsets_unique nets (pos 1000) kept_order one_match ("setl_c" ∷ "setl_b" ∷ [])
      (("setl_c", pos 700) ∷ ("setl_b", pos 300) ∷ []) nets_kept (omega arith) refl nets_pair

find_bounded_subsets_exhausted_example :
    (one_match.exhausted ≡ true → one_match.subsets ≡ [])
    × (pos (length nets) ≤ℤ kept_order.max_items
        → pos (length (tries nets (pos 1000) kept_order)) ≤ℤ kept_order.max_combinations
        → one_match.exhausted ≡ false)
find_bounded_subsets_exhausted_example =
    find_bounded_subsets_exhausted nets (pos 1000) kept_order one_match nets_kept

-- The ids are out of order, and the legacy search counts one settlement twice: 10 + 5 + 10.
abbrev twice_used : BoundedSubsetResult
twice_used = record { subsets = ("setl_b" ∷ "setl_a" ∷ "setl_b" ∷ []) ∷ []; exhausted = false }

legacy_repeats :
    find_legacy_subsets (("setl_b", pos 10) ∷ ("setl_a", pos 5) ∷ []) (pos 25) (pos 2)
    ≡ ok twice_used
unfolding find_legacy_subsets legacy_search ◌+ℤ◌ ◌-ℤ◌
legacy_repeats = refl

find_legacy_subsets_sound_example :
    (twice_used.exhausted ≡ false)
    × All (AddsUp (("setl_b", pos 10) ∷ ("setl_a", pos 5) ∷ []) (pos 25)) twice_used.subsets
find_legacy_subsets_sound_example =
    find_legacy_subsets_sound (("setl_b", pos 10) ∷ ("setl_a", pos 5) ∷ []) (pos 25) (pos 2)
      twice_used legacy_repeats

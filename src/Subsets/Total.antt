-- ===== src/Subsets/Total.antt =====
-- The guards of the two searches: for distinct ids and positive amounts neither raises.
use untangle.Base.{
  ◌≡◌, refl, Bool, true, false, List, [], ◌∷◌, map, In, inl, inr, if◌then◌else◌, arith,
}
use untangle.Base.Int.{ℤ, pos, leb_ℤ, ◌<ℤ◌}
use untangle.Base.Keys.{Nodup, length-to_set, string_eq}
use untangle.Base.Flow.{Result, ok}
use untangle.Subsets.Defs.{
  Item, item_id, value, BoundedSubsetResult, ValueError, defaults, has_duplicates, has_nonpositive,
  find_bounded_subsets,
}
use untangle.Subsets.Legacy.{find_legacy_subsets}

-- A pool of candidates: distinct ids and positive amounts.
pub record IsPool (items : List Item) : Type 0 where
  pub distinct : Nodup (map item_id items)
  pub positive : (i : Item) → In i items → pos 0 <ℤ value i

IsPool-has_duplicates : (items : List Item) → IsPool items → has_duplicates items ≡ false
IsPool-has_duplicates items p = ground (arith, length-to_set (map item_id items) p.distinct)

has_nonpositive_no :
    (items : List Item)
    → ((i : Item) → In i items → pos 0 <ℤ value i)
    → has_nonpositive items ≡ false
has_nonpositive_no [] h = refl
has_nonpositive_no (i ∷ is) h =
    ground (arith, h i (inl refl), has_nonpositive_no is (λ j m. h j (inr m)))

either_returns :
    (b : Bool) (x y : BoundedSubsetResult)
    → (r : BoundedSubsetResult) × ((if b
          then (let z : Result ValueError BoundedSubsetResult = ok x in z)
          else ok y)
        ≡ ok r)
either_returns true x y = (x, refl)
either_returns false x y = (y, refl)

pub find_bounded_subsets_total :
    (items : List Item) (target : ℤ)
    → IsPool items
    → pos 0 <ℤ target
    → (r : BoundedSubsetResult) × (find_bounded_subsets items target
          (record defaults { sort_items = false })
        ≡ ok r)
unfolding find_bounded_subsets
find_bounded_subsets_total items target p h =
    let no_twins = IsPool-has_duplicates items p in
    let no_debts = has_nonpositive_no items p.positive in
    let go : leb_ℤ target (pos 0) ≡ false = ground arith in
    rw (go, no_twins, no_debts) (either_returns _ _ _)

pub find_legacy_subsets_total :
    (items : List Item) (target : ℤ)
    → IsPool items
    → pos 0 <ℤ target
    → (r : BoundedSubsetResult) × (find_legacy_subsets items target (pos 2) ≡ ok r)
unfolding find_legacy_subsets
find_legacy_subsets_total items target p h =
    let no_twins = IsPool-has_duplicates items p in
    let no_debts = has_nonpositive_no items p.positive in
    let go : leb_ℤ target (pos 0) ≡ false = ground arith in rw (go, no_twins, no_debts) (_, refl)

-- ===== src/Reconcile/Total.antt =====
-- The searches that `reconcile` makes never raise: their pools meet the guards.
use untangle.Base.{
  ◌≡◌, refl, inl, inr, String, false, ◌||◌, none, some, Bool-cases, Option-cases, List, [], ◌∷◌,
  length, In, leb, ltb, ◌==◌, arith,
}
use untangle.Base.Int.{ℤ, pos, ◌<ℤ◌}
use untangle.Base.Keys.{add, string_eq}
use untangle.Base.Flow.{Result, ok}
use untangle.Models.{BankCreditLine}
use untangle.Subsets.{Item}
use untangle.Subsets.Total.{IsPool, find_bounded_subsets_total, find_legacy_subsets_total}
use untangle.Reconcile.Index.{SettlementIndex}
use untangle.Reconcile.IndexLaws.{IsConsistent}
use untangle.Reconcile.Defs.{
  Marks, candidates, setsum_search, setsum_matches, amount_or_setsum_sids, decide_subset,
  add_subsets, single_matches,
}
use untangle.Reconcile.Coverage.{candidate_facts, pool-IsPool}

abbrev pub Returns {ℓ κ} : {E : Type ℓ} {A : Type κ} → Result E A → Type (ℓ ⊔ κ)
Returns {A} r = (a : A) × (r ≡ ok a)

-- A pool whose amounts lie below the target: with one member, the target is positive.
module _ (cands : List Item) (amount : ℤ) (pool : IsPool cands)
    (below : (i : Item) → In i cands → i.1 <ℤ amount) where
  positive_target : (length cands == 0) ≡ false → pos 0 <ℤ amount
  positive_target h = go cands h pool.positive below
    where
      go :
          (is : List Item)
          → (length is == 0) ≡ false
          → ((i : Item) → In i is → pos 0 <ℤ i.1)
          → ((i : Item) → In i is → i.1 <ℤ amount)
          → pos 0 <ℤ amount
      go [] h f g = cc
      go (i ∷ is) h f g = omega (arith, f i (inl refl), g i (inl refl))

  pub setsum_search_total : (length cands == 0) ≡ false → Returns (setsum_search cands amount)
  unfolding setsum_search
  setsum_search_total h = elim (Bool-cases (leb (length cands) 16)) [
    | inl few ↦ rw few (find_bounded_subsets_total cands amount pool (positive_target h))
    | inr many ↦ rw many (find_legacy_subsets_total cands amount pool (positive_target h))
  ]

  setsum_matches_total : Returns (setsum_matches cands amount)
  unfolding setsum_matches
  setsum_matches_total = elim (Bool-cases ((length cands == 0) || ltb 200 (length cands))) [
    | inl skip ↦ (some [], rw skip refl)
    | inr go ↦
        let (r, e) = setsum_search_total (ground arith) in
        elim (Bool-cases r.exhausted) [
          | inl t ↦ (none, rw (go, e, t) refl)
          | inr f ↦ (some r.subsets, rw (go, e, f) refl)
        ]
  ]

pub amount_or_setsum_sids_total :
    (s : SettlementIndex) (good : IsConsistent s) (line : BankCreditLine) (used : List String)
    (m : Marks)
    → (out : Marks × List String) × (amount_or_setsum_sids s line used m ≡ ok out)
unfolding amount_or_setsum_sids
amount_or_setsum_sids_total s good line used m =
    let (found, e) =
      setsum_matches_total (candidates s line used) line.amount_paise (pool-IsPool s good line used)
        (λ i k. (candidate_facts s good line used i k).3) in
    elim (Option-cases found) [
      | inl n ↦ (
        (record m { un_enumerable_lines = add line.key m.un_enumerable_lines }, []),
        rw (e, n) refl,
      )
      | inr (subsets, n) ↦ (
        decide_subset line.key m (add_subsets (single_matches s line used) subsets),
        rw (e, n) refl,
      )
    ]

-- ===== src/Reconcile/Outcome.antt =====
-- reconcile.py: the outcome of `reconcile` as a whole.
use mathlib.Core.List.{Perm}
use mathlib.Core.List.Perm
use untangle.Base.{
  ℕ, ◌≡◌, refl, inl, inr, ◌⊎◌, ◌↔◌, String, false, not, Bool-cases, List, [], ◌∷◌, map, filter,
  flat_map, In, In-map, In-of_map, In-filter, In-of_filter, All, leb, arith,
}
use untangle.Base.Keys.{Dict, keys, contains, contains-In, string_eq}
use untangle.Base.Dicts.{not_In, not_contains}
use untangle.Base.Flow.{ok}
use untangle.Models.{BankCreditLine, RailAttribution, ReconciliationResult}
use untangle.Covered.{Row, Signature}
use untangle.Reconcile.Index.{SettlementIndex, settlement_index}
use untangle.Reconcile.IndexLaws.{settlement_index-IsConsistent}
use untangle.Reconcile.Passes.{
  Claim, Progress, is_left, place, insert_result, sort_results, order_of, Reconciled, close,
  reconcile_slice, razorpay_slice, reconcile,
}
use untangle.Reconcile.Claims.{
  Cover, cover_sids, cover_key, cover_result, Separate, Backed, IsBacked,
}
use untangle.Reconcile.Safety.{passes-IsBacked}

insert_result-Perm :
    (order : Dict String ℕ) (r : ReconciliationResult) (rs : List ReconciliationResult)
    → Perm (insert_result order r rs) (r ∷ rs)
unfolding insert_result
insert_result-Perm order r [] = Perm.refl _
insert_result-Perm order r (q ∷ qs) = elim (Bool-cases (leb (place order r) (place order q))) [
  | inl first ↦ rw first (Perm.refl _)
  | inr later ↦
      rw later (Perm.trans (Perm.cons q (insert_result-Perm order r qs)) (Perm.swap r q qs))
]

sort_results-Perm :
    (order : Dict String ℕ) (rs : List ReconciliationResult) → Perm (sort_results order rs) rs
unfolding sort_results
sort_results-Perm order [] = Perm.refl _
sort_results-Perm order (r ∷ rs) =
    Perm.trans (insert_result-Perm order r (sort_results order rs))
      (Perm.cons r (sort_results-Perm order rs))

-- The contract of a run over the slice `rzp`: `covers` pairs each credit that was reconciled with
-- the settlements that it covers.
pub record Contract (rzp : List Claim) (out : Reconciled) : Type 0 where
  pub covers : List Cover
  pub results : Perm out.results (map (cover_result out.index) covers)
  pub separate : Separate covers
  pub backed : All (Backed out.index rzp) covers
  pub partition : (c : Claim) → In c rzp → In c.0 (map cover_key covers) ⊎ In c.0 out.unresolved
  pub disjoint : (key : String) → In key out.unresolved → ¬ In key (map cover_key covers)
  pub uncredited :
      (sid : String)
      → In sid out.marks.uncredited_sids
        ↔ (In sid (keys out.index.rows_by_sid) × ¬ In sid (flat_map cover_sids covers))

module _ (tokens : BankCreditLine → List String) (s : SettlementIndex) (rzp : List Claim) where
  close-Contract : (p : Progress) → IsBacked s rzp p → Contract rzp (close tokens s rzp p)
  unfolding close
  close-Contract p b = record {
    covers = b.covers;
    results = rw (← b.results) (sort_results-Perm (order_of 0 [] rzp) p.results);
    separate = b.separate;
    backed = b.backed;
    partition = λ c m. elim (Bool-cases (contains c.0 p.resolved)) [
      | inl done ↦ inl ((b.resolved c.0).0 (contains-In c.0 p.resolved done))
      | inr left ↦
          inr (
            In-map (λ (d : Claim). d.0) c _ (In-filter (is_left p.resolved) c rzp m (ground arith)))
    ];
    disjoint = λ key m n.
        let (c, k, e) = In-of_map (λ (d : Claim). d.0) key (filter (is_left p.resolved) rzp) m in
        let (i, h) = In-of_filter (is_left p.resolved) c rzp k in
        not_In c.0 p.resolved (ground arith) (rw e at ((b.resolved key).1 n));
    uncredited = λ sid. (
      λ m.
          let (i, h) =
            In-of_filter (λ t. not (contains t p.used_sids)) sid (keys s.rows_by_sid) m in
          (i, λ n. not_In sid p.used_sids (ground arith) ((b.used sid).1 n)),
      λ (i, n).
          let free : contains sid p.used_sids ≡ false =
            not_contains sid p.used_sids (λ k. n ((b.used sid).0 k)) in
          In-filter (λ t. not (contains t p.used_sids)) sid (keys s.rows_by_sid) i (ground arith),
    );
  }

-- A reconciliation always returns. Its results are those of a list of credits with settlements, in
-- which every credit stands in the proven Razorpay slice and lies within one rupee of the summed nets
-- of the settlements listed for it. The list of a credit names each settlement once, with one
-- exception: when more than 16 settlements of the report fit the credit's window and amount, it may
-- be three ids a, b, a with a after b in the order of ids, and the net of a then counts twice. No
-- settlement is listed for two credits; every line of the slice is either in that list or unresolved
-- and never both; and the uncredited settlements are those of the report that no credit of the list
-- covers.
pub reconcile_contract :
    {F : Type 0} (fingerprint : Signature → ℕ → String) (lower : String → String)
    (tokens : BankCreditLine → List String) (lines_by_key : Dict String BankCreditLine)
    (attributions : List (RailAttribution F)) (rows : List Row)
    → (out : Reconciled) × (reconcile tokens fingerprint lower lines_by_key attributions rows
        ≡ ok out)
      × Contract (razorpay_slice lines_by_key attributions) out
unfolding reconcile reconcile_slice
reconcile_contract fingerprint lower tokens lines_by_key attributions rows =
    let s = settlement_index fingerprint lower rows in
    let rzp = razorpay_slice lines_by_key attributions in
    let (p, e, b) =
      passes-IsBacked tokens s rzp (settlement_index-IsConsistent fingerprint lower rows) in
    (close tokens s rzp p, rw e refl, close-Contract tokens s rzp p b)

-- ===== src/FeeGst/Total.antt =====
-- The total of `fee_gst` is itemised in full, and nothing is itemised that is no tax of a row.
use mathlib.Core.List.{append-nil, append_assoc, map-append}
use untangle.Base.{
  ℕ, ◌≡◌, refl, ap, sym, ◌∙◌, inl, inr, String, Bool-cases, Option, none, some, List, [], ◌∷◌, ◌++◌,
  map, if◌then◌else◌, arith,
}
use untangle.Base.Int.{ℤ, pos, ◌+ℤ◌, ◌==ℤ◌, ==ℤ_iff, sum, sum-append, int_laws}
use untangle.Base.Keys.{Dict}
use untangle.Base.Flow.{Result, ok, ◌>>=◌, bind_returned}
use untangle.Models.{ReconciliationResult, FeeGstRecovery}
use untangle.Covered.{Row, Signature, CoverageError, rows_by_canonical_id}
use untangle.FeeGst.Defs.{add_row, add_rows, rows_of, rows_by_entity, fee_gst_from, fee_gst}

abbrev pub amount : String × ℤ → ℤ
amount e = e.1

-- The GST on a row's fee, and nothing for a row that was not found.
abbrev pub tax_of : Option Row → ℤ
tax_of none = pos 0
tax_of (some r) = r.row.tax_paise

-- The rows that carry GST, each with its amount.
abbrev pub itemise : List (Option Row) → List (String × ℤ)
itemise [] = []
itemise (none ∷ rs) = itemise rs
itemise (some r ∷ rs) =
    let rest = itemise rs in
    if r.row.tax_paise ==ℤ pos 0 then rest else (r.row.entity_id, r.row.tax_paise) ∷ rest

itemise-cons :
    (r : Option Row) (rs : List (Option Row)) → itemise (r ∷ rs) ≡ itemise (r ∷ []) ++ itemise rs
itemise-cons none rs = refl
itemise-cons (some r) rs = ground arith

add_row-by_entity :
    (f : FeeGstRecovery) (r : Option Row)
    → (add_row f r).by_entity ≡ f.by_entity ++ itemise (r ∷ [])
unfolding add_row
add_row-by_entity f none = sym (append-nil f.by_entity)
add_row-by_entity f (some r) = ground (arith, append-nil f.by_entity)

add_row-total :
    (f : FeeGstRecovery) (r : Option Row)
    → (add_row f r).total_recoverable_paise ≡ f.total_recoverable_paise +ℤ tax_of r
unfolding add_row
add_row-total f none = omega int_laws
add_row-total f (some r) = elim (Bool-cases (r.row.tax_paise ==ℤ pos 0)) [
  | inl zero ↦ rw (zero, (==ℤ_iff r.row.tax_paise (pos 0)).0 zero) (omega int_laws)
  | inr more ↦ rw more
]

add_rows-by_entity :
    (f : FeeGstRecovery) (rows : List (Option Row))
    → (add_rows f rows).by_entity ≡ f.by_entity ++ itemise rows
unfolding add_rows
add_rows-by_entity f [] = sym (append-nil f.by_entity)
add_rows-by_entity f (r ∷ rs) =
    add_rows-by_entity (add_row f r) rs
    ∙ rw (add_row-by_entity f r, itemise-cons r rs) (append_assoc f.by_entity _ _)

add_rows-total :
    (f : FeeGstRecovery) (rows : List (Option Row))
    → (add_rows f rows).total_recoverable_paise ≡ f.total_recoverable_paise +ℤ sum (map tax_of rows)
unfolding add_rows
add_rows-total f [] = omega int_laws
add_rows-total f (r ∷ rs) =
    add_rows-total (add_row f r) rs ∙ rw (add_row-total f r) (omega int_laws)

sum-itemise : (rows : List (Option Row)) → sum (map amount (itemise rows)) ≡ sum (map tax_of rows)
sum-itemise [] = refl
sum-itemise (none ∷ rs) = rw (sum-itemise rs) (omega int_laws)
sum-itemise (some r ∷ rs) = elim (Bool-cases (r.row.tax_paise ==ℤ pos 0)) [
  | inl zero ↦ rw (zero, (==ℤ_iff r.row.tax_paise (pos 0)).0 zero, sum-itemise rs) (omega int_laws)
  | inr more ↦ rw more (ap (λ t. r.row.tax_paise +ℤ t) (sum-itemise rs))
]

itemise-append :
    (rows more : List (Option Row)) → itemise (rows ++ more) ≡ itemise rows ++ itemise more
itemise-append [] more = refl
itemise-append (none ∷ rs) more = itemise-append rs more
itemise-append (some r ∷ rs) more = elim (Bool-cases (r.row.tax_paise ==ℤ pos 0)) [
  | inl zero ↦ rw zero (itemise-append rs more)
  | inr tax ↦ rw tax (ap (λ t. (r.row.entity_id, r.row.tax_paise) ∷ t) (itemise-append rs more))
]

module _ (by_row_id : Dict String Row) (by_id : Dict (String × String) Row) where
  -- The rows of all the reconciliations, in order.
  abbrev pub all_rows : List ReconciliationResult → Result CoverageError (List (Option Row))
  all_rows [] = ok []
  all_rows (rec ∷ recs) = do
    rows ← rows_of by_row_id by_id rec
    rest ← all_rows recs
    ok (rows ++ rest)

  -- What the recovery holds over what it held before, given the rows that were gone through.
  record Gone (f g : FeeGstRecovery) (recs : List ReconciliationResult) : Type 0 where
    rows : List (Option Row)
    are_all : all_rows recs ≡ ok rows
    items : g.by_entity ≡ f.by_entity ++ itemise rows
    total : g.total_recoverable_paise ≡ f.total_recoverable_paise +ℤ sum (map tax_of rows)

  Gone-cons :
      (f g : FeeGstRecovery) (rec : ReconciliationResult) (recs : List ReconciliationResult)
      (rows : List (Option Row))
      → rows_of by_row_id by_id rec ≡ ok rows
      → Gone (add_rows f rows) g recs
      → Gone f g (rec ∷ recs)
  Gone-cons f g rec recs rows e rest = record {
    rows = rows ++ rest.rows;
    are_all = rw (e, rest.are_all);
    items =
        rest.items
        ∙ rw (add_rows-by_entity f rows, itemise-append rows rest.rows)
            (append_assoc f.by_entity (itemise rows) (itemise rest.rows));
    total =
        rest.total
        ∙ rw
            (
              add_rows-total f rows,
              map-append tax_of rows rest.rows,
              sum-append (map tax_of rows) (map tax_of rest.rows),
            )
            (omega int_laws);
  }

  fee_gst_from-Gone :
      (f g : FeeGstRecovery) (recs : List ReconciliationResult)
      → fee_gst_from by_row_id by_id f recs ≡ ok g
      → Gone f g recs
  unfolding fee_gst_from
  fee_gst_from-Gone f g [] h =
      let e : f ≡ g = cc in
      record {
        rows = [];
        are_all = refl;
        items = rw (append-nil f.by_entity) (ap (λ (t : FeeGstRecovery). t.by_entity) (sym e));
        total = ap (λ (t : FeeGstRecovery). t.total_recoverable_paise) (sym e) ∙ omega int_laws;
      }
  fee_gst_from-Gone f g (rec ∷ recs) h =
      let (rows, e, k) =
        bind_returned (rows_of by_row_id by_id rec)
          (λ rows. fee_gst_from by_row_id by_id (add_rows f rows) recs) h in
      Gone-cons f g rec recs rows e (fee_gst_from-Gone (add_rows f rows) g recs k)

-- The items of the recovery are the rows with GST among all the rows of the reconciliations, in
-- order, and the total is the sum of the GST of all of these rows.
pub fee_gst_itemised :
    (fingerprint : Signature → ℕ → String) (reconciliations : List ReconciliationResult)
    (recon_rows : List Row) (f : FeeGstRecovery)
    → fee_gst fingerprint reconciliations recon_rows ≡ ok f
    → (rows : List (Option Row)) × (all_rows
          (rows_by_canonical_id fingerprint recon_rows)
          (rows_by_entity [] recon_rows)
          reconciliations
        ≡ ok rows)
      × (f.by_entity ≡ itemise rows)
      × (f.total_recoverable_paise ≡ sum (map tax_of rows))
      × (f.total_recoverable_paise ≡ sum (map amount f.by_entity))
unfolding fee_gst
fee_gst_itemised fingerprint reconciliations recon_rows f h =
    let by_row_id = rows_by_canonical_id fingerprint recon_rows in
    let by_id = rows_by_entity [] recon_rows in
    let start : FeeGstRecovery = record { total_recoverable_paise = pos 0; by_entity = [] } in
    let gone = fee_gst_from-Gone by_row_id by_id start f reconciliations h in
    let total : f.total_recoverable_paise ≡ sum (map tax_of gone.rows) =
      gone.total ∙ omega int_laws in
    (
      gone.rows,
      gone.are_all,
      gone.items,
      total,
      total ∙ sym (sum-itemise gone.rows) ∙ ap (λ t. sum (map amount t)) (sym gone.items),
    )

-- ===== src/FeeGst/Defs.antt =====
-- engine/feegst.py: `fee_gst`.
use untangle.Base.{ℕ, String, Option, none, some, List, [], ◌∷◌, ◌++◌, if◌then◌else◌}
use untangle.Base.Int.{pos, ◌+ℤ◌, ◌==ℤ◌}
use untangle.Base.Keys.{Dict, lookup, insert, pair_eq, string_eq}
use untangle.Base.Flow.{Result, ok, ◌>>=◌}
use untangle.Models.{ReconciliationResult, FeeGstRecovery}
use untangle.Covered.{
  Row, Signature, CoverageError, entity_key, rows_by_canonical_id, resolve_covered_rows_by_id,
}

-- `{(r.type, r.entity_id): r for r in recon_rows}`
unfoldable pub rows_by_entity : Dict (String × String) Row → List Row → Dict (String × String) Row
rows_by_entity d [] = d
rows_by_entity d (r ∷ rs) = rows_by_entity (insert (entity_key r) r d) rs

-- `[by_id.get(tuple(key)) for key in keys]`
unfoldable pub legacy_rows : Dict (String × String) Row → List (String × String) → List (Option Row)
legacy_rows by_id [] = []
legacy_rows by_id (k ∷ ks) = lookup k by_id ∷ legacy_rows by_id ks

abbrev pub all_found : List Row → List (Option Row)
all_found [] = []
all_found (r ∷ rs) = some r ∷ all_found rs

-- `if row is not None and row.tax_paise: ...`
unfoldable pub add_row : FeeGstRecovery → Option Row → FeeGstRecovery
add_row acc none = acc
add_row acc (some r) = if r.row.tax_paise ==ℤ pos 0 then acc else record {
  total_recoverable_paise = acc.total_recoverable_paise +ℤ r.row.tax_paise;
  by_entity = acc.by_entity ++ (r.row.entity_id, r.row.tax_paise) ∷ [];
}

unfoldable pub add_rows : FeeGstRecovery → List (Option Row) → FeeGstRecovery
add_rows acc [] = acc
add_rows acc (r ∷ rs) = add_rows (add_row acc r) rs

module _ (by_row_id : Dict String Row) (by_id : Dict (String × String) Row) where
  -- The rows of one reconciliation: the strict path, or the legacy one without row ids.
  unfoldable pub rows_of : ReconciliationResult → Result CoverageError (List (Option Row))
  unfolding legacy_rows resolve_covered_rows_by_id
  rows_of rec = elim rec.covered_row_ids [
    | [] ↦ ok (legacy_rows by_id rec.covered_entity_ids)
    | _ ∷ _ ↦ do rows ← resolve_covered_rows_by_id rec by_row_id; ok (all_found rows)
  ]

  unfoldable pub fee_gst_from :
      FeeGstRecovery → List ReconciliationResult → Result CoverageError FeeGstRecovery
  fee_gst_from acc [] = ok acc
  fee_gst_from acc (rec ∷ recs) = do rows ← rows_of rec; fee_gst_from (add_rows acc rows) recs

unfoldable pub fee_gst :
    (Signature → ℕ → String)
    → List ReconciliationResult
    → List Row
    → Result CoverageError FeeGstRecovery
unfolding fee_gst_from rows_by_entity
fee_gst fingerprint reconciliations recon_rows =
    fee_gst_from (rows_by_canonical_id fingerprint recon_rows) (rows_by_entity [] recon_rows)
      (record { total_recoverable_paise = pos 0; by_entity = [] }) reconciliations

-- ===== src/FeeGst/Tests.antt =====
-- A run of `fee_gst`, and its theorem there.
use untangle.Base.{◌≡◌, refl, Option, List, [], ◌∷◌, map}
use untangle.Base.Int.{pos, sum, ◌+ℤ◌}
use untangle.Base.Flow.{ok}
use untangle.Models.{FeeGstRecovery}
use untangle.Covered.{Row, row_signature, signature_eq, rows_by_canonical_id}
use untangle.FeeGst.Defs.{add_rows, add_row, rows_of, rows_by_entity, fee_gst}
use untangle.FeeGst.Total.{amount, tax_of, itemise, all_rows, fee_gst_itemised}
use untangle.Fixtures.{twins, covering, tallied}

abbrev recovery : FeeGstRecovery
recovery = record {
  total_recoverable_paise = pos 6;
  by_entity = ("pay_1", pos 3) ∷ ("pay_1", pos 3) ∷ [];
}

twins_itemised : fee_gst tallied (covering ∷ []) twins ≡ ok recovery
unfolding fee_gst rows_of rows_by_canonical_id signature_eq row_signature add_rows add_row ◌+ℤ◌
twins_itemised = refl

fee_gst_itemised_example :
    (rows : List (Option Row)) × (all_rows
        (rows_by_canonical_id tallied twins)
        (rows_by_entity [] twins)
        (covering ∷ [])
      ≡ ok rows)
    × (recovery.by_entity ≡ itemise rows)
    × (recovery.total_recoverable_paise ≡ sum (map tax_of rows))
    × (recovery.total_recoverable_paise ≡ sum (map amount recovery.by_entity))
fee_gst_itemised_example = fee_gst_itemised tallied (covering ∷ []) twins recovery twins_itemised

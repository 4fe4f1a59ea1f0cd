-- ===== src/Ledger/Tests.antt =====
-- The ledger check at a settlement of one payment and three ledgers.
use untangle.Base.{◌≡◌, refl, inl, String, none, some, List, [], ◌∷◌, In}
use untangle.Base.Int.{pos}
use untangle.Models.{ReconRow, OrderLedgerEntry}
use untangle.Ledger.{
  rows_at, discrepancies, proven_slice, ReasonCode, LedgerException, reconcile_ledger,
}
use untangle.Ledger.Reports.{IsSettled, reconcile_ledger-IsSettled}
use untangle.Ledger.Recall.{duplicates_abstain, reconcile_ledger_reports}
use untangle.Fixtures.{payment, covering, unchanged}

abbrev one_row : List ReconRow
one_row = payment "pay_1" "setl_a" ∷ []

abbrev booking : String → OrderLedgerEntry
booking oid = record {
  order_id = some oid;
  amount_paise = pos 1000;
  status = "paid";
  created_at = none;
}

order_1-IsSettled : IsSettled (covering ∷ []) one_row "order_1"
unfolding rows_at
order_1-IsSettled = record {
  row = payment "pay_1" "setl_a";
  payment = refl;
  order = refl;
  key = ("payment", "pay_1");
  covered = (covering, inl refl, refl, inl refl);
  alone = refl;
}

reconcile_ledger_reports_example :
    (x : LedgerException) × In x
      (reconcile_ledger unchanged (booking "order_9" ∷ []) (covering ∷ []) one_row)
    × (x.reason_code ≡ ReasonCode.ledger_mismatch)
    × In "order_1" x.affected
reconcile_ledger_reports_example =
    reconcile_ledger_reports unchanged (booking "order_9") [] (covering ∷ []) one_row "order_1"
      order_1-IsSettled refl

-- The ledger that books another order.
other_named :
    In
      (record { reason_code = ReasonCode.ledger_mismatch; affected = "order_1" ∷ [] })
      (reconcile_ledger unchanged (booking "order_9" ∷ []) (covering ∷ []) one_row)
unfolding reconcile_ledger rows_at
other_named = inl refl

reconcile_ledger-IsSettled_example : IsSettled (covering ∷ []) one_row "order_1"
reconcile_ledger-IsSettled_example =
    reconcile_ledger-IsSettled unchanged (booking "order_9" ∷ []) (covering ∷ []) one_row
      (record { reason_code = ReasonCode.ledger_mismatch; affected = "order_1" ∷ [] }) "order_1"
      other_named (inl refl)

abbrev twice_booked : List OrderLedgerEntry
twice_booked = booking "order_1" ∷ booking "order_1" ∷ []

order_1_twice :
    In "order_1"
      (discrepancies unchanged (proven_slice twice_booked (covering ∷ []) one_row)).duplicates
unfolding discrepancies proven_slice rows_at
order_1_twice = inl refl

duplicates_abstain_example :
    let d = discrepancies unchanged (proven_slice twice_booked (covering ∷ []) one_row) in
    (¬ In "order_1" d.missing_from_ledger)
    × (¬ In "order_1" d.status_conflicts)
    × (¬ In "order_1" d.amount_conflicts)
    × (¬ In "order_1" d.refund_unbooked)
duplicates_abstain_example =
    duplicates_abstain unchanged (proven_slice twice_booked (covering ∷ []) one_row) "order_1"
      order_1_twice

-- ===== src/Journal/Tests.antt =====
-- The journal at concrete inputs.
use untangle.Base.{◌≡◌, refl, inl, inr, ◌⊎◌, String, true, some, List, [], ◌∷◌, All}
use untangle.Base.Int.{pos, ◌+ℤ◌, ◌-ℤ◌}
use untangle.Base.Flow.{ok, err}
use untangle.Models.{ReconciliationResult}
use untangle.Covered.{
  Row, CoverageError, row_signature, signature_eq, resolve_covered_rows_by_id, rows_by_canonical_id,
}
use untangle.Journal.{
  JournalLine, JournalEntry, coverage, debit, credit, amounts, gross_of, build_journal_entries,
  total_debit_paise, total_credit_paise,
}
use untangle.Journal.Balance.{IsVoucher, build_journal_entries_balanced}
use untangle.Journal.Waterfall.{gross_of-amounts}
use untangle.Fixtures.{twins, covering, tallied}

abbrev silent : List String → List String → ReconciliationResult → List Row → String
silent sids utrs rec covered = ""

build_journal_entries_balanced_example :
    ((entries : List JournalEntry) × (build_journal_entries tallied silent true
          (covering ∷ [])
          twins
        ≡ ok entries)
      × All IsVoucher entries)
    ⊎ ((e : CoverageError) × (build_journal_entries tallied silent true (covering ∷ []) twins
          ≡ err (coverage e)))
build_journal_entries_balanced_example =
    build_journal_entries_balanced tallied silent true (covering ∷ []) twins

-- The voucher of the twins.
abbrev twin_lines : List JournalLine
twin_lines =
    debit "Bank Current A/c" (pos 1960)
    ∷ debit "Payment Gateway Charges" (pos 34)
    ∷ debit "Input CGST" (pos 3)
    ∷ debit "Input SGST" (pos 3)
    ∷ credit "Razorpay Clearing A/c" (pos 2000)
    ∷ []

abbrev twin_entry : JournalEntry
twin_entry = record {
  ref = "setl_a";
  date = some 738000;
  utr = "1234567890abcdef";
  narration = "";
  lines = twin_lines;
}

twins_booked :
    build_journal_entries tallied silent true (covering ∷ []) twins ≡ ok (twin_entry ∷ [])
unfolding build_journal_entries resolve_covered_rows_by_id rows_by_canonical_id signature_eq
    row_signature ◌+ℤ◌ ◌-ℤ◌
twins_booked = refl

twin_entry-IsVoucher : IsVoucher twin_entry
unfolding total_debit_paise total_credit_paise ◌+ℤ◌
twin_entry-IsVoucher = record {
  equal = refl;
  one_sided = (inr refl, (inr refl, (inr refl, (inr refl, (inl refl, tt)))));
}

gross_of-amounts_example : gross_of covering twins ≡ amounts twins
unfolding ◌+ℤ◌ ◌-ℤ◌
gross_of-amounts_example =
    gross_of-amounts covering twins
      (inl (
        record { payment = refl; no_debit = refl; credited = refl },
        (record { payment = refl; no_debit = refl; credited = refl }, tt),
      ))
      refl

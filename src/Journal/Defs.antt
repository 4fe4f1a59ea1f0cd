-- ===== src/Journal/Defs.antt =====
-- engine/journal.py: `build_journal_entries` and the vouchers of `to_tally_xml`. The text of a
-- narration is a parameter: it is made of amounts printed by float division.
use untangle.Base.{
  ℕ, suc, ◌/◌, leb, ◌==◌, String, Bool, true, false, ◌&&◌, ◌||◌, not, Option, none, some, List, [],
  ◌∷◌, ◌++◌, map, filter, length, if◌then◌else◌,
}
use untangle.Base.Int.{ℤ, pos, negsuc, abs, sum, ◌+ℤ◌, ◌-ℤ◌, ltb_ℤ, ◌==ℤ◌}
use untangle.Base.Keys.{Dict, ◌=?◌, lookup, insert, to_set, pair_eq, string_eq, int_eq}
use untangle.Base.Flow.{Result, ok, err, ◌>>=◌}
use untangle.Models.{Datetime, before, truthy, ReconRow, ReconciliationResult}
use untangle.Covered.{
  Row, Signature, CoverageError, entity_key, rows_by_canonical_id, resolve_covered_rows_by_id,
}
use untangle.Subsets.{text_le}

pub record JournalLine : Type 0 where
  pub ledger : String
  pub debit_paise : ℤ
  pub credit_paise : ℤ

-- `date` is the ordinal of the day; `none` is the empty text.
pub record JournalEntry : Type 0 where
  pub ref : String
  pub date : Option ℕ
  pub utr : String
  pub narration : String
  pub lines : List JournalLine

unfoldable pub total_debit_paise : List JournalLine → ℤ
total_debit_paise lines = sum (map (λ (l : JournalLine). l.debit_paise) lines)

unfoldable pub total_credit_paise : List JournalLine → ℤ
total_credit_paise lines = sum (map (λ (l : JournalLine). l.credit_paise) lines)

unfoldable pub balanced : JournalEntry → Bool
unfolding total_debit_paise total_credit_paise
balanced e = total_debit_paise e.lines ==ℤ total_credit_paise e.lines

abbrev pub debit : String → ℤ → JournalLine
debit ledger paise = record { ledger = ledger; debit_paise = paise; credit_paise = pos 0 }

abbrev pub credit : String → ℤ → JournalLine
credit ledger paise = record { ledger = ledger; debit_paise = pos 0; credit_paise = paise }

-- `if x` for an integer: it is not zero.
abbrev pub nonzero : ℤ → Bool
nonzero x = not (x ==ℤ pos 0)

-- `x // 2`, rounded down.
abbrev pub half : ℤ → ℤ
half (pos n) = pos (n / 2)
half (negsuc n) = negsuc (n / 2)

abbrev pub amounts : List Row → ℤ
amounts rows = sum (map (λ (r : Row). r.row.amount_paise) rows)

abbrev pub fees : List Row → ℤ
fees rows = sum (map (λ (r : Row). r.row.fee_paise) rows)

abbrev pub taxes : List Row → ℤ
taxes rows = sum (map (λ (r : Row). r.row.tax_paise) rows)

abbrev pub credits : List Row → ℤ
credits rows = sum (map (λ (r : Row). r.row.credit_paise) rows)

abbrev pub is_charged_payment : Row → Bool
is_charged_payment r =
    (r.row.kind =? "payment") && (nonzero r.row.fee_paise || nonzero r.row.tax_paise)

-- Without such payments both errors are zero, which gives the default `True` of the code.
unfoldable pub tax_inside_fee : List Row → Bool
tax_inside_fee covered =
    let pays = filter is_charged_payment covered in
    if length pays == 0
    then true
    else leb (abs (credits pays -ℤ (amounts pays -ℤ fees pays)))
        (abs (credits pays -ℤ (amounts pays -ℤ fees pays -ℤ taxes pays)))

-- `rows_by_key[(r.type, r.entity_id)].append(r)`
abbrev pub bucket : Dict (String × String) (List Row) → String × String → List Row
bucket d k = elim (lookup k d) [ none ↦ [] | some rows ↦ rows ]

unfoldable pub index_buckets :
    Dict (String × String) (List Row) → List Row → Dict (String × String) (List Row)
index_buckets d [] = d
index_buckets d (r ∷ rs) =
    index_buckets (insert (entity_key r) (bucket d (entity_key r) ++ r ∷ []) d) rs

abbrev pub count_of : (String × String) → List (String × String) → ℕ
count_of k [] = 0
count_of k (j ∷ js) = let rest = count_of k js in if k =? j then suc rest else rest

abbrev pub row_at_index : List Row → ℕ → List Row
row_at_index [] i = []
row_at_index (r ∷ rs) i = elim i [ ℕ.zero ↦ r ∷ [] | ℕ.suc j ↦ row_at_index rs j ]

-- The legacy path: `seen` holds the keys that were met, so `seen[k]` is how often `k` is among them.
unfoldable pub legacy_covered :
    Dict (String × String) (List Row) → List (String × String) → List (String × String) → List Row
legacy_covered rows_by_key seen [] = []
legacy_covered rows_by_key seen (k ∷ ks) =
    row_at_index (bucket rows_by_key k) (count_of k seen)
    ++ legacy_covered rows_by_key (k ∷ seen) ks

unfoldable pub covered_by :
    Dict String Row
    → Dict (String × String) (List Row)
    → ReconciliationResult
    → Result CoverageError (List Row)
unfolding legacy_covered
covered_by rows_by_id rows_by_key rec = elim rec.covered_row_ids [
  | [] ↦ ok (legacy_covered rows_by_key [] rec.covered_entity_ids)
  | _ ∷ _ ↦ resolve_covered_rows_by_id rec rows_by_id
]

-- `if drift > 0 ... elif drift < 0 ...`
abbrev pub rounding_lines : ℤ → List JournalLine
rounding_lines drift =
    if ltb_ℤ (pos 0) drift
    then credit "Bank Charges & Rounding" drift ∷ []
    else if ltb_ℤ drift (pos 0)
    then debit "Bank Charges & Rounding" (pos 0 -ℤ drift) ∷ []
    else []

abbrev pub mdr_lines : ℤ → List JournalLine
mdr_lines mdr = if nonzero mdr then debit "Payment Gateway Charges" mdr ∷ [] else []

abbrev pub itc_lines : Bool → ℤ → List JournalLine
itc_lines intra_state itc =
    if nonzero itc
    then (if intra_state
        then debit "Input CGST" (half itc) ∷ debit "Input SGST" (itc -ℤ half itc) ∷ []
        else debit "Input IGST" itc ∷ [])
    else []

abbrev pub mdr_ex_gst : List Row → ℤ
mdr_ex_gst covered = if tax_inside_fee covered then fees covered -ℤ taxes covered else fees covered

-- `gross`
abbrev pub gross_of : ReconciliationResult → List Row → ℤ
gross_of rec covered = rec.covered_net_paise +ℤ mdr_ex_gst covered +ℤ taxes covered

unfoldable pub voucher_lines : Bool → ReconciliationResult → List Row → List JournalLine
unfolding tax_inside_fee
voucher_lines intra_state rec covered =
    (debit "Bank Current A/c" rec.credit_amount_paise
      ∷ rounding_lines (rec.credit_amount_paise -ℤ rec.covered_net_paise))
    ++ (mdr_lines (mdr_ex_gst covered)
        ++ (itc_lines intra_state (taxes covered)
            ++ credit "Razorpay Clearing A/c" (gross_of rec covered) ∷ []))

-- `{x for r in covered if x}` for an optional text of the rows, sorted.
unfoldable pub insert_text : String → List String → List String
insert_text s [] = s ∷ []
insert_text s (t ∷ ts) = let rest = insert_text s ts in if text_le s t then s ∷ t ∷ ts else t ∷ rest

unfoldable pub sort_texts : List String → List String
unfolding insert_text
sort_texts [] = []
sort_texts (s ∷ ss) = insert_text s (sort_texts ss)

unfoldable pub texts_of : (ReconRow → Option String) → List Row → List String
texts_of field [] = []
texts_of field (r ∷ rs) = elim (field r.row) [
  | none ↦ texts_of field rs
  | some s ↦ if truthy (some s) then s ∷ texts_of field rs else texts_of field rs
]

abbrev pub sorted_set : (ReconRow → Option String) → List Row → List String
sorted_set field covered = sort_texts (to_set (texts_of field covered))

-- `min(..., default=None)` over the datetimes that are there.
unfoldable pub earliest_of : (ReconRow → Option Datetime) → List Row → Option Datetime
earliest_of field [] = none
earliest_of field (r ∷ rs) =
    let rest = earliest_of field rs in
    elim (field r.row) [
      | none ↦ rest
      | some t ↦ elim rest [ none ↦ some t | some u ↦ if before u t then some u else some t ]
    ]

abbrev pub voucher_day : List Row → Option ℕ
voucher_day covered = elim (earliest_of (λ r. r.settled_at) covered) [
  | some t ↦ some t.day
  | none ↦ elim (earliest_of (λ r. r.created_at) covered) [ none ↦ none | some t ↦ some t.day ]
]

abbrev pub first_or : String → List String → String
first_or default [] = default
first_or default (s ∷ ss) = s

-- The errors of `build_journal_entries`: of the resolution, and of its assertion.
pub data JournalError : Type 0 where
  coverage : CoverageError → JournalError
  unbalanced : JournalError

abbrev pub or_coverage_error {ℓ} : {A : Type ℓ} → Result CoverageError A → Result JournalError A
or_coverage_error (ok a) = ok a
or_coverage_error (err e) = err (coverage e)

-- The order of `sorted(reconciliations, key=lambda x: x.line_key)`, which keeps equal keys in place.
unfoldable pub insert_by_line :
    ReconciliationResult → List ReconciliationResult → List ReconciliationResult
insert_by_line r [] = r ∷ []
insert_by_line r (q ∷ qs) =
    let rest = insert_by_line r qs in if text_le r.line_key q.line_key then r ∷ q ∷ qs else q ∷ rest

unfoldable pub sort_by_line : List ReconciliationResult → List ReconciliationResult
unfolding insert_by_line
sort_by_line [] = []
sort_by_line (r ∷ rs) = insert_by_line r (sort_by_line rs)

module _ (fingerprint : Signature → ℕ → String)
    (narrate : List String → List String → ReconciliationResult → List Row → String)
    (intra_state : Bool) where
  -- The voucher of one reconciliation; `sids` falls back to the key of the line.
  unfoldable pub make_entry : ReconciliationResult → List Row → JournalEntry
  unfolding voucher_lines sort_texts texts_of earliest_of
  make_entry rec covered =
      let sids = sorted_set (λ r. r.settlement_id) covered in
      let utrs = sorted_set (λ r. r.settlement_utr) covered in
      record {
        ref = first_or rec.line_key sids;
        date = voucher_day covered;
        utr = first_or "" utrs;
        narration = narrate sids utrs rec covered;
        lines = voucher_lines intra_state rec covered;
      }

  -- `if not covered: continue`, and the assertion before the voucher is kept.
  unfoldable pub add_entry :
      List JournalEntry → ReconciliationResult → List Row → Result JournalError (List JournalEntry)
  unfolding make_entry balanced
  add_entry entries rec [] = ok entries
  add_entry entries rec (r ∷ rs) =
      let entry = make_entry rec (r ∷ rs) in
      if balanced entry then ok (entries ++ entry ∷ []) else err unbalanced

  unfoldable pub build_from :
      Dict String Row
      → Dict (String × String) (List Row)
      → List JournalEntry
      → List ReconciliationResult
      → Result JournalError (List JournalEntry)
  unfolding add_entry covered_by
  build_from rows_by_id rows_by_key entries [] = ok entries
  build_from rows_by_id rows_by_key entries (rec ∷ recs) = do
    covered ← or_coverage_error (covered_by rows_by_id rows_by_key rec)
    entries' ← add_entry entries rec covered
    build_from rows_by_id rows_by_key entries' recs

  unfoldable pub build_journal_entries :
      List ReconciliationResult → List Row → Result JournalError (List JournalEntry)
  unfolding build_from sort_by_line index_buckets
  build_journal_entries reconciliations recon_rows =
      build_from (rows_by_canonical_id fingerprint recon_rows) (index_buckets [] recon_rows) []
        (sort_by_line reconciliations)

-- A line of `to_tally_xml`: the ledger, ISDEEMEDPOSITIVE and AMOUNT, here in paise.
pub record TallyLine : Type 0 where
  pub ledger : String
  pub deemed_positive : Bool
  pub amount : ℤ

unfoldable pub tally_line : JournalLine → TallyLine
tally_line l =
    if nonzero l.debit_paise
    then record { ledger = l.ledger; deemed_positive = true; amount = pos 0 -ℤ l.debit_paise }
    else record { ledger = l.ledger; deemed_positive = false; amount = l.credit_paise }

pub record TallyVoucher : Type 0 where
  pub ref : String
  pub day : ℕ
  pub lines : List TallyLine

-- A voucher without a date is left out.
unfoldable pub tally_vouchers : List JournalEntry → List TallyVoucher
unfolding tally_line
tally_vouchers [] = []
tally_vouchers (e ∷ es) = elim e.date [
  | none ↦ tally_vouchers es
  | some day ↦ record { ref = e.ref; day = day; lines = map tally_line e.lines } ∷ tally_vouchers es
]

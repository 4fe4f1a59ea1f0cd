-- ===== src/Ledger/Defs.antt =====
-- engine/ledger.py: `reconcile_ledger`. `norm` is `_norm` (strip and lower-case), a parameter. The
-- source goes through sets, whose order it does not rely on (every list of ids is sorted before it is
-- printed); here a set is in order of insertion. The texts of the exceptions are left out: an
-- exception is its class with the complete set of affected orders.
use untangle.Base.{
  ℕ, ltb, ◌==◌, String, Bool, false, ◌&&◌, ◌||◌, not, Option, none, some, List, [], ◌∷◌, ◌++◌,
  filter, length, if◌then◌else◌,
}
use untangle.Base.Int.{ℤ, pos, abs, ◌+ℤ◌, ◌-ℤ◌}
use untangle.Base.Keys.{Dict, ◌=?◌, lookup, insert, keys, add, contains, pair_eq, string_eq}
use untangle.Models.{truthy, ReconRow, OrderLedgerEntry, ReconciliationResult}

abbrev pub paid_statuses : List String
paid_statuses = "paid" ∷ "captured" ∷ "settled" ∷ "success" ∷ "completed" ∷ []

abbrev pub refund_statuses : List String
refund_statuses = "refunded" ∷ "reversed" ∷ "chargeback" ∷ "disputed" ∷ "partially_refunded" ∷ []

abbrev pub ledger_tolerance : ℕ
ledger_tolerance = 100

abbrev pub Key : Type 0
Key = String × String

abbrev pub key_of : ReconRow → Key
key_of r = (r.kind, r.entity_id)

abbrev pub text_or_empty : Option String → String
text_or_empty none = ""
text_or_empty (some s) = s

-- `rows_by_te.get(k, [])`, of the dict that `_rows_by_te` is.
unfoldable pub rows_at : Key → List ReconRow → List ReconRow
rows_at k rows = filter (λ r. key_of r =? k) rows

-- `row_by_te.get(k)`: the row of a key that has exactly one.
abbrev pub only : List ReconRow → Option ReconRow
only [] = none
only (r ∷ []) = some r
only (_ ∷ _ ∷ _) = none

unfoldable pub row_by_te : List ReconRow → Key → Option ReconRow
unfolding rows_at
row_by_te rows k = only (rows_at k rows)

abbrev pub add_keys : List Key → List Key → List Key
add_keys [] acc = acc
add_keys (k ∷ ks) acc = add_keys ks (add k acc)

-- `covered_keys`
unfoldable pub covered_keys : List Key → List ReconciliationResult → List Key
covered_keys acc [] = acc
covered_keys acc (rec ∷ recs) =
    covered_keys (if rec.balanced then add_keys rec.covered_entity_ids acc else acc) recs

-- `[row_by_te[k] for k in covered_keys if k in row_by_te]`
unfoldable pub covered_rows_of : List ReconRow → List Key → List ReconRow
unfolding row_by_te
covered_rows_of rows [] = []
covered_rows_of rows (k ∷ ks) = elim (row_by_te rows k) [
  | none ↦ covered_rows_of rows ks
  | some r ↦ r ∷ covered_rows_of rows ks
]

abbrev pub order_of_row : ReconRow → String
order_of_row r = text_or_empty r.order_id

-- `row.order_id and row.type == "payment"`
abbrev pub is_payment : ReconRow → Bool
is_payment r = truthy r.order_id && (r.kind =? "payment")

-- `settled_order_ids`
unfoldable pub settled_ids : List String → List ReconRow → List String
settled_ids acc [] = acc
settled_ids acc (r ∷ rs) = settled_ids (if is_payment r then add (order_of_row r) acc else acc) rs

abbrev pub or_zero_paise : Option ℤ → ℤ
or_zero_paise none = pos 0
or_zero_paise (some n) = n

-- `settled_payment_amount`
unfoldable pub settled_amounts : Dict String ℤ → List ReconRow → Dict String ℤ
settled_amounts d [] = d
settled_amounts d (r ∷ rs) =
    settled_amounts
      (if is_payment r
        then insert (order_of_row r) (or_zero_paise (lookup (order_of_row r) d) +ℤ r.amount_paise) d
        else d)
      rs

-- `row.order_id and (row.type == "refund" or row.dispute_id) and row.order_id in settled_order_ids`
abbrev pub is_refund_row : List String → ReconRow → Bool
is_refund_row settled r =
    truthy r.order_id
    && (((r.kind =? "refund") || truthy r.dispute_id) && contains (order_of_row r) settled)

unfoldable pub refund_ids : List String → List String → List ReconRow → List String
refund_ids settled acc [] = acc
refund_ids settled acc (r ∷ rs) =
    refund_ids settled (if is_refund_row settled r then add (order_of_row r) acc else acc) rs

abbrev pub bookings : Dict String (List OrderLedgerEntry) → String → List OrderLedgerEntry
bookings d oid = elim (lookup oid d) [ none ↦ [] | some es ↦ es ]

-- `ledger_by_order`
unfoldable pub index_ledger :
    Dict String (List OrderLedgerEntry)
    → List OrderLedgerEntry
    → Dict String (List OrderLedgerEntry)
index_ledger d [] = d
index_ledger d (e ∷ es) =
    index_ledger
      (if truthy e.order_id
        then insert (text_or_empty e.order_id) (bookings d (text_or_empty e.order_id) ++ e ∷ []) d
        else d)
      es

-- What the checks look at.
pub record Slice : Type 0 where
  pub settled : List String
  pub settled_amount : Dict String ℤ
  pub refunded : List String
  pub booked : Dict String (List OrderLedgerEntry)

module _ (norm : String → String) where
  abbrev pub is_paid : String → Bool
  is_paid status = contains (norm status) paid_statuses

  abbrev pub is_refund : String → Bool
  is_refund status = contains (norm status) refund_statuses

  module _ (s : Slice) where
    abbrev pub is_missing : String → Bool
    is_missing oid = length (bookings s.booked oid) == 0

    abbrev pub status_ok : String → OrderLedgerEntry → Bool
    status_ok oid e = is_paid e.status || (is_refund e.status && contains oid s.refunded)

    -- The checks on the one booking of an order.
    abbrev pub status_conflict : String → List OrderLedgerEntry → Bool
    status_conflict oid [] = false
    status_conflict oid (e ∷ []) = not (status_ok oid e)
    status_conflict oid (_ ∷ _ ∷ _) = false

    abbrev pub amount_off : Option ℤ → OrderLedgerEntry → Bool
    amount_off none e = false
    amount_off (some n) e = ltb ledger_tolerance (abs (e.amount_paise -ℤ n))

    abbrev pub amount_conflict : String → List OrderLedgerEntry → Bool
    amount_conflict oid [] = false
    amount_conflict oid (e ∷ []) = amount_off (lookup oid s.settled_amount) e
    amount_conflict oid (_ ∷ _ ∷ _) = false

    abbrev pub refund_missing : List OrderLedgerEntry → Bool
    refund_missing [] = false
    refund_missing (e ∷ []) = is_paid e.status && not (is_refund e.status)
    refund_missing (_ ∷ _ ∷ _) = false

    abbrev pub is_double : String → Bool
    is_double oid = ltb 1 (length (bookings s.booked oid)) && contains oid s.settled

pub record Discrepancies : Type 0 where
  pub missing_from_ledger : List String
  pub status_conflicts : List String
  pub amount_conflicts : List String
  pub duplicates : List String
  pub refund_unbooked : List String

unfoldable pub discrepancies : (String → String) → Slice → Discrepancies
discrepancies norm s = record {
  missing_from_ledger = filter (is_missing norm s) s.settled;
  status_conflicts = filter (λ oid. status_conflict norm s oid (bookings s.booked oid)) s.settled;
  amount_conflicts = filter (λ oid. amount_conflict norm s oid (bookings s.booked oid)) s.settled;
  duplicates = filter (is_double norm s) (keys s.booked);
  refund_unbooked = filter (λ oid. refund_missing norm s (bookings s.booked oid)) s.refunded;
}

unfoldable pub proven_slice :
    List OrderLedgerEntry → List ReconciliationResult → List ReconRow → Slice
unfolding covered_rows_of covered_keys settled_ids settled_amounts refund_ids index_ledger
proven_slice ledger reconciliations recon_rows =
    let rows = covered_rows_of recon_rows (covered_keys [] reconciliations) in
    let settled = settled_ids [] rows in
    record {
      settled = settled;
      settled_amount = settled_amounts [] rows;
      refunded = refund_ids settled [] rows;
      booked = index_ledger [] ledger;
    }

pub data ReasonCode : Type 0 where
  ledger_mismatch duplicate_order_booking refund_not_reflected : ReasonCode

-- An exception with its complete set of affected orders.
pub record LedgerException : Type 0 where
  pub reason_code : ReasonCode
  pub affected : List String

abbrev pub add_all : List String → List String → List String
add_all [] acc = acc
add_all (x ∷ xs) acc = add_all xs (add x acc)

abbrev pub unless_empty : ReasonCode → List String → List LedgerException
unless_empty code [] = []
unless_empty code (x ∷ xs) = record { reason_code = code; affected = x ∷ xs } ∷ []

unfoldable pub emit : Discrepancies → List LedgerException
emit d =
    unless_empty ReasonCode.ledger_mismatch
      (add_all d.amount_conflicts (add_all d.status_conflicts (add_all d.missing_from_ledger [])))
    ++ (unless_empty ReasonCode.duplicate_order_booking d.duplicates
        ++ unless_empty ReasonCode.refund_not_reflected d.refund_unbooked)

unfoldable pub reconcile_ledger :
    (String → String)
    → List OrderLedgerEntry
    → List ReconciliationResult
    → List ReconRow
    → List LedgerException
unfolding discrepancies proven_slice emit
reconcile_ledger norm [] reconciliations recon_rows = []
reconcile_ledger norm (e ∷ es) reconciliations recon_rows =
    emit (discrepancies norm (proven_slice (e ∷ es) reconciliations recon_rows))

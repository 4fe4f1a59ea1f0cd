-- ===== src/Ledger/Reports.antt =====
-- The guarantees of the ledger check: it only names settled orders, it is silent about an order that
-- is booked twice but for that, and a settled order without a booking is reported.
use mathlib.Core.Path.{subst}
use untangle.Base.{
  ◌≡◌, ap, inl, inr, ◌⊎◌, ◌↔◌, String, true, Bool-cases, List, [], ◌∷◌, In, In-of_filter,
  In-append_cases, arith,
}
use untangle.Base.Keys.{keys, add, contains-In, pair_eq, string_eq}
use untangle.Base.Dicts.{In-add, In-of_add}
use untangle.Models.{ReconRow, OrderLedgerEntry, ReconciliationResult}
use untangle.Ledger.Defs.{
  Key, rows_at, covered_keys, covered_rows_of, order_of_row, is_payment, settled_ids, is_refund_row,
  refund_ids, Slice, is_double, Discrepancies, discrepancies, proven_slice, ReasonCode,
  LedgerException, add_all, unless_empty, emit, reconcile_ledger,
}
use untangle.Ledger.Classes.{Covered, covered_keys_iff, covered_rows_of_iff, settled_ids_iff}

-- The money of the order has provably arrived: a payment of it stands in the report, alone under its
-- key, and a balanced reconciliation covers that key.
pub record IsSettled (recs : List ReconciliationResult) (rows : List ReconRow) (oid : String)
    : Type 0 where
  pub row : ReconRow
  pub payment : is_payment row ≡ true
  pub order : order_of_row row ≡ oid
  pub key : Key
  pub covered : Covered recs key
  pub alone : rows_at key rows ≡ row ∷ []

module _ (ledger : List OrderLedgerEntry) (recs : List ReconciliationResult)
    (rows : List ReconRow) where
  -- The settled orders are those that have such a payment.
  pub proven_slice-settled :
      (oid : String) → In oid (proven_slice ledger recs rows).settled ↔ IsSettled recs rows oid
  unfolding proven_slice
  proven_slice-settled oid =
      let covered = covered_keys [] recs in
      let ids = settled_ids_iff oid [] (covered_rows_of rows covered) in
      (
        λ m. elim (ids.0 m) [
          | inl z ↦ absurd z
          | inr (r, n, p, e) ↦
              let (k, i, alone) = (covered_rows_of_iff rows covered r).0 n in
              elim ((covered_keys_iff k [] recs).0 i) [
                | inl z ↦ absurd z
                | inr c ↦ record {
                  row = r;
                  payment = p;
                  order = e;
                  key = k;
                  covered = c;
                  alone = alone;
                }
              ]
        ],
        λ s. ids.1 (
            inr (
              s.row,
              (covered_rows_of_iff rows covered s.row).1
                  (s.key, (covered_keys_iff s.key [] recs).1 (inr s.covered), s.alone),
              s.payment,
              s.order,
            )),
      )

refund_ids-settled :
    (oid : String) (settled acc : List String) (rs : List ReconRow)
    → In oid (refund_ids settled acc rs)
    → In oid acc ⊎ In oid settled
unfolding refund_ids
refund_ids-settled oid settled acc [] m = inl m
refund_ids-settled oid settled acc (r ∷ rs) m = elim (Bool-cases (is_refund_row settled r)) [
  | inl t ↦ elim (refund_ids-settled oid settled (add (order_of_row r) acc) rs (rw t at m)) [
    | inl l ↦ elim (In-of_add oid (order_of_row r) acc l) [
      | inl old ↦ inl old
      | inr e ↦ inr (rw e (contains-In (order_of_row r) settled (ground arith)))
    ]
    | inr n ↦ inr n
  ]
  | inr f ↦ refund_ids-settled oid settled acc rs (rw f at m)
]

refunded_settled :
    (ledger : List OrderLedgerEntry) (recs : List ReconciliationResult) (rows : List ReconRow)
    (oid : String)
    → In oid (proven_slice ledger recs rows).refunded
    → In oid (proven_slice ledger recs rows).settled
unfolding proven_slice
refunded_settled ledger recs rows oid m =
    elim (refund_ids-settled oid (settled_ids [] (covered_rows_of rows (covered_keys [] recs))) []
      (covered_rows_of rows (covered_keys [] recs)) m) [ inl z ↦ absurd z | inr n ↦ n ]

-- An order of one of the five classes.
abbrev pub Named : Discrepancies → String → Type 0
Named d oid =
    In oid d.missing_from_ledger
    ⊎ (In oid d.status_conflicts
        ⊎ (In oid d.amount_conflicts ⊎ (In oid d.duplicates ⊎ In oid d.refund_unbooked)))

Named-settled :
    (norm : String → String) (s : Slice) (oid : String)
    → ((k : String) → In k s.refunded → In k s.settled)
    → Named (discrepancies norm s) oid
    → In oid s.settled
unfolding discrepancies
Named-settled norm s oid refunds (inl m) = (In-of_filter _ oid s.settled m).0
Named-settled norm s oid refunds (inr (inl m)) = (In-of_filter _ oid s.settled m).0
Named-settled norm s oid refunds (inr (inr (inl m))) = (In-of_filter _ oid s.settled m).0
Named-settled norm s oid refunds (inr (inr (inr (inl m)))) =
    contains-In oid s.settled
      (ground (arith, (In-of_filter (is_double norm s) oid (keys s.booked) m).1))
Named-settled norm s oid refunds (inr (inr (inr (inr m)))) =
    refunds oid (In-of_filter _ oid s.refunded m).0

pub In-add_all : (a : String) (ys xs : List String) → In a (add_all ys xs) ↔ (In a xs ⊎ In a ys)
In-add_all a [] xs = (λ m. inl m, λ h. elim h [ inl m ↦ m | inr z ↦ absurd z ])
In-add_all a (y ∷ ys) xs = (
  λ m. elim ((In-add_all a ys (add y xs)).0 m) [
    | inl l ↦ elim (In-of_add a y xs l) [ inl k ↦ inl k | inr e ↦ inr (inl e) ]
    | inr r ↦ inr (inr r)
  ],
  λ h. (In-add_all a ys (add y xs)).1 (elim h [
    | inl l ↦ inl (In-add a y xs (inl l))
    | inr r ↦ elim r [ inl e ↦ inl (In-add a y xs (inr e)) | inr m ↦ inr m ]
  ]),
)

In-unless_empty :
    (code : ReasonCode) (ids : List String) (x : LedgerException)
    → In x (unless_empty code ids)
    → x.affected ≡ ids
In-unless_empty code [] x m = absurd m
In-unless_empty code (i ∷ is) x (inl e) = ap (λ (y : LedgerException). y.affected) e
In-unless_empty code (i ∷ is) x (inr m) = absurd m

emit-Named :
    (d : Discrepancies) (x : LedgerException) (oid : String)
    → In x (emit d)
    → In oid x.affected
    → Named d oid
unfolding emit
emit-Named d x oid m n =
    let mismatched =
      add_all d.amount_conflicts (add_all d.status_conflicts (add_all d.missing_from_ledger [])) in
    elim (In-append_cases x (unless_empty ReasonCode.ledger_mismatch mismatched) _ m) [
      | inl first ↦
          let e = In-unless_empty ReasonCode.ledger_mismatch mismatched x first in
          elim ((In-add_all oid d.amount_conflicts _).0 (subst (λ l. In oid l) e n)) [
            | inl l ↦ elim ((In-add_all oid d.status_conflicts _).0 l) [
              | inl k ↦ elim ((In-add_all oid d.missing_from_ledger []).0 k) [
                | inl z ↦ absurd z
                | inr i ↦ inl i
              ]
              | inr i ↦ inr (inl i)
            ]
            | inr i ↦ inr (inr (inl i))
          ]
      | inr rest ↦
          elim (In-append_cases x (unless_empty ReasonCode.duplicate_order_booking d.duplicates) _
            rest) [
              | inl second ↦ inr (
                  inr (
                    inr (
                      inl (
                        subst (λ l. In oid l)
                          (In-unless_empty ReasonCode.duplicate_order_booking d.duplicates x second)
                          n))))
              | inr third ↦ inr (
                  inr (
                    inr (
                      inr (
                        subst (λ l. In oid l)
                          (In-unless_empty ReasonCode.refund_not_reflected d.refund_unbooked x
                            third)
                          n))))
            ]
    ]

-- Every order that an exception names is settled: the check never accuses an order whose payment is
-- not covered by a balanced reconciliation, or whose row is not the only one of its key.
pub reconcile_ledger-IsSettled :
    (norm : String → String) (ledger : List OrderLedgerEntry) (recs : List ReconciliationResult)
    (rows : List ReconRow) (x : LedgerException) (oid : String)
    → In x (reconcile_ledger norm ledger recs rows)
    → In oid x.affected
    → IsSettled recs rows oid
unfolding reconcile_ledger
reconcile_ledger-IsSettled norm [] recs rows x oid m n = absurd m
reconcile_ledger-IsSettled norm (e ∷ es) recs rows x oid m n =
    (proven_slice-settled (e ∷ es) recs rows oid).0 (
      Named-settled norm (proven_slice (e ∷ es) recs rows) oid (refunded_settled (e ∷ es) recs rows)
        (emit-Named (discrepancies norm (proven_slice (e ∷ es) recs rows)) x oid m n))

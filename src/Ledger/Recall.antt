-- ===== src/Ledger/Recall.antt =====
-- What the ledger check must report, and what it leaves alone.
use mathlib.Core.List.{append-nil, append_assoc}
use mathlib.Core.Bool.{false≢true}
use untangle.Base.{
  ◌==◌, ◌<◌, ◌≡◌, refl, ap, sym, ◌∙◌, inl, inr, String, Bool, false, ◌&&◌, Bool-cases, List, [],
  ◌∷◌, ◌++◌, filter, length, In, In-filter, In-of_filter, In-append_left, if◌then◌else◌, arith,
}
use untangle.Base.Keys.{Dict, ◌=?◌, =?_eq, insert, keys, lookup-insert, string_eq}
use untangle.Models.{truthy, ReconRow, OrderLedgerEntry, ReconciliationResult}
use untangle.Ledger.Defs.{
  bookings, text_or_empty, index_ledger, Slice, is_missing, is_double, status_conflict,
  amount_conflict, refund_missing, Discrepancies, discrepancies, proven_slice, ReasonCode,
  LedgerException, add_all, unless_empty, emit, reconcile_ledger,
}
use untangle.Ledger.Reports.{IsSettled, proven_slice-settled, In-add_all}

-- The entries that book the order.
abbrev pub books : String → OrderLedgerEntry → Bool
books oid e = truthy e.order_id && (oid =? text_or_empty e.order_id)

bookings-insert :
    (oid k : String) (v : List OrderLedgerEntry) (d : Dict String (List OrderLedgerEntry))
    → bookings (insert k v d) oid ≡ (if oid =? k then v else bookings d oid)
bookings-insert oid k v d = ground (arith, lookup-insert oid k v d)

index_ledger_lem :
    (oid : String) (d : Dict String (List OrderLedgerEntry)) (es : List OrderLedgerEntry)
    → bookings (index_ledger d es) oid ≡ bookings d oid ++ filter (books oid) es
unfolding index_ledger
index_ledger_lem oid d [] = rw append-nil refl
index_ledger_lem oid d (e ∷ es) = elim (Bool-cases (truthy e.order_id)) [
  | inl t ↦
      let k = text_or_empty e.order_id in
      rw t (
        index_ledger_lem oid (insert k (bookings d k ++ e ∷ []) d) es
        ∙ ap (λ b. b ++ filter (books oid) es) (bookings-insert oid k (bookings d k ++ e ∷ []) d)
        ∙ elim (Bool-cases (oid =? k)) [
          | inl same ↦ rw same (
              append_assoc (bookings d k) (e ∷ []) (filter (books oid) es)
              ∙ ap (λ j. bookings d j ++ e ∷ filter (books oid) es) (sym (=?_eq oid k same)))
          | inr other ↦ rw other refl
        ])
  | inr f ↦ rw f (index_ledger_lem oid d es)
]

single_status :
    (norm : String → String) (s : Slice) (oid : String) (b : List OrderLedgerEntry)
    → 1 < length b
    → (status_conflict norm s oid b ≡ false)
      × (amount_conflict norm s oid b ≡ false)
      × (refund_missing norm s b ≡ false)
      × ((length b == 0) ≡ false)
single_status norm s oid [] h = absurd (omega arith)
single_status norm s oid (e ∷ []) h = absurd (omega arith)
single_status norm s oid (e ∷ f ∷ es) h = (refl, refl, refl, ground arith)

-- An order that is reported as booked more than once is named for nothing else: the check draws no
-- conclusion about its status, its amount or its refund from either booking.
pub duplicates_abstain :
    (norm : String → String) (s : Slice) (oid : String)
    → In oid (discrepancies norm s).duplicates
    → (¬ In oid (discrepancies norm s).missing_from_ledger)
      × (¬ In oid (discrepancies norm s).status_conflicts)
      × (¬ In oid (discrepancies norm s).amount_conflicts)
      × (¬ In oid (discrepancies norm s).refund_unbooked)
unfolding discrepancies
duplicates_abstain norm s oid m =
    let b = bookings s.booked oid in
    let twice : 1 < length b =
      ground (arith, (In-of_filter (is_double norm s) oid (keys s.booked) m).1) in
    let (status, amount, refund, some_there) = single_status norm s oid b twice in
    (
      λ n. false≢true (sym some_there ∙ (In-of_filter (is_missing norm s) oid s.settled n).1),
      λ n. false≢true (sym status ∙ (In-of_filter _ oid s.settled n).1),
      λ n. false≢true (sym amount ∙ (In-of_filter _ oid s.settled n).1),
      λ n. false≢true (sym refund ∙ (In-of_filter _ oid s.refunded n).1),
    )

In-unless :
    (code : ReasonCode) (oid : String) (ids : List String)
    → In oid ids
    → (x : LedgerException) × In x (unless_empty code ids)
      × (x.reason_code ≡ code)
      × In oid x.affected
In-unless code oid [] m = absurd m
In-unless code oid (i ∷ is) m =
    (record { reason_code = code; affected = i ∷ is }, inl refl, refl, m)

emit-missing :
    (d : Discrepancies) (oid : String)
    → In oid d.missing_from_ledger
    → (x : LedgerException) × In x (emit d)
      × (x.reason_code ≡ ReasonCode.ledger_mismatch)
      × In oid x.affected
unfolding emit
emit-missing d oid m =
    let mismatched =
      add_all d.amount_conflicts (add_all d.status_conflicts (add_all d.missing_from_ledger [])) in
    let inside : In oid mismatched = (In-add_all oid d.amount_conflicts _).1 (
      inl (
        (In-add_all oid d.status_conflicts _).1
          (inl ((In-add_all oid d.missing_from_ledger []).1 (inr m))))) in
    let (x, n, code, i) = In-unless ReasonCode.ledger_mismatch oid mismatched inside in
    (x, In-append_left x (unless_empty ReasonCode.ledger_mismatch mismatched) _ n, code, i)

missing :
    (norm : String → String) (ledger : List OrderLedgerEntry) (recs : List ReconciliationResult)
    (rows : List ReconRow) (oid : String)
    → In oid (proven_slice ledger recs rows).settled
    → filter (books oid) ledger ≡ []
    → In oid (discrepancies norm (proven_slice ledger recs rows)).missing_from_ledger
unfolding discrepancies proven_slice
missing norm ledger recs rows oid m unbooked =
    let s = proven_slice ledger recs rows in
    let none_there : bookings s.booked oid ≡ [] = index_ledger_lem oid [] ledger ∙ unbooked in
    In-filter (is_missing norm s) oid s.settled m (ap (λ b. length b == 0) none_there)

-- A settled order that no entry of a ledger books is named by a ledger_mismatch exception, when the
-- ledger has any entry at all.
pub reconcile_ledger_reports :
    (norm : String → String) (e : OrderLedgerEntry) (es : List OrderLedgerEntry)
    (recs : List ReconciliationResult) (rows : List ReconRow) (oid : String)
    → IsSettled recs rows oid
    → filter (books oid) (e ∷ es) ≡ []
    → (x : LedgerException) × In x (reconcile_ledger norm (e ∷ es) recs rows)
      × (x.reason_code ≡ ReasonCode.ledger_mismatch)
      × In oid x.affected
unfolding reconcile_ledger
reconcile_ledger_reports norm e es recs rows oid settled unbooked =
    emit-missing (discrepancies norm (proven_slice (e ∷ es) recs rows)) oid (
      missing norm (e ∷ es) recs rows oid ((proven_slice-settled (e ∷ es) recs rows oid).1 settled)
        unbooked)

-- ===== src/Journal/Balance.antt =====
-- Every voucher balances, so the assertion of the code never fails, and so does its export.
use mathlib.Core.List.{map-append}
use untangle.Base.{
  ℕ, ◌≡◌, refl, ap, ◌∙◌, inl, inr, String, Bool, true, false, Bool-cases, Option-cases, List, [],
  ◌∷◌, ◌++◌, map, All, All-append, ◌⊎◌, arith,
}
use untangle.Base.Int.{
  ℤ, pos, pos_part, neg_part, sum, ◌+ℤ◌, ◌-ℤ◌, sum-append, int_laws, ltb_ℤ, ==ℤ_iff,
}
use untangle.Base.Keys.{Dict, pair_eq, string_eq}
use untangle.Base.Flow.{Result, ok, err, ◌>>=◌}
use untangle.Models.{ReconciliationResult}
use untangle.Covered.{Row, Signature, CoverageError, rows_by_canonical_id}
use untangle.Journal.Defs.{
  JournalLine, JournalEntry, total_debit_paise, total_credit_paise, balanced, nonzero, taxes,
  rounding_lines, mdr_lines, itc_lines, mdr_ex_gst, gross_of, voucher_lines, debit, credit,
  make_entry, add_entry, build_from, covered_by, or_coverage_error, JournalError, coverage,
  build_journal_entries, TallyLine, tally_line, TallyVoucher, tally_vouchers, index_buckets,
  sort_by_line,
}

-- Debits less credits.
abbrev surplus : List JournalLine → ℤ
surplus lines = total_debit_paise lines -ℤ total_credit_paise lines

surplus-append : (xs ys : List JournalLine) → surplus (xs ++ ys) ≡ surplus xs +ℤ surplus ys
unfolding total_debit_paise total_credit_paise
surplus-append xs ys =
    rw
      (
        map-append (λ (l : JournalLine). l.debit_paise) xs ys,
        map-append (λ (l : JournalLine). l.credit_paise) xs ys,
        sum-append (map (λ (l : JournalLine). l.debit_paise) xs) _,
        sum-append (map (λ (l : JournalLine). l.credit_paise) xs) _,
      )
      (omega int_laws)

surplus-debit : (ledger : String) (paise : ℤ) → surplus (debit ledger paise ∷ []) ≡ paise
unfolding total_debit_paise total_credit_paise
surplus-debit ledger paise = omega int_laws

surplus-credit : (ledger : String) (paise : ℤ) → surplus (credit ledger paise ∷ []) ≡ pos 0 -ℤ paise
unfolding total_debit_paise total_credit_paise
surplus-credit ledger paise = omega int_laws

rounding_surplus : (drift : ℤ) → surplus (rounding_lines drift) ≡ pos 0 -ℤ drift
unfolding total_debit_paise total_credit_paise
rounding_surplus drift = elim (Bool-cases (ltb_ℤ (pos 0) drift)) [
  | inl up ↦ rw up (omega int_laws)
  | inr f ↦ elim (Bool-cases (ltb_ℤ drift (pos 0))) [
    | inl down ↦ rw (f, down) (omega int_laws)
    | inr g ↦ let zero : drift ≡ pos 0 = ground arith in rw (f, g) (rw zero (omega int_laws))
  ]
]

zero_of : (x : ℤ) → nonzero x ≡ false → x ≡ pos 0
zero_of x h = (==ℤ_iff x (pos 0)).0 (ground arith)

mdr_surplus : (mdr : ℤ) → surplus (mdr_lines mdr) ≡ mdr
unfolding total_debit_paise total_credit_paise
mdr_surplus mdr = elim (Bool-cases (nonzero mdr)) [
  | inl t ↦ rw t (omega int_laws)
  | inr f ↦ rw f (rw (zero_of mdr f) (omega int_laws))
]

itc_surplus : (intra : Bool) (itc : ℤ) → surplus (itc_lines intra itc) ≡ itc
unfolding total_debit_paise total_credit_paise
itc_surplus intra itc = elim (Bool-cases (nonzero itc)) [
  | inl t ↦ elim (Bool-cases intra) [
    | inl i ↦ rw (t, i) (omega int_laws)
    | inr o ↦ rw (t, o) (omega int_laws)
  ]
  | inr f ↦ rw f (rw (zero_of itc f) (omega int_laws))
]

voucher_surplus :
    (intra : Bool) (rec : ReconciliationResult) (covered : List Row)
    → surplus (voucher_lines intra rec covered) ≡ pos 0
unfolding voucher_lines
voucher_surplus intra rec covered =
    let mdr = mdr_ex_gst covered in
    let itc = taxes covered in
    let drift = rec.credit_amount_paise -ℤ rec.covered_net_paise in
    let clearing = credit "Razorpay Clearing A/c" (gross_of rec covered) ∷ [] in
    let bank = debit "Bank Current A/c" rec.credit_amount_paise ∷ [] in
    let e1 =
      surplus-append (bank ++ rounding_lines drift)
        (mdr_lines mdr ++ (itc_lines intra itc ++ clearing)) in
    let e2 = surplus-append bank (rounding_lines drift) in
    let e3 = surplus-append (mdr_lines mdr) (itc_lines intra itc ++ clearing) in
    let e4 = surplus-append (itc_lines intra itc) clearing in
    let e5 = surplus-debit "Bank Current A/c" rec.credit_amount_paise in
    let e6 = surplus-credit "Razorpay Clearing A/c" (gross_of rec covered) in
    e1
    ∙ rw (e2, e3, e4, e5, e6, rounding_surplus drift, mdr_surplus mdr, itc_surplus intra itc)
        (omega int_laws)

balanced-of_surplus : (e : JournalEntry) → surplus e.lines ≡ pos 0 → balanced e ≡ true
unfolding balanced
balanced-of_surplus e h =
    (==ℤ_iff (total_debit_paise e.lines) (total_credit_paise e.lines)).1
      (omega (int_laws, ap pos_part h, ap neg_part h))

-- One of the two amounts of a posting is zero.
abbrev pub OneSided : JournalLine → Type 0
OneSided l = (l.debit_paise ≡ pos 0) ⊎ (l.credit_paise ≡ pos 0)

-- What a voucher is: debits equal credits, and no posting has both.
pub record IsVoucher (e : JournalEntry) : Type 0 where
  pub equal : total_debit_paise e.lines ≡ total_credit_paise e.lines
  pub one_sided : All OneSided e.lines

rounding_OneSided : (drift : ℤ) → All OneSided (rounding_lines drift)
rounding_OneSided drift = elim (Bool-cases (ltb_ℤ (pos 0) drift)) [
  | inl up ↦ rw up (inl refl, tt)
  | inr f ↦ elim (Bool-cases (ltb_ℤ drift (pos 0))) [
    | inl down ↦ rw (f, down) (inr refl, tt)
    | inr g ↦ rw (f, g) tt
  ]
]

mdr_OneSided : (mdr : ℤ) → All OneSided (mdr_lines mdr)
mdr_OneSided mdr = elim (Bool-cases (nonzero mdr)) [ inl t ↦ rw t (inr refl, tt) | inr f ↦ rw f tt ]

itc_OneSided : (intra : Bool) (itc : ℤ) → All OneSided (itc_lines intra itc)
itc_OneSided intra itc = elim (Bool-cases (nonzero itc)) [
  | inl t ↦ elim (Bool-cases intra) [
    | inl i ↦ rw (t, i) (inr refl, (inr refl, tt))
    | inr o ↦ rw (t, o) (inr refl, tt)
  ]
  | inr f ↦ rw f tt
]

voucher_lines-OneSided :
    (intra : Bool) (rec : ReconciliationResult) (covered : List Row)
    → All OneSided (voucher_lines intra rec covered)
unfolding voucher_lines
voucher_lines-OneSided intra rec covered = (
  inr refl,
  All-append OneSided (rounding_lines (rec.credit_amount_paise -ℤ rec.covered_net_paise)) _
      (rounding_OneSided (rec.credit_amount_paise -ℤ rec.covered_net_paise))
      (All-append OneSided (mdr_lines (mdr_ex_gst covered)) _ (mdr_OneSided (mdr_ex_gst covered)) (
        All-append OneSided (itc_lines intra (taxes covered)) _ (itc_OneSided intra (taxes covered))
          (inl refl, tt))),
)

module _ (fingerprint : Signature → ℕ → String)
    (narrate : List String → List String → ReconciliationResult → List Row → String)
    (intra_state : Bool) where
  make_entry-IsVoucher :
      (rec : ReconciliationResult) (covered : List Row)
      → IsVoucher (make_entry fingerprint narrate intra_state rec covered)
  unfolding make_entry
  make_entry-IsVoucher rec covered =
      let h = voucher_surplus intra_state rec covered in
      record {
        equal = omega (int_laws, ap pos_part h, ap neg_part h);
        one_sided = voucher_lines-OneSided intra_state rec covered;
      }

  make_entry-balanced :
      (rec : ReconciliationResult) (covered : List Row)
      → balanced (make_entry fingerprint narrate intra_state rec covered) ≡ true
  unfolding make_entry
  make_entry-balanced rec covered =
      balanced-of_surplus (make_entry fingerprint narrate intra_state rec covered)
        (voucher_surplus intra_state rec covered)

  -- What the loop over the reconciliations may come to.
  abbrev Vouchers : Result JournalError (List JournalEntry) → Type 0
  Vouchers r =
      ((entries : List JournalEntry) × (r ≡ ok entries) × All IsVoucher entries)
      ⊎ ((e : CoverageError) × (r ≡ err (coverage e)))

  add_entry-Vouchers :
      (entries : List JournalEntry) (rec : ReconciliationResult) (covered : List Row)
      → All IsVoucher entries
      → (entries' : List JournalEntry) × (add_entry fingerprint narrate intra_state entries rec
            covered
          ≡ ok entries')
        × All IsVoucher entries'
  unfolding add_entry
  add_entry-Vouchers entries rec [] h = (entries, refl, h)
  add_entry-Vouchers entries rec (r ∷ rs) h = (
    entries ++ make_entry fingerprint narrate intra_state rec (r ∷ rs) ∷ [],
    rw (make_entry-balanced rec (r ∷ rs)) refl,
    All-append IsVoucher entries _ h (make_entry-IsVoucher rec (r ∷ rs), tt),
  )

  build_from-Vouchers :
      (rows_by_id : Dict String Row) (rows_by_key : Dict (String × String) (List Row))
      (entries : List JournalEntry) (recs : List ReconciliationResult)
      → All IsVoucher entries
      → Vouchers (build_from fingerprint narrate intra_state rows_by_id rows_by_key entries recs)
  unfolding build_from
  build_from-Vouchers rows_by_id rows_by_key entries [] h = inl (entries, refl, h)
  build_from-Vouchers rows_by_id rows_by_key entries (rec ∷ recs) h =
      go (covered_by rows_by_id rows_by_key rec)
        (λ covered. add_entry-Vouchers entries rec covered h)
        (λ entries' h'. build_from-Vouchers rows_by_id rows_by_key entries' recs h')
    where
      go :
          (c : Result CoverageError (List Row))
          → ((covered : List Row)
              → (entries' : List JournalEntry) × (add_entry fingerprint narrate intra_state entries
                    rec covered
                  ≡ ok entries')
                × All IsVoucher entries')
          → ((entries' : List JournalEntry)
              → All IsVoucher entries'
              → Vouchers
                  (build_from fingerprint narrate intra_state rows_by_id rows_by_key entries' recs))
          → Vouchers (
              or_coverage_error c >>= λ covered.
              add_entry fingerprint narrate intra_state entries rec covered >>= λ entries'.
              build_from fingerprint narrate intra_state rows_by_id rows_by_key entries' recs)
      go (err e) step rest = inr (e, refl)
      go (ok covered) step rest = let (entries', e, h') = step covered in rw e (rest entries' h')

  -- The journal is built whenever the covered rows can be resolved: the assertion on a voucher never
  -- fails. In every voucher the debits equal the credits, and no posting has both.
  pub build_journal_entries_balanced :
      (reconciliations : List ReconciliationResult) (recon_rows : List Row)
      → ((entries : List JournalEntry) × (build_journal_entries fingerprint narrate intra_state
              reconciliations recon_rows
            ≡ ok entries)
          × All IsVoucher entries)
        ⊎ ((e : CoverageError) × (build_journal_entries fingerprint narrate intra_state
                reconciliations recon_rows
              ≡ err (coverage e)))
  unfolding build_journal_entries
  build_journal_entries_balanced reconciliations recon_rows =
      build_from-Vouchers (rows_by_canonical_id fingerprint recon_rows)
        (index_buckets [] recon_rows) [] (sort_by_line reconciliations) tt

-- The amounts of a voucher that is exported add up to zero.
tally_amounts :
    (lines : List JournalLine)
    → All OneSided lines
    → sum (map (λ (l : TallyLine). l.amount) (map tally_line lines))
      ≡ total_credit_paise lines -ℤ total_debit_paise lines
unfolding tally_line total_credit_paise total_debit_paise
tally_amounts [] h = omega int_laws
tally_amounts (l ∷ ls) h =
    rw (tally_amounts ls h.1) (omega (int_laws, ap pos_part (one l h.0), ap neg_part (one l h.0)))
  where
    one : (l : JournalLine) → OneSided l → (tally_line l).amount ≡ l.credit_paise -ℤ l.debit_paise
    one l s = elim (Bool-cases (nonzero l.debit_paise)) [
      | inl t ↦ elim s [ inl z ↦ cc (rw z at t) | inr z ↦ rw (t, z, tally_line) (omega int_laws) ]
      | inr f ↦ rw (f, zero_of l.debit_paise f, tally_line) (omega int_laws)
    ]

-- In the export of vouchers that balance, the signed amounts of every voucher add up to zero.
pub tally_vouchers-sum :
    (entries : List JournalEntry)
    → All IsVoucher entries
    → All
        (λ (v : TallyVoucher). sum (map (λ (l : TallyLine). l.amount) v.lines) ≡ pos 0)
        (tally_vouchers entries)
unfolding tally_vouchers
tally_vouchers-sum [] h = tt
tally_vouchers-sum (e ∷ es) h = elim (Option-cases e.date) [
  | inl n ↦ rw (n, tally_vouchers) (tally_vouchers-sum es h.1)
  | inr (day, d) ↦
      rw (d, tally_vouchers)
        (
          tally_amounts e.lines h.0.one_sided ∙ rw h.0.equal (omega int_laws),
          tally_vouchers-sum es h.1,
        )
]

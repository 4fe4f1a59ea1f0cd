-- ===== src/Journal/Waterfall.antt =====
-- The amount that a voucher takes out of clearing is the gross of the payments, under either
-- convention for fees and taxes in the report.
use untangle.Base.{
  ◌≡◌, refl, ap, sym, ◌∙◌, inl, inr, ◌⊎◌, true, false, Bool-cases, List, [], ◌∷◌, map, filter,
  length, All, All-filter, All-imp, leb, ◌==◌, arith,
}
use untangle.Base.Int.{ℤ, pos, pos_part, neg_part, abs, sum, ◌+ℤ◌, ◌-ℤ◌, int_laws, ==ℤ_iff}
use untangle.Base.Keys.{=?_refl, string_eq}
use untangle.Models.{net_paise, ReconciliationResult}
use untangle.Covered.{Row}
use untangle.Journal.Defs.{
  amounts, fees, taxes, credits, is_charged_payment, tax_inside_fee, mdr_ex_gst, gross_of,
}

-- A payment whose credit is its amount less the fee; `fee` holds the tax.
pub record TaxInside (r : Row) : Type 0 where
  pub payment : r.row.kind ≡ "payment"
  pub no_debit : r.row.debit_paise ≡ pos 0
  pub credited : r.row.credit_paise ≡ r.row.amount_paise -ℤ r.row.fee_paise

-- A payment whose credit is its amount less the fee and the tax.
pub record TaxSeparate (r : Row) : Type 0 where
  pub payment : r.row.kind ≡ "payment"
  pub no_debit : r.row.debit_paise ≡ pos 0
  pub credited : r.row.credit_paise ≡ r.row.amount_paise -ℤ r.row.fee_paise -ℤ r.row.tax_paise

abbrev pub net_of : List Row → ℤ
net_of rows = sum (map (λ (r : Row). net_paise r.row) rows)

inside_credits : (rows : List Row) → All TaxInside rows → credits rows ≡ amounts rows -ℤ fees rows
inside_credits [] h = omega int_laws
inside_credits (r ∷ rs) h = rw (inside_credits rs h.1, h.0.credited) (omega int_laws)

separate_credits :
    (rows : List Row)
    → All TaxSeparate rows
    → credits rows ≡ amounts rows -ℤ fees rows -ℤ taxes rows
separate_credits [] h = omega int_laws
separate_credits (r ∷ rs) h = rw (separate_credits rs h.1, h.0.credited) (omega int_laws)

net-eq-credits :
    (rows : List Row)
    → All (λ (r : Row). r.row.debit_paise ≡ pos 0) rows
    → net_of rows ≡ credits rows
net-eq-credits [] h = refl
net-eq-credits (r ∷ rs) h = rw (net-eq-credits rs h.1, h.0) (omega int_laws)

-- What is no charged payment among payments has no tax.
taxes-filter :
    (rows : List Row)
    → All (λ (r : Row). r.row.kind ≡ "payment") rows
    → taxes (filter is_charged_payment rows) ≡ taxes rows
taxes-filter [] h = refl
taxes-filter (r ∷ rs) h = elim (Bool-cases (is_charged_payment r)) [
  | inl t ↦ rw (t, taxes-filter rs h.1) refl
  | inr f ↦
      let free : r.row.tax_paise ≡ pos 0 = untaxed r h.0 f in
      rw (f, taxes-filter rs h.1, free) (omega int_laws)
]
  where
    untaxed :
        (r : Row) → r.row.kind ≡ "payment" → is_charged_payment r ≡ false → r.row.tax_paise ≡ pos 0
    untaxed r k f =
        let same = =?_refl r.row.kind in
        (==ℤ_iff r.row.tax_paise (pos 0)).0 (ground (arith, rw k at same))

zero_abs : (x y : ℤ) → x ≡ y → abs (x -ℤ y) ≡ 0
unfolding ◌-ℤ◌
zero_abs x y e = rw e (ground arith)

-- The fee that is left, and the tax, add up to what the credits lack.
inside_mdr : (rows : List Row) → All TaxInside rows → mdr_ex_gst rows +ℤ taxes rows ≡ fees rows
unfolding tax_inside_fee
inside_mdr rows h = rw inside (omega int_laws)
  where
    pays : List Row
    pays = filter is_charged_payment rows

    exact : abs (credits pays -ℤ (amounts pays -ℤ fees pays)) ≡ 0
    exact =
        zero_abs (credits pays) (amounts pays -ℤ fees pays)
          (inside_credits pays (All-filter TaxInside is_charged_payment rows h))

    inside : tax_inside_fee rows ≡ true
    inside = elim (Bool-cases (length pays == 0)) [
      | inl none_there ↦ rw none_there refl
      | inr some_there ↦ rw (some_there, exact) (ground arith)
    ]

no_taxes : (rows : List Row) → (length rows == 0) ≡ true → taxes rows ≡ pos 0
no_taxes [] h = refl
no_taxes (r ∷ rs) h = absurd (ground arith)

-- If the reading without the tax is at least as good, there is no tax.
small :
    (credit net tax : ℤ)
    → credit ≡ net -ℤ tax
    → leb (abs (credit -ℤ net)) (abs (credit -ℤ (net -ℤ tax))) ≡ true
    → tax ≡ pos 0
unfolding ◌-ℤ◌
small credit net tax e h = ground arith

separate_mdr :
    (rows : List Row)
    → All TaxSeparate rows
    → mdr_ex_gst rows +ℤ taxes rows ≡ fees rows +ℤ taxes rows
unfolding tax_inside_fee
separate_mdr rows h = elim (Bool-cases (tax_inside_fee rows)) [
  | inl t ↦ rw (t, untaxed t) (omega int_laws)
  | inr f ↦ rw f refl
]
  where
    pays : List Row
    pays = filter is_charged_payment rows

    exact : credits pays ≡ amounts pays -ℤ fees pays -ℤ taxes pays
    exact = separate_credits pays (All-filter TaxSeparate is_charged_payment rows h)

    same : taxes pays ≡ taxes rows
    same =
        taxes-filter rows
          (All-imp TaxSeparate (λ (r : Row). r.row.kind ≡ "payment") rows (λ r s. s.payment) h)

    untaxed : tax_inside_fee rows ≡ true → taxes rows ≡ pos 0
    untaxed t = elim (Bool-cases (length pays == 0)) [
      | inl none_there ↦ sym same ∙ no_taxes pays none_there
      | inr some_there ↦
          sym same
          ∙ small (credits pays) (amounts pays -ℤ fees pays) (taxes pays) exact (rw some_there at t)
    ]

-- For a reconciliation of payments, whose credits are the amounts less fees that contain the tax, or
-- less fees and taxes, and whose net is that of its rows, the voucher relieves clearing of exactly
-- the amounts of the payments.
pub gross_of-amounts :
    (rec : ReconciliationResult) (covered : List Row)
    → All TaxInside covered ⊎ All TaxSeparate covered
    → rec.covered_net_paise ≡ net_of covered
    → gross_of rec covered ≡ amounts covered
gross_of-amounts rec covered (inl h) net =
    let mdr = inside_mdr covered h in
    let total = inside_credits covered h in
    let paid =
      net-eq-credits covered (
        All-imp TaxInside (λ (r : Row). r.row.debit_paise ≡ pos 0) covered (λ r s. s.no_debit) h) in
    let e = net ∙ paid ∙ total in
    omega (int_laws, ap pos_part mdr, ap neg_part mdr, ap pos_part e, ap neg_part e)
gross_of-amounts rec covered (inr h) net =
    let mdr = separate_mdr covered h in
    let total = separate_credits covered h in
    let paid = net-eq-credits covered (
      All-imp TaxSeparate (λ (r : Row). r.row.debit_paise ≡ pos 0) covered (λ r s. s.no_debit) h) in
    let e = net ∙ paid ∙ total in
    omega (int_laws, ap pos_part mdr, ap neg_part mdr, ap pos_part e, ap neg_part e)

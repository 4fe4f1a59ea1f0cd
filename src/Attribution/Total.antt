-- ===== src/Attribution/Total.antt =====
-- engine/attribute.py: proofs that concern the returning of `attribute_line`.
use untangle.Base.{ap, ◌∙◌, inl, inr, not, Bool-cases, List, if_true, if_false}
use untangle.Base.Keys.{keys, Nodup, string_eq}
use untangle.Base.Floats.{Floats}
use untangle.Base.Flow.{ok, ◌>>=◌}
use untangle.Models.{Rail, BankCreditLine, EvidenceItem}
use untangle.Reconcile.Total.{Returns}
use untangle.Attribution.Evidence.{ReconIndex}
use untangle.Attribution.Packs.{evaluate_non_rzp_signals, evaluate_rails}
use untangle.Attribution.Signals.{razorpay_signals}
use untangle.Attribution.Challenger.{has_signal}
use untangle.Attribution.Line.{
  Engine, LineOptions, any_signal, hard_rzp_signals, apply_setsum, after_setsum, attribute_credit,
  attribute_line,
}
use untangle.Attribution.SetsumSound.{setsum_evidence_total}

module _ {F : Type 0} ⦃fl : Floats F⦄ (e : Engine F) (o : LineOptions F) (ix : ReconIndex)
    (line : BankCreditLine) where
  attribute_credit_total :
      (non_rzp : List (Rail × List (EvidenceItem F)))
      → Nodup (keys ix.settlement_net)
      → Returns (attribute_credit e o line non_rzp ix)
  unfolding attribute_credit
  attribute_credit_total non_rzp nodup =
      let ev = razorpay_signals e.texts ix line e.pack in
      elim (Bool-cases (has_signal "utr_exact" ev)) [
        | inl t ↦ (_, if_true (has_signal "utr_exact" ev) _ _ t)
        | inr f ↦ elim (Bool-cases (any_signal hard_rzp_signals ev)) [
          | inl t ↦ (
            _,
            if_false (has_signal "utr_exact" ev) _ _ f
                ∙ if_true (any_signal hard_rzp_signals ev) _ _ t,
          )
          | inr g ↦
              let (found, k) = setsum_evidence_total e.texts F ix line nodup in
              (
                _,
                if_false (has_signal "utr_exact" ev) _ _ f
                    ∙ (if_false (any_signal hard_rzp_signals ev) _ _ g
                        ∙ ap
                            (λ r. r >>= λ setsum.
                              ok (after_setsum e o line non_rzp (apply_setsum ev non_rzp setsum)))
                            k),
              )
        ]
      ]

  -- `attribute_line` always returns.
  pub attribute_line_total : Nodup (keys ix.settlement_net) → Returns (attribute_line e o ix line)
  unfolding attribute_line evaluate_non_rzp_signals
  attribute_line_total nodup = elim (Bool-cases line.is_credit) [
    | inr debit ↦ (_, if_true (not line.is_credit) _ _ (ap not debit))
    | inl credit ↦
        let (a, q) =
          attribute_credit_total (evaluate_rails e.texts e.pack line e.pack.rail_keywords) nodup in
        (a, if_false (not line.is_credit) _ _ (ap not credit) ∙ q)
  ]

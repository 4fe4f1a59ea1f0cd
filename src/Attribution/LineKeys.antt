-- ===== src/Attribution/LineKeys.antt =====
-- engine/attribute.py: proofs about the keys of verdicts.
use untangle.Base.{
  ◌≡◌, refl, ap, sym, ◌∙◌, inl, inr, String, true, ◌||◌, not, Bool-cases, List, [], ◌∷◌, if_true,
  if_false,
}
use untangle.Base.Keys.{Dict, ◌=?◌, string_eq}
use untangle.Base.Floats.{Floats, less}
use untangle.Base.Flow.{Result, ok, bind_returned}
use untangle.Models.{Rail, Tier, BankCreditLine, EvidenceItem, RailAttribution}
use untangle.Subsets.{ValueError}
use untangle.Attribution.Evidence.{ReconIndex}
use untangle.Attribution.Packs.{evaluate_rails, evaluate_non_rzp_signals}
use untangle.Attribution.Signals.{razorpay_signals}
use untangle.Attribution.Combine.{combine}
use untangle.Attribution.Challenger.{has_signal}
use untangle.Attribution.Setsum.{setsum_evidence}
use untangle.Attribution.Line.{
  Engine, LineOptions, Scored, AfterSetsum, undecided, go_on, any_signal, hard_rzp_signals,
  finalize_razorpay, challenge, best_of, non_rzp_scores, attribute_debit, apply_setsum, decide,
  score_rails, after_setsum, attribute_credit, attribute_line,
}
use untangle.Attribution.Scores.{same_value}

module _ {F : Type 0} ⦃fl : Floats F⦄ (e : Engine F) (o : LineOptions F)
    (line : BankCreditLine) where
  -- A result is on this line.
  abbrev pub OnLine : Result ValueError (RailAttribution F) → Type 0
  OnLine r = (a : RailAttribution F) → r ≡ ok a → a.line_key ≡ line.key

  ok-OnLine : (a : RailAttribution F) → a.line_key ≡ line.key → OnLine (ok a)
  ok-OnLine a h b q = ap (λ x. x.line_key) (sym (same_value q)) ∙ h

  module _ (non_rzp : List (Rail × List (EvidenceItem F))) where
    pub finalize_razorpay-line_key :
        (rzp_ev : List (EvidenceItem F)) (score : F) (tier : Tier)
        → (finalize_razorpay e o line non_rzp rzp_ev score tier).line_key ≡ line.key
    unfolding finalize_razorpay
    finalize_razorpay-line_key rzp_ev score tier =
        let res = challenge e o line non_rzp rzp_ev score in
        elim (Bool-cases (fl.leq o.margin_threshold (fl.decimal 0))) [
          | inl off ↦ elim (Bool-cases o.audit) [
            | inl t ↦ rw (off, t) refl
            | inr f ↦ rw (off, f) refl
          ]
          | inr on ↦ elim (Bool-cases (res.truncated || less res.proof_margin o.margin_threshold)) [
            | inl t ↦ rw (on, t) refl
            | inr f ↦ rw (on, f) refl
          ]
        ]

    decide-line_key :
        (rzp_ev : List (EvidenceItem F)) (scores : Dict String (Scored F))
        → (decide e o line non_rzp rzp_ev scores).line_key ≡ line.key
    unfolding decide
    decide-line_key rzp_ev [] = refl
    decide-line_key rzp_ev (x ∷ xs) =
        let best = best_of x xs in
        elim (Bool-cases (less best.1.score o.threshold)) [
          | inl low ↦ rw low refl
          | inr high ↦ elim (Bool-cases (best.0 =? "razorpay_settlement")) [
            | inl t ↦
                rw (high, t) (finalize_razorpay-line_key best.1.evidence best.1.score best.1.tier)
            | inr f ↦ rw (high, f) refl
          ]
        ]

    after_setsum-line_key :
        (s : AfterSetsum F) → (after_setsum e o line non_rzp s).line_key ≡ line.key
    unfolding score_rails
    after_setsum-line_key (undecided ev) = refl
    after_setsum-line_key (go_on r) = decide-line_key r.evidence _

    attribute_credit-OnLine : (ix : ReconIndex) → OnLine (attribute_credit e o line non_rzp ix)
    unfolding attribute_credit
    attribute_credit-OnLine ix =
        let ev = razorpay_signals e.texts ix line e.pack in
        elim (Bool-cases (has_signal "utr_exact" ev)) [
          | inl t ↦ λ a q.
              ok-OnLine (finalize_razorpay e o line non_rzp ev (combine ev) Tier.tier_a)
                (finalize_razorpay-line_key ev (combine ev) Tier.tier_a) a
                (sym (if_true (has_signal "utr_exact" ev) _ _ t) ∙ q)
          | inr f ↦ elim (Bool-cases (any_signal hard_rzp_signals ev)) [
            | inl t ↦ λ a q.
                let r : AfterSetsum F =
                  go_on (record { evidence = ev; hard = true; tier = Tier.tier_b }) in
                ok-OnLine (after_setsum e o line non_rzp r) (after_setsum-line_key r) a
                  (rw (f, t) at q)
            | inr g ↦ λ a q.
                let (found, k, last) =
                  bind_returned (setsum_evidence e.texts ix line) _ (rw (f, g) at q) in
                ok-OnLine (after_setsum e o line non_rzp (apply_setsum ev non_rzp found))
                  (after_setsum-line_key (apply_setsum ev non_rzp found)) a last
          ]
        ]

  attribute_debit-line_key :
      (scores : Dict String (Scored F)) → (attribute_debit o line scores).line_key ≡ line.key
  unfolding attribute_debit
  attribute_debit-line_key [] = refl
  attribute_debit-line_key (x ∷ xs) = elim (Bool-cases (less (best_of x xs).1.score o.threshold)) [
    | inl low ↦ rw low refl
    | inr high ↦ rw high refl
  ]

  pub attribute_line-OnLine : (ix : ReconIndex) → OnLine (attribute_line e o ix line)
  unfolding attribute_line evaluate_non_rzp_signals
  attribute_line-OnLine ix a q =
      let non_rzp = evaluate_rails e.texts e.pack line e.pack.rail_keywords in
      elim (Bool-cases line.is_credit) [
        | inl credit ↦
            attribute_credit-OnLine non_rzp ix a
              (sym (if_false (not line.is_credit) _ _ (ap not credit)) ∙ q)
        | inr debit ↦
            ok-OnLine _ (attribute_debit-line_key (non_rzp_scores non_rzp)) a
              (sym (if_true (not line.is_credit) _ _ (ap not debit)) ∙ q)
      ]

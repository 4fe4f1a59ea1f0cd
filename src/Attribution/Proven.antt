-- ===== src/Attribution/Proven.antt =====
-- engine/attribute.py: proofs about the Razorpay verdicts of `attribute_all`.
use mathlib.Core.Path.{subst}
use untangle.Base.{◌≡◌, ap, sym, ◌∙◌, inl, inr, String, true, false, List, In, In-of_map}
use untangle.Base.Keys.{Dict, string_eq}
use untangle.Base.Floats.{Floats, IsOrder}
use untangle.Base.Flow.{ok, bind_returned}
use untangle.Models.{Tier, BankCreditLine, RailAttribution}
use untangle.Attribution.Evidence.{ReconIndex}
use untangle.Attribution.Packs.{evaluate_non_rzp_signals}
use untangle.Attribution.Line.{Engine, LineOptions}
use untangle.Attribution.Splits.{leg_evidence, reconstruct_splits}
use untangle.Attribution.Rules.{ProposedRule, apply_approved_rules}
use untangle.Attribution.Pipeline.{attribute_lines, override, apply_rules, attribute_all}
use untangle.Attribution.Tie.{Tied}
use untangle.Attribution.Scores.{razorpay, NoRazorpay, same_value}
use untangle.Attribution.Gate.{attribute_line-Tied}
use untangle.Attribution.LineKeys.{attribute_line-OnLine, finalize_razorpay-line_key}
use untangle.Attribution.Lifted.{
  IsSplitLeg, LiftedFrom, kept, lifted, reconstruct_splits-LiftedFrom,
}
use untangle.Attribution.RuleLaws.{RuledBy, apply_approved_rules-AllRuled}
use untangle.Attribution.Runs.{attribute_lines-In, override_cases}

module _ {F : Type 0} ⦃fl : Floats F⦄ (e : Engine F) (o : LineOptions F) (ix : ReconIndex) where
  -- What stands behind a verdict for Razorpay: a tie of its credit to the report, a leg of the only split of
  -- a settlement, or an approved rule.
  pub data Warranted (lines : List BankCreditLine) (rules : List ProposedRule)
      (a : RailAttribution F) : Type 0 where
    by_tie :
        (line : BankCreditLine)
        → In line lines
        → a.line_key ≡ line.key
        → line.is_credit ≡ true
        → Tied e.texts ix line
        → Warranted lines rules a
    by_split :
        (line : BankCreditLine)
        → In line lines
        → a.line_key ≡ line.key
        → (pairs : List (BankCreditLine × RailAttribution F))
        → attribute_lines e o ix lines ≡ ok pairs
        → IsSplitLeg e o ix pairs line.key
        → Warranted lines rules a
    by_approval : RuledBy e.texts lines rules a → Warranted lines rules a

module _ {F : Type 0} ⦃fl : Floats F⦄ (ordered : IsOrder fl.leq) (e : Engine F) (o : LineOptions F)
    (ix : ReconIndex) where
  base-Warranted :
      (lines : List BankCreditLine) (rules : List ProposedRule)
      (pairs : List (BankCreditLine × RailAttribution F)) (a : RailAttribution F)
      → NoRazorpay e.pack.rail_keywords
      → attribute_lines e o ix lines ≡ ok pairs
      → LiftedFrom e o ix pairs a
      → a.rail ≡ razorpay
      → a.abstained ≡ false
      → Warranted e o ix lines rules a
  base-Warranted lines rules pairs a apart q (kept line m) rail live =
      let (listed, k) = attribute_lines-In e o ix lines pairs q (line, a) m in
      let (credit, tie) = attribute_line-Tied ordered e o ix line a apart k rail live in
      by_tie line listed (attribute_line-OnLine e o line ix a k) credit tie
  base-Warranted lines rules pairs a apart q (lifted line b g m same leg) rail live =
      by_split line (attribute_lines-In e o ix lines pairs q (line, b) m).0
        (ap (λ x. x.line_key) same
          ∙ finalize_razorpay-line_key e o line (evaluate_non_rzp_signals e.texts e.pack line)
              (leg_evidence e g) (fl.decimal 9000) Tier.tier_c)
        pairs q leg

  -- Every verdict for Razorpay that `attribute_all` does not abstain from is warranted: its credit is
  -- tied to the report (a UTR, the corroborated end of one, the net of one settlement, or the summed nets
  -- of a list of two to five settlements), or its line is a leg of the only split of a settlement, or a
  -- rule that was approved matches its credit. The list of a sum names each settlement once, with one
  -- exception: with more than 16 candidates it may be three ids a, b, a with a after b in the order of
  -- ids, and the net of a then counts twice. The rails of the evidence pack are rails other than
  -- Razorpay's, and its floats are no NaN.
  pub attribute_all-Warranted :
      (lines : List BankCreditLine) (rules : List ProposedRule) (out : List (RailAttribution F))
      (a : RailAttribution F)
      → NoRazorpay e.pack.rail_keywords
      → attribute_all e o ix lines rules ≡ ok out
      → In a out
      → a.rail ≡ razorpay
      → a.abstained ≡ false
      → Warranted e o ix lines rules a
  unfolding attribute_all apply_rules
  attribute_all-Warranted lines rules out a apart q m rail live =
      let (pairs, k, q1) = bind_returned (attribute_lines e o ix lines) _ q in
      let d : Dict String (RailAttribution F) = apply_approved_rules e.texts lines rules in
      let (b, l, same) =
        In-of_map (override e o ix d) a (reconstruct_splits e o ix pairs)
          (subst (In a) (sym (same_value q1)) m) in
      elim (override_cases e o ix d b) [
        | inl kept_b ↦
            base-Warranted lines rules pairs a apart k
              (subst (LiftedFrom e o ix pairs) (sym (same ∙ kept_b))
                (reconstruct_splits-LiftedFrom e o ix pairs b l))
              rail live
        | inr ruled ↦
            let (_, h) =
              apply_approved_rules-AllRuled e.texts lines rules b.line_key a
                (subst (λ x. In (b.line_key, x) d) (sym same) ruled) in
            elim h [ inl abs ↦ cc (abs, live) | inr r ↦ by_approval r ]
      ]

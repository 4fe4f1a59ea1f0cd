-- ===== src/Attribution/Runs.antt =====
-- engine/attribute.py: proofs about the lines of `attribute_all` and its results.
use mathlib.Core.Path.{subst}
use untangle.Base.{
  ◌≡◌, refl, ap, sym, ◌∙◌, inl, inr, ◌⊎◌, String, Bool-cases, Option-cases, List, [], ◌∷◌, map, In,
}
use untangle.Base.Keys.{Dict, ◌=?◌, lookup, keys, Nodup, string_eq}
use untangle.Base.Dicts.{lookup-In}
use untangle.Base.Floats.{Floats, less}
use untangle.Base.Flow.{ok, bind_returned}
use untangle.Models.{Tier, BankCreditLine, RailAttribution}
use untangle.Reconcile.Total.{Returns}
use untangle.Attribution.Evidence.{ReconIndex}
use untangle.Attribution.Challenger.{has_signal}
use untangle.Attribution.Packs.{evaluate_non_rzp_signals}
use untangle.Attribution.Line.{Engine, LineOptions, attribute_line}
use untangle.Attribution.Splits.{
  Assigned, leg_evidence, lift_all, attrs_of, assignments, reconstruct_splits,
}
use untangle.Attribution.Rules.{ProposedRule, apply_approved_rules}
use untangle.Attribution.Pipeline.{attribute_lines, override, apply_rules, attribute_all}
use untangle.Attribution.Scores.{same_value}
use untangle.Attribution.Total.{attribute_line_total}
use untangle.Attribution.LineKeys.{attribute_line-OnLine, finalize_razorpay-line_key}
use untangle.Attribution.RuleLaws.{apply_approved_rules-AllRuled}

module _ {F : Type 0} ⦃fl : Floats F⦄ (e : Engine F) (o : LineOptions F) (ix : ReconIndex) where
  pub attribute_lines-In :
      (lines : List BankCreditLine) (pairs : List (BankCreditLine × RailAttribution F))
      → attribute_lines e o ix lines ≡ ok pairs
      → (p : BankCreditLine × RailAttribution F) → In p pairs
      → In p.0 lines × (attribute_line e o ix p.0 ≡ ok p.1)
  unfolding attribute_lines
  attribute_lines-In [] pairs q p m = elim (subst (In p) (sym (same_value q)) m) [ ]
  attribute_lines-In (line ∷ lines) pairs q p m =
      let (a, first, q1) = bind_returned (attribute_line e o ix line) _ q in
      let (rest, k, q2) = bind_returned (attribute_lines e o ix lines) _ q1 in
      elim (subst (In p) (sym (same_value q2)) m) [
        | inl s ↦ (
          inl (ap (λ x. x.0) s),
          ap (λ x. attribute_line e o ix x.0) s ∙ (first ∙ ap (λ x. ok x.1) (sym s)),
        )
        | inr n ↦ let (listed, r) = attribute_lines-In lines rest k p n in (inr listed, r)
      ]

  attribute_lines-lines :
      (lines : List BankCreditLine) (pairs : List (BankCreditLine × RailAttribution F))
      → attribute_lines e o ix lines ≡ ok pairs
      → map (λ p. p.0.key) pairs ≡ map (λ l. l.key) lines
  unfolding attribute_lines
  attribute_lines-lines [] pairs q = ap (map (λ p. p.0.key)) (sym (same_value q))
  attribute_lines-lines (line ∷ lines) pairs q =
      let (a, first, q1) = bind_returned (attribute_line e o ix line) _ q in
      let (rest, k, q2) = bind_returned (attribute_lines e o ix lines) _ q1 in
      ap (map (λ p. p.0.key)) (sym (same_value q2))
      ∙ ap (λ xs. line.key ∷ xs) (attribute_lines-lines lines rest k)

  attribute_lines_total :
      (lines : List BankCreditLine)
      → Nodup (keys ix.settlement_net)
      → Returns (attribute_lines e o ix lines)
  unfolding attribute_lines
  attribute_lines_total [] nodup = ([], refl)
  attribute_lines_total (line ∷ lines) nodup =
      let (a, q) = attribute_line_total e o ix line nodup in
      let (rest, k) = attribute_lines_total lines nodup in ((line, a) ∷ rest, rw (q, k) refl)

  -- `attribute_all` always returns.
  pub attribute_all_total :
      (lines : List BankCreditLine) (rules : List ProposedRule)
      → Nodup (keys ix.settlement_net)
      → Returns (attribute_all e o ix lines rules)
  unfolding attribute_all
  attribute_all_total lines rules nodup =
      let (pairs, q) = attribute_lines_total lines nodup in
      (apply_rules e o ix lines rules (reconstruct_splits e o ix pairs), rw q refl)

  -- `override` keeps the verdict, or takes that of the rules.
  pub override_cases :
      (d : Dict String (RailAttribution F)) (a : RailAttribution F)
      → (override e o ix d a ≡ a) ⊎ In (a.line_key, override e o ix d a) d
  unfolding override
  override_cases d a = elim (Option-cases (lookup a.line_key d)) [
    | inl n ↦ inl (rw (n, override) refl)
    | inr (ra, n) ↦
        let m : In (a.line_key, ra) d = lookup-In a.line_key ra d n in
        elim (Bool-cases (has_signal "rule_conflict" ra.evidence)) [
          | inl t ↦ elim (Bool-cases (a.tier =? "A")) [
            | inl u ↦ inl (rw (n, override, t, u) refl)
            | inr f ↦ inr (rw (n, override, t, f) m)
          ]
          | inr f ↦ elim (Bool-cases a.abstained) [
            | inl u ↦ inr (rw (n, override, f, u) m)
            | inr g ↦ inl (rw (n, override, f, g) refl)
          ]
        ]
  ]

  override-line_key :
      (lines : List BankCreditLine) (rules : List ProposedRule) (a : RailAttribution F)
      → (override e o ix (apply_approved_rules e.texts lines rules) a).line_key ≡ a.line_key
  override-line_key lines rules a =
      elim (override_cases (apply_approved_rules e.texts lines rules) a) [
        | inl same ↦ ap (λ x. x.line_key) same
        | inr m ↦ (apply_approved_rules-AllRuled e.texts lines rules a.line_key _ m).0
      ]

  -- The attributions stand beside their lines.
  abbrev Aligned : List (BankCreditLine × RailAttribution F) → Type 0
  Aligned pairs = (p : BankCreditLine × RailAttribution F) → In p pairs → p.1.line_key ≡ p.0.key

  attrs_of-line_key :
      (pairs : List (BankCreditLine × RailAttribution F))
      → Aligned pairs
      → map (λ a. a.line_key) (attrs_of e o ix pairs) ≡ map (λ p. p.0.key) pairs
  attrs_of-line_key [] h = refl
  attrs_of-line_key ((line, a) ∷ pairs) h =
      rw (h (line, a) (inl refl), attrs_of-line_key pairs (λ p m. h p (inr m))) refl

  lift_all-line_key :
      (d : Dict String Assigned) (pairs : List (BankCreditLine × RailAttribution F))
      → Aligned pairs
      → map (λ a. a.line_key) (lift_all e o ix d pairs) ≡ map (λ p. p.0.key) pairs
  unfolding lift_all
  lift_all-line_key d [] h = refl
  lift_all-line_key d ((line, a) ∷ pairs) h =
      let rest = lift_all-line_key d pairs (λ p m. h p (inr m)) in
      elim (Option-cases (lookup line.key d)) [
        | inl n ↦ rw (n, rest, h (line, a) (inl refl)) refl
        | inr (g, n) ↦
            rw
              (
                n,
                rest,
                finalize_razorpay-line_key e o line (evaluate_non_rzp_signals e.texts e.pack line)
                    (leg_evidence e g) (fl.decimal 9000) Tier.tier_c,
              )
              refl
      ]

  reconstruct_splits-line_key :
      (pairs : List (BankCreditLine × RailAttribution F))
      → Aligned pairs
      → map (λ a. a.line_key) (reconstruct_splits e o ix pairs) ≡ map (λ p. p.0.key) pairs
  unfolding reconstruct_splits
  reconstruct_splits-line_key pairs h = elim (Bool-cases (less (fl.decimal 9000) o.threshold)) [
    | inl t ↦ rw t (attrs_of-line_key pairs h)
    | inr f ↦ rw f (lift_all-line_key (assignments e o ix pairs) pairs h)
  ]

  apply_rules-line_key :
      (lines : List BankCreditLine) (rules : List ProposedRule) (base : List (RailAttribution F))
      → map (λ a. a.line_key) (apply_rules e o ix lines rules base) ≡ map (λ a. a.line_key) base
  unfolding apply_rules
  apply_rules-line_key lines rules [] = refl
  apply_rules-line_key lines rules (a ∷ base) =
      rw (override-line_key lines rules a, apply_rules-line_key lines rules base) refl

  -- `attribute_all` gives every line one verdict, on its key, in the order of the lines.
  pub attribute_all-keys :
      (lines : List BankCreditLine) (rules : List ProposedRule) (out : List (RailAttribution F))
      → attribute_all e o ix lines rules ≡ ok out
      → map (λ a. a.line_key) out ≡ map (λ l. l.key) lines
  unfolding attribute_all
  attribute_all-keys lines rules out q =
      let (pairs, k, q1) = bind_returned (attribute_lines e o ix lines) _ q in
      let aligned : Aligned pairs =
        λ p m. attribute_line-OnLine e o p.0 ix p.1 (attribute_lines-In lines pairs k p m).1 in
      ap (map (λ a. a.line_key)) (sym (same_value q1))
      ∙ (apply_rules-line_key lines rules (reconstruct_splits e o ix pairs)
          ∙ (reconstruct_splits-line_key pairs aligned ∙ attribute_lines-lines lines pairs k))

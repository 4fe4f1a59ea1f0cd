-- ===== src/Attribution/Pipeline.antt =====
-- engine/attribute.py: `attribute_all`, every line in turn, the split legs, and the approved rules.
-- The run is one without `global_solver`.
use untangle.Base.{String, none, some, List, [], ◌∷◌, map, if◌then◌else◌}
use untangle.Base.Keys.{Dict, ◌=?◌, lookup, string_eq}
use untangle.Base.Floats.{Floats}
use untangle.Base.Flow.{Result, ok, ◌>>=◌}
use untangle.Models.{BankCreditLine, RailAttribution}
use untangle.Subsets.{ValueError}
use untangle.Attribution.Evidence.{ReconIndex}
use untangle.Attribution.Challenger.{has_signal}
use untangle.Attribution.Line.{Engine, LineOptions, attribute_line}
use untangle.Attribution.Splits.{reconstruct_splits}
use untangle.Attribution.Rules.{ProposedRule, apply_approved_rules}

module _ {F : Type 0} ⦃fl : Floats F⦄ (e : Engine F) (o : LineOptions F) (ix : ReconIndex) where
  -- The list comprehension: the lines with their attributions.
  unfoldable pub attribute_lines :
      List BankCreditLine → Result ValueError (List (BankCreditLine × RailAttribution F))
  unfolding attribute_line
  attribute_lines [] = ok []
  attribute_lines (line ∷ lines) = do
    a ← attribute_line e o ix line
    rest ← attribute_lines lines
    ok ((line, a) ∷ rest)

  -- What the rules make of one attribution.
  unfoldable pub override : Dict String (RailAttribution F) → RailAttribution F → RailAttribution F
  override rule_attrs a = elim (lookup a.line_key rule_attrs) [
    | none ↦ a
    | some ra ↦
        if has_signal "rule_conflict" ra.evidence
        then (if a.tier =? "A" then a else ra)
        else if a.abstained
        then ra
        else a
  ]

  -- With no rules `apply_approved_rules` is empty, and `override` leaves every attribution.
  unfoldable pub apply_rules :
      List BankCreditLine → List ProposedRule → List (RailAttribution F) → List (RailAttribution F)
  unfolding override apply_approved_rules
  apply_rules lines rules base = map (override (apply_approved_rules e.texts lines rules)) base

  unfoldable pub attribute_all :
      List BankCreditLine → List ProposedRule → Result ValueError (List (RailAttribution F))
  unfolding attribute_lines reconstruct_splits apply_rules
  attribute_all lines rules = do
    pairs ← attribute_lines lines
    ok (apply_rules lines rules (reconstruct_splits e o ix pairs))

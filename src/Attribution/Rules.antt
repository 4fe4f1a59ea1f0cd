-- ===== src/Attribution/Rules.antt =====
-- engine/rules.py: rules that a human has to approve before they resolve a line. The clock and the
-- random id are arguments.
use text.Mathlib.Text.{starts_with}
use untangle.Base.{
  ℕ, ltb, String, Bool, true, false, ◌&&◌, ◌||◌, not, Option, none, some, List, [], ◌∷◌, map,
  filter, length, if◌then◌else◌,
}
use untangle.Base.Keys.{Dict, ◌=?◌, insert, contains, to_set, string_eq}
use untangle.Base.Floats.{Floats}
use untangle.Base.Flow.{Result, ok, err}
use untangle.Models.{Tier, tier_value, truthy, BankCreditLine, RailAttribution}
use untangle.Subsets.{text_le}
use untangle.Reconcile.Index.{or_else}
use untangle.Attribution.Texts.{Texts, concat}
use untangle.Attribution.Evidence.{raw_text}
use untangle.Attribution.Signals.{item}
use untangle.Attribution.Setsum.{sort_sids}

pub record ProposedRule : Type 0 where
  pub rule_id : String
  pub version : ℕ
  pub target_rail : String
  pub pattern_type : String
  pub pattern_value : String
  pub created_at : String
  pub proposed_by : String
  pub approved : Bool
  pub approved_by : Option String
  pub approved_at : Option String
  pub rationale : String

pub data RuleError : Type 0 where
  empty_pattern invalid_rail no_approver : RuleError

-- `{r.value for r in Rail if r != Rail.UNKNOWN}`
abbrev pub valid_rails : List String
valid_rails =
    "razorpay_settlement" ∷ "other_gateway" ∷ "direct_upi" ∷ "cod_remittance" ∷ "unrelated" ∷ []

module _ (t : Texts) where
  -- `rid` is the given id, or one that is drawn.
  unfoldable pub propose_rule :
      (target_rail pattern_value pattern_type rationale proposed_by rid now : String)
      → ℕ
      → Result RuleError ProposedRule
  propose_rule target_rail pattern_value pattern_type rationale proposed_by rid now version =
      let cleaned = t.lower (t.strip pattern_value) in
      if cleaned =? ""
      then err empty_pattern
      else if not (contains target_rail valid_rails)
      then err invalid_rail
      else ok (record {
        rule_id = rid;
        version = version;
        target_rail = target_rail;
        pattern_type = pattern_type;
        pattern_value = cleaned;
        created_at = now;
        proposed_by = proposed_by;
        approved = false;
        approved_by = none;
        approved_at = none;
        rationale = rationale;
      })

  unfoldable pub approve_rule :
      ProposedRule → (approver now : String) → Result RuleError ProposedRule
  approve_rule rule approver now =
      if (approver =? "") || (t.strip approver =? "")
      then err no_approver
      else ok (record rule {
        approved = true;
        approved_by = some (t.strip approver);
        approved_at = some now;
      })

  unfoldable pub match_rule : BankCreditLine → ProposedRule → Bool
  match_rule line rule =
      let pattern = t.lower rule.pattern_value in
      if not rule.approved
      then false
      else if rule.pattern_type =? "narration_keyword"
      then t.keyword_in pattern (t.lower (raw_text t line))
      else if rule.pattern_type =? "bank_ref_prefix"
      then truthy line.bank_ref && starts_with (t.lower (or_else "" line.bank_ref)) pattern
      else false

  unfoldable pub insert_rule : ProposedRule → List ProposedRule → List ProposedRule
  insert_rule r [] = r ∷ []
  insert_rule r (q ∷ qs) =
      let rest = insert_rule r qs in if text_le r.rule_id q.rule_id then r ∷ q ∷ qs else q ∷ rest

  unfoldable pub sort_rules : List ProposedRule → List ProposedRule
  unfolding insert_rule
  sort_rules [] = []
  sort_rules (r ∷ rs) = insert_rule r (sort_rules rs)

  abbrev pub matching : List ProposedRule → BankCreditLine → List ProposedRule
  matching approved line = sort_rules (filter (match_rule line) approved)

  module _ {F : Type 0} ⦃fl : Floats F⦄ where
    abbrev pub conflict : BankCreditLine → List ProposedRule → RailAttribution F
    conflict line matched = record {
      line_key = line.key;
      rail = "UNKNOWN";
      confidence = fl.decimal 0;
      tier = tier_value Tier.no_tier;
      evidence =
          item "rule_conflict"
            (concat (
              "conflicting approved rules target "
              ∷ t.show_list (sort_sids (to_set (map (λ r. r.target_rail) matched)))
              ∷ ": "
              ∷ t.show_list (sort_sids (map (λ r. r.rule_id) matched))
              ∷ []))
            0
          ∷ [];
      abstained = true;
      llm_used = false;
      proof_margin = none;
      competing_explanation = none;
    }

    abbrev pub by_rule : BankCreditLine → ProposedRule → RailAttribution F
    by_rule line rule = record {
      line_key = line.key;
      rail = rule.target_rail;
      confidence = fl.decimal 9500;
      tier = tier_value Tier.rule;
      evidence =
          item "human_approved_rule"
            (concat (
              "Matched rule "
              ∷ rule.rule_id
              ∷ " (pattern '"
              ∷ rule.pattern_value
              ∷ "') approved by "
              ∷ or_else "None" rule.approved_by
              ∷ []))
            9500
          ∷ [];
      abstained = false;
      llm_used = false;
      proof_margin = none;
      competing_explanation = none;
    }

    -- What the matching rules make of a line, in the order of their ids.
    unfoldable pub resolve : BankCreditLine → List ProposedRule → Option (RailAttribution F)
    unfolding sort_sids
    resolve line [] = none
    resolve line (rule ∷ rules) =
        if ltb 1 (length (to_set (map (λ r. r.target_rail) (rule ∷ rules))))
        then some (conflict line (rule ∷ rules))
        else some (by_rule line rule)

    abbrev pub resolve_line :
        List ProposedRule
        → BankCreditLine
        → Dict String (RailAttribution F)
        → Dict String (RailAttribution F)
    resolve_line approved line out =
        if not line.is_credit then out else elim (resolve line (matching approved line)) [
          | none ↦ out
          | some a ↦ insert line.key a out
        ]

    unfoldable pub resolve_lines :
        List ProposedRule
        → Dict String (RailAttribution F)
        → List BankCreditLine
        → Dict String (RailAttribution F)
    unfolding resolve sort_rules match_rule
    resolve_lines approved out [] = out
    resolve_lines approved out (line ∷ lines) =
        resolve_lines approved (resolve_line approved line out) lines

    unfoldable pub apply_approved_rules :
        List BankCreditLine → List ProposedRule → Dict String (RailAttribution F)
    unfolding resolve_lines
    apply_approved_rules lines rules = elim (filter (λ r. r.approved) rules) [
      | [] ↦ []
      | r ∷ rs ↦ resolve_lines (r ∷ rs) [] lines
    ]

-- ===== src/Attribution/Line.antt =====
-- engine/attribute.py: `_finalize_razorpay` and `attribute_line`, the verdict on one line.
use untangle.Base.{
  String, Bool, true, false, ◌&&◌, ◌||◌, not, Option, none, some, List, [], ◌∷◌, ◌++◌, any,
  if◌then◌else◌,
}
use untangle.Base.Keys.{Dict, ◌=?◌, insert, contains, string_eq}
use untangle.Base.Floats.{Floats, less, lex}
use untangle.Base.Flow.{Result, ok, ◌>>=◌}
use untangle.Models.{
  Rail, rail_value, Tier, tier_value, BankCreditLine, EvidenceItem, RailAttribution,
  CompetingExplanation, Explanation, challenged,
}
use untangle.Subsets.{ValueError, text_le}
use untangle.Attribution.Texts.{Texts}
use untangle.Attribution.Evidence.{ReconIndex}
use untangle.Attribution.Packs.{NarrationEvidencePack, evaluate_non_rzp_signals}
use untangle.Attribution.Signals.{item, razorpay_signals}
use untangle.Attribution.Combine.{combine}
use untangle.Attribution.Challenger.{
  ChallengerResult, has_signal, challenge_razorpay, max_challenges,
}
use untangle.Attribution.Setsum.{setsum_evidence}

abbrev pub hard_rzp_signals : List String
hard_rzp_signals = "utr_exact" ∷ "utr_suffix" ∷ "setsum" ∷ []

abbrev pub rzp_tie_signals : List String
rzp_tie_signals = "utr_exact" ∷ "utr_suffix" ∷ "setsum" ∷ "amount_corr" ∷ []

-- What a run works with: the texts, the pack, and the text of the note on a low margin.
pub record Engine (F : Type 0) : Type 0 where
  pub texts : Texts
  pub pack : NarrationEvidencePack F
  pub margin_note : F → F → String → String

-- The options of `attribute_line`.
pub record LineOptions (F : Type 0) : Type 0 where
  pub threshold : F
  pub margin_threshold : F
  pub audit : Bool

module _ {F : Type 0} where
  abbrev pub any_signal : List String → List (EvidenceItem F) → Bool
  any_signal names evidence = any (λ e. contains e.signal names) evidence

  abbrev pub attribution :
      BankCreditLine → String → F → Tier → List (EvidenceItem F) → RailAttribution F
  attribution line rail confidence tier evidence = record {
    line_key = line.key;
    rail = rail;
    confidence = confidence;
    tier = tier_value tier;
    evidence = evidence;
    abstained = false;
    llm_used = false;
    proof_margin = none;
    competing_explanation = none;
  }

  abbrev pub abstention : BankCreditLine → F → List (EvidenceItem F) → RailAttribution F
  abstention line confidence evidence =
      record (attribution line "UNKNOWN" confidence Tier.no_tier evidence) { abstained = true }

-- An entry of `scores`.
pub record Scored (F : Type 0) : Type 0 where
  pub score : F
  pub evidence : List (EvidenceItem F)
  pub tier : Tier

-- The evidence for Razorpay after Tier C, with its flags `rzp_hard` and `tier_used`.
pub record Razorpay (F : Type 0) : Type 0 where
  pub evidence : List (EvidenceItem F)
  pub hard : Bool
  pub tier : Tier

-- What the branch on the set-sum does: return an abstention, or go on.
pub data AfterSetsum (F : Type 0) : Type 0 where
  undecided : List (EvidenceItem F) → AfterSetsum F
  go_on : Razorpay F → AfterSetsum F

abbrev pub is_empty : {A : Type 0} → List A → Bool
is_empty [] = true
is_empty (_ ∷ _) = false

module _ {F : Type 0} ⦃fl : Floats F⦄ where
  -- `strongest.as_dict()`
  abbrev pub explanation_of : Option (CompetingExplanation F) → Option (Explanation F)
  explanation_of none = none
  explanation_of (some c) = some (challenged (record c { score = fl.round 6 c.score }))

  abbrev pub operator_of : Option (CompetingExplanation F) → String
  operator_of none = "none"
  operator_of (some c) = c.operator

  abbrev pub with_margin : RailAttribution F → ChallengerResult F → RailAttribution F
  with_margin accept res = record accept {
    proof_margin = some res.proof_margin;
    competing_explanation = explanation_of res.strongest;
  }

  module _ (e : Engine F) (o : LineOptions F) (line : BankCreditLine)
      (non_rzp : List (Rail × List (EvidenceItem F))) where
    abbrev pub challenge : List (EvidenceItem F) → F → ChallengerResult F
    challenge rzp_ev rzp_score = challenge_razorpay combine rzp_ev non_rzp rzp_score max_challenges

    unfoldable pub finalize_razorpay : List (EvidenceItem F) → F → Tier → RailAttribution F
    unfolding challenge_razorpay
    finalize_razorpay rzp_ev rzp_score tier =
        let accept = attribution line "razorpay_settlement" rzp_score tier rzp_ev in
        let res = challenge rzp_ev rzp_score in
        if fl.leq o.margin_threshold (fl.decimal 0)
        then (if o.audit then with_margin accept res else accept)
        else if res.truncated || less res.proof_margin o.margin_threshold
        then record (abstention line rzp_score (
            rzp_ev
            ++ item "proof_margin_low"
                (e.margin_note res.proof_margin o.margin_threshold (operator_of res.strongest)) 0
              ∷ [])) {
                proof_margin = some res.proof_margin;
                competing_explanation = explanation_of res.strongest;
              }
        else with_margin accept res

  -- `(kv[1][0], kv[0])` of two entries: the score before the rail.
  abbrev pub entry_le : String × Scored F → String × Scored F → Bool
  entry_le x y = lex (fl.leq x.1.score y.1.score) (fl.leq y.1.score x.1.score) (text_le x.0 y.0)

  unfoldable pub best_of : String × Scored F → List (String × Scored F) → String × Scored F
  best_of best [] = best
  best_of best (x ∷ xs) = best_of (if entry_le x best then best else x) xs

  unfoldable pub non_rzp_scores : List (Rail × List (EvidenceItem F)) → Dict String (Scored F)
  non_rzp_scores [] = []
  non_rzp_scores ((rail, items) ∷ rails) =
      (rail_value rail, record { score = combine items; evidence = items; tier = Tier.tier_b })
      ∷ non_rzp_scores rails

  -- The verdict on a debit.
  unfoldable pub attribute_debit :
      LineOptions F → BankCreditLine → Dict String (Scored F) → RailAttribution F
  unfolding best_of
  attribute_debit o line [] = abstention line (fl.decimal 0) []
  attribute_debit o line (x ∷ xs) =
      let (rail, s) = best_of x xs in
      if less s.score o.threshold
      then abstention line s.score s.evidence
      else attribution line rail s.score Tier.tier_b s.evidence

  module _ (rzp_ev : List (EvidenceItem F)) (non_rzp : List (Rail × List (EvidenceItem F))) where
    abbrev pub unchanged_ev : Bool → AfterSetsum F
    unchanged_ev hard = go_on (record { evidence = rzp_ev; hard = hard; tier = Tier.tier_b })

    unfoldable pub apply_setsum : Option (List (EvidenceItem F)) → AfterSetsum F
    apply_setsum none = unchanged_ev false
    apply_setsum (some setsum) =
        if (has_signal "setsum_unenumerable" setsum
            || has_signal "multiple_satisfying_subsets" setsum)
          && is_empty non_rzp
        then undecided (rzp_ev ++ setsum)
        else if not (has_signal "multiple_satisfying_subsets" setsum)
            && (not (is_empty rzp_ev) && is_empty non_rzp)
        then go_on (record { evidence = rzp_ev ++ setsum; hard = true; tier = Tier.tier_c })
        else unchanged_ev false

  -- `rzp_score`, with the precision guard and the proof gate.
  abbrev pub gated_score : List (Rail × List (EvidenceItem F)) → Razorpay F → F
  gated_score non_rzp r =
      if not (is_empty non_rzp) && not r.hard
      then fl.decimal 0
      else if not (any_signal rzp_tie_signals r.evidence)
      then fl.decimal 0
      else combine r.evidence

  abbrev pub add_razorpay : F → Razorpay F → Dict String (Scored F) → Dict String (Scored F)
  add_razorpay score r scores =
      if less (fl.decimal 0) score
      then insert "razorpay_settlement"
          (record {
            score = score;
            evidence = r.evidence;
            tier = if r.hard then r.tier else Tier.tier_b;
          })
          scores
      else scores

  module _ (e : Engine F) (o : LineOptions F) (line : BankCreditLine)
      (non_rzp : List (Rail × List (EvidenceItem F))) where
    unfoldable pub decide : List (EvidenceItem F) → Dict String (Scored F) → RailAttribution F
    unfolding best_of finalize_razorpay
    decide rzp_ev [] = abstention line (fl.decimal 0) rzp_ev
    decide rzp_ev (x ∷ xs) =
        let (rail, s) = best_of x xs in
        if less s.score o.threshold
        then abstention line s.score s.evidence
        else if rail =? "razorpay_settlement"
        then finalize_razorpay e o line non_rzp s.evidence s.score s.tier
        else attribution line rail s.score Tier.tier_b s.evidence

    unfoldable pub score_rails : Razorpay F → RailAttribution F
    unfolding decide non_rzp_scores
    score_rails r =
        decide r.evidence (add_razorpay (gated_score non_rzp r) r (non_rzp_scores non_rzp))

    abbrev pub after_setsum : AfterSetsum F → RailAttribution F
    after_setsum (undecided ev) = abstention line (fl.decimal 0) ev
    after_setsum (go_on r) = score_rails r

    unfoldable pub attribute_credit : ReconIndex → Result ValueError (RailAttribution F)
    unfolding finalize_razorpay apply_setsum score_rails setsum_evidence razorpay_signals
    attribute_credit ix =
        let rzp_ev = razorpay_signals e.texts ix line e.pack in
        if has_signal "utr_exact" rzp_ev
        then ok (finalize_razorpay e o line non_rzp rzp_ev (combine rzp_ev) Tier.tier_a)
        else if any_signal hard_rzp_signals rzp_ev
        then ok (score_rails (record { evidence = rzp_ev; hard = true; tier = Tier.tier_b }))
        else setsum_evidence e.texts ix line >>= λ setsum.
            ok (after_setsum (apply_setsum rzp_ev non_rzp setsum))

  unfoldable pub attribute_line :
      Engine F → LineOptions F → ReconIndex → BankCreditLine → Result ValueError (RailAttribution F)
  unfolding attribute_credit attribute_debit non_rzp_scores evaluate_non_rzp_signals
  attribute_line e o ix line =
      let non_rzp = evaluate_non_rzp_signals e.texts e.pack line in
      if not line.is_credit
      then ok (attribute_debit o line (non_rzp_scores non_rzp))
      else attribute_credit e o line non_rzp ix

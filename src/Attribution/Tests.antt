-- ===== src/Attribution/Tests.antt =====
-- Concrete runs of the attribution.
use untangle.Base.{
  length, ◌≡◌, refl, inl, inr, String, true, false, none, List, [], ◌∷◌, map, In, ◌++◌,
}
use untangle.Base.Int.{ℤ, pos, ◌+ℤ◌, ◌-ℤ◌}
use untangle.Base.Flow.{ok}
use untangle.Models.{BankCreditLine, EvidenceItem, RailAttribution}
use untangle.Reconcile.Total.{Returns}
use untangle.Attribution.Evidence.{recon_index}
use untangle.Attribution.Line.{attribute_line}
use untangle.Attribution.Pipeline.{attribute_all}
use untangle.Subsets.Combinations.{combinations}
use untangle.Attribution.Combine.{combine}
use untangle.Attribution.Tie.{Tied}
use untangle.Base.Keys.{Nodup, keys, string_eq}
use untangle.Fixtures.{twins, tallied}
use untangle.Reconcile.Index.{settlement_index}
use untangle.Attribution.IndexAgree.{report, recon_index-settlement_index}
use untangle.Attribution.Splits.{reconstruct_splits}
use untangle.Attribution.Lifted.{LiftedFrom, reconstruct_splits-LiftedFrom}
use untangle.Attribution.Challenger.{
  ChallengerResult, challenge_razorpay, max_challenges, observed_rails, ablate_all, ablations_for,
}
use untangle.Attribution.Challenges.{IsCut, IsVerdict, challenge_razorpay-bounds}
use untangle.Attribution.Scores.{NoRazorpay}
use untangle.Attribution.Gate.{attribute_line-Tied}
use untangle.Attribution.Proven.{Warranted, attribute_all-Warranted}
use untangle.Attribution.Runs.{attribute_all_total, attribute_all-keys}
use untangle.Attribution.Examples.{
  decimals, decimals-IsOrder, plain, engine, options, small_index, utr_credit, two_legs, leg,
  small_pack,
}

pack-NoRazorpay : NoRazorpay small_pack.rail_keywords
pack-NoRazorpay = (λ e. cc e, tt)

abbrev utr_evidence : List (EvidenceItem ℤ)
utr_evidence =
    record {
      signal = "utr_exact";
      detail = "UTR 1234567890abcdef matches a settlement_utr";
      weight = pos 9500;
    }
    ∷ record {
      signal = "amount_corr";
      detail = "credit equals settlement net for  settlement(s) within value-date window";
      weight = pos 5000;
    }
    ∷ record {
      signal = "value_date_proximity";
      detail = "value_date within 3d of settled_at";
      weight = pos 2000;
    }
    ∷ []

abbrev accepted : RailAttribution ℤ
accepted = record {
  line_key = "line_1";
  rail = "razorpay_settlement";
  confidence = pos 9760;
  tier = "A";
  evidence = utr_evidence;
  abstained = false;
  llm_used = false;
  proof_margin = none;
  competing_explanation = none;
}

accepts : attribute_line engine options small_index utr_credit ≡ ok accepted
unfolding attribute_line recon_index combine ◌+ℤ◌ ◌-ℤ◌
accepts = refl

attribute_line-Tied_example : (utr_credit.is_credit ≡ true) × Tied plain small_index utr_credit
attribute_line-Tied_example =
    attribute_line-Tied decimals-IsOrder engine options small_index utr_credit accepted
      pack-NoRazorpay accepts refl refl

abbrev lifted_leg : String → RailAttribution ℤ
lifted_leg key = record {
  line_key = key;
  rail = "razorpay_settlement";
  confidence = pos 9000;
  tier = "C";
  evidence =
      record {
        signal = "split_reconstruction";
        detail =
            "1 of  bank legs whose amounts uniquely sum to exactly the settlement net for setl_a";
        weight = pos 9000;
      }
      ∷ [];
  abstained = false;
  llm_used = false;
  proof_margin = none;
  competing_explanation = none;
}

abbrev lifted_legs : List (RailAttribution ℤ)
lifted_legs = lifted_leg "line_1" ∷ lifted_leg "line_2" ∷ []

lifts : attribute_all engine options small_index two_legs [] ≡ ok lifted_legs
unfolding attribute_all recon_index combine combinations ◌+ℤ◌ ◌-ℤ◌
lifts = refl

attribute_all-Warranted_example :
    Warranted engine options small_index two_legs [] (lifted_leg "line_1")
attribute_all-Warranted_example =
    attribute_all-Warranted decimals-IsOrder engine options small_index two_legs [] lifted_legs
      (lifted_leg "line_1") pack-NoRazorpay lifts (inl refl) refl refl

attribute_all-keys_example : map (λ a. a.line_key) lifted_legs ≡ map (λ l. l.key) two_legs
attribute_all-keys_example =
    attribute_all-keys engine options small_index two_legs [] lifted_legs lifts

index-Nodup : Nodup (keys small_index.settlement_net)
unfolding recon_index ◌+ℤ◌ ◌-ℤ◌
index-Nodup = (refl, tt)

attribute_all_total_example : Returns (attribute_all engine options small_index two_legs [])
attribute_all_total_example = attribute_all_total engine options small_index two_legs [] index-Nodup

-- A verdict that left a leg open.
abbrev open_leg : String → RailAttribution ℤ
open_leg key = record (lifted_leg key) {
  rail = "UNKNOWN";
  tier = "none";
  evidence = [];
  abstained = true;
}

abbrev open_pairs : List (BankCreditLine × RailAttribution ℤ)
open_pairs = (leg "line_1" 900, open_leg "line_1") ∷ (leg "line_2" 1060, open_leg "line_2") ∷ []

relifts : In (lifted_leg "line_2") (reconstruct_splits engine options small_index open_pairs)
unfolding reconstruct_splits recon_index combine combinations ◌+ℤ◌ ◌-ℤ◌
relifts = inr (inl refl)

reconstruct_splits-LiftedFrom_example :
    LiftedFrom engine options small_index open_pairs (lifted_leg "line_2")
reconstruct_splits-LiftedFrom_example =
    reconstruct_splits-LiftedFrom engine options small_index open_pairs (lifted_leg "line_2")
      relifts

abbrev challenged_utr : ChallengerResult ℤ
challenged_utr = challenge_razorpay combine utr_evidence [] (pos 9760) max_challenges

challenge_razorpay-bounds_example :
    (challenged_utr.challenges_evaluated ≡ length challenged_utr.challenges)
    × IsCut max_challenges
        (observed_rails combine [] ++ ablate_all combine utr_evidence (ablations_for utr_evidence))
        challenged_utr
    × IsVerdict challenged_utr.challenges challenged_utr.strongest challenged_utr.competing_score
challenge_razorpay-bounds_example =
    challenge_razorpay-bounds decimals-IsOrder combine utr_evidence [] (pos 9760) max_challenges

recon_index-settlement_index_example :
    ((recon_index plain (report twins)).utr_to_sid
      ≡ (settlement_index tallied plain.lower twins).utr_to_sid)
    × ((recon_index plain (report twins)).settlement_net
        ≡ (settlement_index tallied plain.lower twins).net_by_sid)
    × ((recon_index plain (report twins)).settlement_date
        ≡ (settlement_index tallied plain.lower twins).date_by_sid)
    × ((recon_index plain (report twins)).net_to_settlements
        ≡ (settlement_index tallied plain.lower twins).net_to_sids)
recon_index-settlement_index_example = recon_index-settlement_index plain tallied twins

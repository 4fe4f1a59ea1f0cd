-- ===== src/Attribution/Packs.antt =====
-- engine/packs.py: the narration rules of an evidence pack.
use untangle.Base.{
  String, Bool, false, ◌&&◌, ◌||◌, not, Option, none, some, List, [], ◌∷◌, ◌++◌, any, find,
  if◌then◌else◌,
}
use untangle.Base.Keys.{◌=?◌, string_eq, pair_eq}
use untangle.Models.{Rail, rail_value, BankCreditLine, EvidenceItem}
use untangle.Attribution.Texts.{Texts, concat, occurs}
use untangle.Attribution.Evidence.{raw_text}

pub record NarrationEvidencePack (F : Type 0) : Type 0 where
  pub pack_id : String
  pub version : String
  pub schema_version : String
  pub description : String
  pub rail_keywords : List (Rail × List String)
  pub decoy_markers : List String
  pub rzp_brand : List String
  pub rzp_context : List String
  pub rzp_ifsc : String
  pub non_rzp_pattern_weight : F
  pub rzp_brand_context_weight : F
  pub rzp_brand_weak_weight : F
  pub rzp_ifsc_weight : F
  pub settlement_ref_weight : F

module _ (t : Texts) {F : Type 0} (p : NarrationEvidencePack F) (line : BankCreditLine) where
  abbrev pub low_text : String
  low_text = t.lower (t.normalize (raw_text t line))

  abbrev pub pattern_hit : Rail → String → Rail × List (EvidenceItem F)
  pattern_hit rail hit = (
    rail,
    record {
      signal = concat ("narration_pattern:" ∷ rail_value rail ∷ []);
      detail = concat ("narration contains " ∷ t.quote hit ∷ []);
      weight = p.non_rzp_pattern_weight;
    }
        ∷ [],
  )

  -- The loop over the rails; a rail stands once among the keys of the dict. `if hit` passes over an
  -- empty keyword.
  unfoldable pub evaluate_rails : List (Rail × List String) → List (Rail × List (EvidenceItem F))
  unfolding find
  evaluate_rails [] = []
  evaluate_rails ((rail, words) ∷ rails) =
      let rest = evaluate_rails rails in
      elim (find (λ kw. occurs kw low_text) words) [
        | none ↦ rest
        | some hit ↦ if hit =? "" then rest else pattern_hit rail hit ∷ rest
      ]

  unfoldable pub evaluate_non_rzp_signals : List (Rail × List (EvidenceItem F))
  unfolding evaluate_rails
  evaluate_non_rzp_signals = evaluate_rails p.rail_keywords

  unfoldable pub has_decoy_marker : Option String
  unfolding find
  has_decoy_marker = find (λ marker. occurs marker low_text) p.decoy_markers

  -- The truth of `decoy`: an empty marker is false.
  abbrev pub is_decoy : Option String → Bool
  is_decoy none = false
  is_decoy (some marker) = not (marker =? "")

  abbrev pub has_brand : Bool
  has_brand = any (λ b. occurs b low_text) p.rzp_brand

  abbrev pub has_ifsc : Bool
  has_ifsc = occurs p.rzp_ifsc low_text

  abbrev pub has_context : Bool
  has_context = any (λ c. occurs c low_text) p.rzp_context

  abbrev pub brand_signal : List (EvidenceItem F)
  brand_signal =
      if has_brand && has_context
      then record {
        signal = "narration_brand_rzp";
        detail = "razorpay brand + settlement context";
        weight = p.rzp_brand_context_weight;
      }
        ∷ []
      else if has_brand
      then record {
        signal = "narration_brand_rzp";
        detail = "razorpay brand token (weak)";
        weight = p.rzp_brand_weak_weight;
      }
        ∷ []
      else []

  abbrev pub ifsc_signal : List (EvidenceItem F)
  ifsc_signal =
      if has_ifsc
      then record {
        signal = "ifsc_ratn";
        detail = "RATN0000088 (Razorpay RBL settlement IFSC)";
        weight = p.rzp_ifsc_weight;
      }
        ∷ []
      else []

  abbrev pub reference_signal : Bool → Bool → List (EvidenceItem F)
  reference_signal has_tokens matched_exact_utr =
      if (has_brand || has_ifsc) && (has_tokens && not matched_exact_utr)
      then record {
        signal = "settlement_ref";
        detail = "UTR-shaped transfer reference with a Razorpay identity token";
        weight = p.settlement_ref_weight;
      }
        ∷ []
      else []

  unfoldable pub evaluate_rzp_narration_signals :
      (has_tokens matched_exact_utr : Bool) → List (EvidenceItem F)
  unfolding has_decoy_marker
  evaluate_rzp_narration_signals has_tokens matched_exact_utr =
      if is_decoy has_decoy_marker
      then []
      else brand_signal ++ (ifsc_signal ++ reference_signal has_tokens matched_exact_utr)

-- ===== src/Attribution/Challenger.antt =====
-- engine/challenger.py: the counterfactual explanations of a Razorpay verdict, and its proof margin.
use untangle.Base.{
  ℕ, ltb, String, Bool, true, false, not, Option, none, some, List, [], ◌∷◌, ◌++◌, filter, any,
  length, take, if◌then◌else◌,
}
use untangle.Base.Keys.{◌=?◌, contains, string_eq}
use untangle.Base.Floats.{Floats, lex, max_float}
use untangle.Models.{Rail, rail_value, EvidenceItem, CompetingExplanation}
use untangle.Subsets.{text_le}
use untangle.Attribution.Texts.{concat}

abbrev pub utr_signals : List String
utr_signals = "utr_exact" ∷ "utr_suffix" ∷ "utr_suffix_weak" ∷ []

abbrev pub amount_signal_names : List String
amount_signal_names = "amount_corr" ∷ "amount_corr_multi" ∷ []

abbrev pub sum_signals : List String
sum_signals = "setsum" ∷ "split_reconstruction" ∷ []

abbrev pub all_tie_signals : List String
all_tie_signals = utr_signals ++ (amount_signal_names ++ sum_signals)

abbrev pub max_challenges : ℕ
max_challenges = 16

pub record ChallengerResult (F : Type 0) : Type 0 where
  pub rzp_score : F
  pub competing_score : F
  pub proof_margin : F
  pub strongest : Option (CompetingExplanation F)
  pub challenges_evaluated : ℕ
  pub truncated : Bool
  pub challenges : List (CompetingExplanation F)

-- An entry of `ablations`.
pub record Ablation : Type 0 where
  pub operator : String
  pub drop : List String
  pub detail : String

abbrev pub has_signal : {F : Type 0} → String → List (EvidenceItem F) → Bool
has_signal s evidence = any (λ e. e.signal =? s) evidence

abbrev pub is_razorpay : Rail → Bool
is_razorpay Rail.razorpay_settlement = true
is_razorpay _ = false

module _ {F : Type 0} ⦃fl : Floats F⦄ (combine : List (EvidenceItem F) → F) where
  abbrev pub without : List (EvidenceItem F) → List String → List (EvidenceItem F)
  without evidence drop = filter (λ e. not (contains e.signal drop)) evidence

  -- Empty when nothing was removed.
  unfoldable pub ablation : List (EvidenceItem F) → Ablation → List (CompetingExplanation F)
  ablation evidence a = elim (filter (λ s. has_signal s evidence) a.drop) [
    | [] ↦ []
    | s ∷ ss ↦
        record {
          operator = a.operator;
          rail = "razorpay_settlement";
          score = combine (without evidence a.drop);
          detail = a.detail;
          removed_signals = s ∷ ss;
        }
        ∷ []
  ]

  abbrev pub observed : Rail → List (EvidenceItem F) → List (CompetingExplanation F)
  observed rail [] = []
  observed rail (e ∷ es) =
      if is_razorpay rail
      then []
      else record {
        operator = "observed_competing_rail";
        rail = rail_value rail;
        score = combine (e ∷ es);
        detail = concat ("distinctive " ∷ rail_value rail ∷ " narration remains plausible" ∷ []);
        removed_signals = [];
      }
        ∷ []

  unfoldable pub observed_rails :
      List (Rail × List (EvidenceItem F)) → List (CompetingExplanation F)
  observed_rails [] = []
  observed_rails ((rail, items) ∷ rails) = observed rail items ++ observed_rails rails

  unfoldable pub ablate_all : List (EvidenceItem F) → List Ablation → List (CompetingExplanation F)
  unfolding ablation
  ablate_all evidence [] = []
  ablate_all evidence (a ∷ as') = ablation evidence a ++ ablate_all evidence as'

abbrev pub drop_suffix : Ablation
drop_suffix = record {
  operator = "drop_suffix";
  drop = "utr_suffix" ∷ "utr_suffix_weak" ∷ [];
  detail = "score without the corroborated UTR suffix";
}

abbrev pub drop_exact_identifier : Ablation
drop_exact_identifier = record {
  operator = "drop_exact_identifier";
  drop = utr_signals;
  detail = "score without any UTR-identifier tie (leans on resemblance)";
}

abbrev pub later_ablations : List Ablation
later_ablations =
    record {
      operator = "drop_amount_tie";
      drop = amount_signal_names;
      detail = "score without the amount-to-settlement tie";
    }
    ∷ record {
      operator = "drop_setsum";
      drop = sum_signals;
      detail = "score without the reconstructed set-sum";
    }
    ∷ record {
      operator = "drop_time_proximity";
      drop = "value_date_proximity" ∷ [];
      detail = "score without settlement-date proximity";
    }
    ∷ record {
      operator = "unlinked_rzp";
      drop = all_tie_signals;
      detail = "resemblance only — every genuine tie removed";
    }
    ∷ []

abbrev pub ablations_for : {F : Type 0} → List (EvidenceItem F) → List Ablation
ablations_for evidence =
    if has_signal "utr_exact" evidence
    then drop_exact_identifier ∷ later_ablations
    else drop_exact_identifier ∷ drop_suffix ∷ later_ablations

module _ {F : Type 0} where
  -- The key of the sort, `(c.operator, c.rail, c.detail)`.
  abbrev pub key_le : CompetingExplanation F → CompetingExplanation F → Bool
  key_le c d =
      lex (text_le c.operator d.operator) (text_le d.operator c.operator)
        (lex (text_le c.rail d.rail) (text_le d.rail c.rail) (text_le c.detail d.detail))

  unfoldable pub insert_challenge :
      CompetingExplanation F → List (CompetingExplanation F) → List (CompetingExplanation F)
  insert_challenge c [] = c ∷ []
  insert_challenge c (d ∷ ds) =
      let rest = insert_challenge c ds in if key_le c d then c ∷ d ∷ ds else d ∷ rest

  unfoldable pub sort_challenges : List (CompetingExplanation F) → List (CompetingExplanation F)
  unfolding insert_challenge
  sort_challenges [] = []
  sort_challenges (c ∷ cs) = insert_challenge c (sort_challenges cs)

module _ {F : Type 0} ⦃fl : Floats F⦄ where
  -- The key of the strongest, `(c.score, c.operator, c.rail, c.detail)`.
  abbrev pub strength_le : CompetingExplanation F → CompetingExplanation F → Bool
  strength_le c d = lex (fl.leq c.score d.score) (fl.leq d.score c.score) (key_le c d)

  unfoldable pub strongest_of :
      CompetingExplanation F → List (CompetingExplanation F) → CompetingExplanation F
  strongest_of best [] = best
  strongest_of best (c ∷ cs) = strongest_of (if strength_le c best then best else c) cs

  abbrev pub strongest_in : List (CompetingExplanation F) → Option (CompetingExplanation F)
  strongest_in [] = none
  strongest_in (c ∷ cs) = some (strongest_of c cs)

  unfoldable pub greatest_score : F → List (CompetingExplanation F) → F
  greatest_score m [] = m
  greatest_score m (c ∷ cs) = greatest_score (max_float m c.score) cs

  -- `max((c.score for c in challenges), default=0.0)`
  abbrev pub competing_score_of : List (CompetingExplanation F) → F
  competing_score_of [] = fl.decimal 0
  competing_score_of (c ∷ cs) = greatest_score c.score cs

  -- `line` and `index`, which the code does not read, are left out.
  unfoldable pub challenge_razorpay :
      (List (EvidenceItem F) → F)
      → List (EvidenceItem F)
      → List (Rail × List (EvidenceItem F))
      → F
      → ℕ
      → ChallengerResult F
  unfolding observed_rails ablate_all sort_challenges strongest_of greatest_score
  challenge_razorpay combine rzp_evidence non_rzp_evidence rzp_score limit =
      let found = sort_challenges (
        observed_rails combine non_rzp_evidence
        ++ ablate_all combine rzp_evidence (ablations_for rzp_evidence)) in
      let truncated = ltb limit (length found) in
      let challenges = if truncated then take limit found else found in
      record {
        rzp_score = rzp_score;
        competing_score = competing_score_of challenges;
        proof_margin = fl.minus rzp_score (competing_score_of challenges);
        strongest = strongest_in challenges;
        challenges_evaluated = length challenges;
        truncated = truncated;
        challenges = challenges;
      }

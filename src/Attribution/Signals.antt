-- ===== src/Attribution/Signals.antt =====
-- engine/evidence.py: `razorpay_signals`, the evidence that a line is a Razorpay settlement.
use untangle.Base.{
  ℕ, ◌==◌, String, Bool, true, false, not, Option, none, some, List, [], ◌∷◌, ◌++◌, find, any,
  length, if◌then◌else◌,
}
use untangle.Base.Int.{pos}
use untangle.Base.Keys.{lookup, string_eq, int_eq}
use untangle.Base.Floats.{Floats}
use untangle.Models.{BankCreditLine, EvidenceItem}
use untangle.Attribution.Texts.{Texts, concat}
use untangle.Attribution.Evidence.{
  ReconIndex, SuffixScan, raw_text, utr_exact, extract_utr_tokens, date_of_utr, date_near,
  scan_suffixes,
}
use untangle.Attribution.Packs.{NarrationEvidencePack, evaluate_rzp_narration_signals}

abbrev pub is_some : Option String → Bool
is_some none = false
is_some (some _) = true

module _ (t : Texts) (ix : ReconIndex) (line : BankCreditLine) where
  abbrev pub line_text : String
  line_text = t.normalize (raw_text t line)

  abbrev pub line_tokens : List String
  line_tokens = extract_utr_tokens t line_text

  unfoldable pub exact_match : Option String
  unfolding find
  exact_match = find (utr_exact t ix) line_tokens

-- Why a suffix counts: the date before the amount.
abbrev pub how : ReconIndex → BankCreditLine → String → String
how ix line u = if date_near line.value_date (date_of_utr ix u) then "value-date" else "amount"

-- `_date_near(line.value_date, [index.settlement_date.get(s) for s in sids])`
abbrev pub any_near : ReconIndex → BankCreditLine → List String → Bool
any_near ix line sids = any (λ s. date_near line.value_date (lookup s ix.settlement_date)) sids

abbrev pub item : {F : Type 0} ⦃fl : Floats F⦄ → String → String → ℕ → EvidenceItem F
item ⦃fl⦄ signal detail weight = record {
  signal = signal;
  detail = detail;
  weight = fl.decimal weight;
}

module _ (t : Texts) {F : Type 0} ⦃fl : Floats F⦄ where
  abbrev pub exact_signal : Option String → List (EvidenceItem F)
  exact_signal none = []
  exact_signal (some tok) =
      item "utr_exact" (concat ("UTR " ∷ tok ∷ " matches a settlement_utr" ∷ [])) 9500 ∷ []

  module _ (ix : ReconIndex) (line : BankCreditLine) where
    abbrev pub suffix_signal : SuffixScan → List (EvidenceItem F)
    suffix_signal SuffixScan.nothing = []
    suffix_signal (SuffixScan.strong tok u) =
        item "utr_suffix"
          (concat (
            "token "
            ∷ t.quote tok
            ∷ " is the unique suffix of settlement_utr "
            ∷ u
            ∷ ", corroborated by "
            ∷ how ix line u
            ∷ []))
          5000
        ∷ []
    suffix_signal (SuffixScan.weak tok u) =
        item "utr_suffix_weak"
          (concat (
            "token "
            ∷ t.quote tok
            ∷ " tails settlement_utr "
            ∷ u
            ∷ " but is uncorroborated (date/amount)"
            ∷ []))
          2000
        ∷ []

    abbrev pub amount_signals : List String → List (EvidenceItem F)
    amount_signals sids =
        item (if length sids == 1 then "amount_corr" else "amount_corr_multi")
          (concat (
            "credit equals settlement net for "
            ∷ t.show (pos (length sids))
            ∷ " settlement(s)"
            ∷ (if any_near ix line sids then " within value-date window" else "")
            ∷ []))
          (if any_near ix line sids then 5000 else 3000)
        ∷ (if any_near ix line sids
            then item "value_date_proximity" "value_date within 3d of settled_at" 2000 ∷ []
            else [])

    -- `if line.is_credit and line.amount_paise in index.net_to_settlements`
    unfoldable pub amount_evidence : List (EvidenceItem F)
    amount_evidence = elim (lookup line.amount_paise ix.net_to_settlements) [
      | none ↦ []
      | some sids ↦ if line.is_credit then amount_signals sids else []
    ]

    unfoldable pub suffix_evidence : Option String → List (EvidenceItem F)
    unfolding scan_suffixes
    suffix_evidence (some _) = []
    suffix_evidence none =
        suffix_signal
          (scan_suffixes t ix line SuffixScan.nothing (t.alnum_matches (line_text t ix line)))

    unfoldable pub razorpay_signals : NarrationEvidencePack F → List (EvidenceItem F)
    unfolding exact_match suffix_evidence amount_evidence evaluate_rzp_narration_signals
    razorpay_signals p =
        let exact = exact_match t ix line in
        exact_signal exact
        ++ (suffix_evidence exact
            ++ (amount_evidence
                ++ evaluate_rzp_narration_signals t p line
                    (not (length (line_tokens t ix line) == 0)) (is_some exact)))

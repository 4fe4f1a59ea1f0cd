-- ===== src/Attribution/Tie.antt =====
-- The ties of a line to the settlement report, and the signals that stand for them.
use untangle.Base.{
  ◌==◌, ◌≤◌, ◌≡◌, refl, ap, ◌∙◌, ◌≢◌, inl, inr, ◌⊎◌, String, Bool, true, false, ◌&&◌, ◌||◌, not,
  Bool-cases, Option, none, some, Option-cases, List, [], ◌∷◌, ◌++◌, map, find-In, length, In,
  arith,
}
use untangle.Base.Int.{sum}
use untangle.Base.Keys.{lookup, contains, string_eq, int_eq}
use untangle.Base.Floats.{Floats}
use untangle.Models.{BankCreditLine, EvidenceItem}
use untangle.Subsets.{Item, item_id}
use untangle.Subsets.Distinct.{Counted}
use untangle.Attribution.Texts.{Texts}
use untangle.Attribution.Evidence.{
  ReconIndex, SuffixScan, utr_exact, utr_suffix_match, corroborated, scan_suffixes, or_weak,
}
use untangle.Attribution.Packs.{
  NarrationEvidencePack, evaluate_rzp_narration_signals, has_decoy_marker, is_decoy, has_brand,
  has_ifsc, has_context, brand_signal, ifsc_signal, reference_signal,
}
use untangle.Attribution.Signals.{
  line_text, line_tokens, exact_match, exact_signal, suffix_signal, suffix_evidence,
  amount_evidence, any_near, is_some, razorpay_signals,
}
use untangle.Attribution.Setsum.{dated_near, parts as pool}
use untangle.Attribution.Line.{any_signal, rzp_tie_signals}

-- A list of two to five settlements whose nets, as often as they are listed, add up to the credit,
-- each settled within the window. A settlement is listed once, but for three ids of more than 16
-- candidates, where the third may be the first again.
pub record IsSplitSum (ix : ReconIndex) (line : BankCreditLine) (parts : List Item) : Type 0 where
  pub several : 2 ≤ length parts
  pub few : length parts ≤ 5
  pub exact : sum (map (λ i. i.1) parts) ≡ line.amount_paise
  pub counted : Counted (length (pool ix line)) (map item_id parts)
  pub each : (i : Item) → In i parts → In i ix.settlement_net × (dated_near ix line i.0 ≡ true)

-- How a line is tied to the report: by a UTR of the report in its text, by the unique end of one whose
-- settlement agrees with it in date or amount, by being the one settlement's net, or by
-- a sum of nets.
pub data Tied (t : Texts) (ix : ReconIndex) (line : BankCreditLine) : Type 0 where
  by_utr :
      (tok : String) → In tok (line_tokens t ix line) → utr_exact t ix tok ≡ true → Tied t ix line
  by_suffix :
      (tok u : String)
      → In tok (t.alnum_matches (line_text t ix line))
      → utr_suffix_match t ix tok ≡ some u
      → corroborated ix line u ≡ true
      → Tied t ix line
  by_amount :
      (sid : String)
      → line.is_credit ≡ true
      → lookup line.amount_paise ix.net_to_settlements ≡ some (sid ∷ [])
      → Tied t ix line
  by_sum : (parts : List Item) → IsSplitSum ix line parts → Tied t ix line

module _ {F : Type 0} where
  pub any_signal-append :
      (names : List String) (xs ys : List (EvidenceItem F))
      → any_signal names (xs ++ ys) ≡ true
      → (any_signal names xs ≡ true) ⊎ (any_signal names ys ≡ true)
  any_signal-append names [] ys h = inr h
  any_signal-append names (x ∷ xs) ys h = elim (Bool-cases (contains x.signal names)) [
    | inl q ↦ inl (rw q refl)
    | inr f ↦ elim (any_signal-append names xs ys (rw f at h)) [
      | inl l ↦ inl (rw f l)
      | inr r ↦ inr r
    ]
  ]

module _ (t : Texts) (ix : ReconIndex) (line : BankCreditLine) where
  exact-Tied : (tok : String) → exact_match t ix line ≡ some tok → Tied t ix line
  unfolding exact_match
  exact-Tied tok e =
      let (m, q) = find-In (utr_exact t ix) (line_tokens t ix line) tok e in by_utr tok m q

  -- A strong suffix is one of the tokens.
  scan-Tied :
      (seen : SuffixScan) (toks : List String) (tok u : String)
      → ((tok' u' : String) → seen ≢ SuffixScan.strong tok' u')
      → ((x : String) → In x toks → In x (t.alnum_matches (line_text t ix line)))
      → scan_suffixes t ix line seen toks ≡ SuffixScan.strong tok u
      → Tied t ix line
  unfolding scan_suffixes
  scan-Tied seen [] tok u weakly within e = absurd (weakly tok u e)
  scan-Tied seen (x ∷ xs) tok u weakly within e = elim (Option-cases (utr_suffix_match t ix x)) [
    | inl n ↦ scan-Tied seen xs tok u weakly (λ y m. within y (inr m)) (rw (scan_suffixes, n) at e)
    | inr (v, n) ↦ elim (Bool-cases (corroborated ix line v)) [
      | inl q ↦ by_suffix x v (within x (inl refl)) n q
      | inr f ↦
          scan-Tied (or_weak seen x v) xs tok u (or_weak-weak seen x v weakly)
            (λ y m. within y (inr m)) (rw (scan_suffixes, n, f) at e)
    ]
  ]
    where
      or_weak-weak :
          (s : SuffixScan) (a b : String)
          → ((tok' u' : String) → s ≢ SuffixScan.strong tok' u')
          → (tok' u' : String) → or_weak s a b ≢ SuffixScan.strong tok' u'
      or_weak-weak SuffixScan.nothing a b h c d q = cc
      or_weak-weak (SuffixScan.weak y z) a b h c d q = cc
      or_weak-weak (SuffixScan.strong y z) a b h c d q = h c d q

one_sid : (sids : List String) → (length sids == 1) ≡ true → (sid : String) × (sids ≡ sid ∷ [])
one_sid [] h = cc
one_sid (s ∷ []) h = (s, refl)
one_sid (s ∷ r ∷ rs) h = absurd (ground arith)

module _ (t : Texts) (F : Type 0) ⦃fl : Floats F⦄ (ix : ReconIndex) (line : BankCreditLine) where
  suffix_signal-strong :
      (s : SuffixScan)
      → any_signal rzp_tie_signals (suffix_signal t {F = F} ix line s) ≡ true
      → (tok : String) × (u : String) × (s ≡ SuffixScan.strong tok u)
  suffix_signal-strong SuffixScan.nothing h = cc
  suffix_signal-strong (SuffixScan.weak tok u) h = cc
  suffix_signal-strong (SuffixScan.strong tok u) h = (tok, u, refl)

  suffix_evidence-Tied :
      (found : Option String)
      → any_signal rzp_tie_signals (suffix_evidence t {F = F} ix line found) ≡ true
      → Tied t ix line
  unfolding suffix_evidence
  suffix_evidence-Tied (some tok) h = cc
  suffix_evidence-Tied none h =
      let (tok, u, e) = suffix_signal-strong _ h in
      scan-Tied t ix line SuffixScan.nothing (t.alnum_matches (line_text t ix line)) tok u
        (λ a b q. cc) (λ x m. m) e

  amount_evidence-Tied :
      any_signal rzp_tie_signals (amount_evidence t {F = F} ix line) ≡ true → Tied t ix line
  unfolding amount_evidence
  amount_evidence-Tied h = elim (Option-cases (lookup line.amount_paise ix.net_to_settlements)) [
    | inl e ↦ cc (rw (amount_evidence, e) at h)
    | inr (sids, e) ↦ elim (Bool-cases line.is_credit) [
      | inr f ↦ cc (rw (amount_evidence, e, f) at h)
      | inl c ↦ elim (Bool-cases (length sids == 1)) [
        | inl one ↦ let (sid, q) = one_sid sids one in by_amount sid c (e ∙ ap some q)
        | inr many ↦ elim (Bool-cases (any_near ix line sids)) [
          | inl n ↦ cc (rw (amount_evidence, e, c, many, n) at h)
          | inr n ↦ cc (rw (amount_evidence, e, c, many, n) at h)
        ]
      ]
    ]
  ]

  -- The rules of a pack give no tie.
  module _ (p : NarrationEvidencePack F) where
    brand-no_tie : any_signal rzp_tie_signals (brand_signal t p line) ≡ false
    brand-no_tie = elim (Bool-cases (has_brand t p line && has_context t p line)) [
      | inl q ↦ rw q refl
      | inr f ↦ elim (Bool-cases (has_brand t p line)) [
        | inl q ↦ rw (f, q) refl
        | inr g ↦ rw (f, g) refl
      ]
    ]

    ifsc-no_tie : any_signal rzp_tie_signals (ifsc_signal t p line) ≡ false
    ifsc-no_tie = elim (Bool-cases (has_ifsc t p line)) [ inl q ↦ rw q refl | inr g ↦ rw g refl ]

    reference-no_tie :
        (x y : Bool) → any_signal rzp_tie_signals (reference_signal t p line x y) ≡ false
    reference-no_tie x y =
        elim (Bool-cases ((has_brand t p line || has_ifsc t p line) && (x && not y))) [
          | inl q ↦ rw q refl
          | inr g ↦ rw g refl
        ]

    narration-no_tie :
        (x y : Bool)
        → any_signal rzp_tie_signals (evaluate_rzp_narration_signals t p line x y) ≡ true
        → ⊥
    unfolding evaluate_rzp_narration_signals
    narration-no_tie x y h = elim (Bool-cases (is_decoy t p line (has_decoy_marker t p line))) [
      | inl e ↦ cc (rw (evaluate_rzp_narration_signals, e) at h)
      | inr e ↦
          elim (any_signal-append rzp_tie_signals (brand_signal t p line) _
            (rw (evaluate_rzp_narration_signals, e) at h)) [
              | inl k ↦ cc (brand-no_tie)
              | inr k ↦ elim (any_signal-append rzp_tie_signals (ifsc_signal t p line) _ k) [
                | inl m ↦ cc (ifsc-no_tie)
                | inr m ↦ cc (reference-no_tie x y)
              ]
            ]
    ]

  pub razorpay_signals-Tied :
      (p : NarrationEvidencePack F)
      → any_signal rzp_tie_signals (razorpay_signals t ix line p) ≡ true
      → Tied t ix line
  unfolding razorpay_signals
  razorpay_signals-Tied p h =
      let found = exact_match t ix line in
      elim (any_signal-append rzp_tie_signals (exact_signal t {F = F} found) _ h) [
        | inl x ↦ elim (Option-cases found) [
          | inl e ↦ cc (rw e at x)
          | inr (tok, e) ↦ exact-Tied t ix line tok e
        ]
        | inr x ↦ elim (any_signal-append rzp_tie_signals (suffix_evidence t ix line found) _ x) [
          | inl y ↦ suffix_evidence-Tied found y
          | inr y ↦ elim (any_signal-append rzp_tie_signals (amount_evidence t ix line) _ y) [
            | inl z ↦ amount_evidence-Tied z
            | inr z ↦
                absurd
                  (narration-no_tie p (not (length (line_tokens t ix line) == 0)) (is_some found) z)
          ]
        ]
      ]

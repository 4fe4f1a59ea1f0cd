-- ===== src/Attribution/Gate.antt =====
-- engine/attribute.py: proofs about the proof gate of `attribute_line`.
use mathlib.Core.Path.{subst}
use untangle.Base.{
  ◌≡◌, refl, ap, sym, ◌∙◌, inl, inr, String, true, false, ◌&&◌, ◌||◌, not, Bool-cases, Option, none,
  some, List, [], ◌∷◌, In, if_true, if_false,
}
use untangle.Base.Keys.{Dict, ◌=?◌, =?_eq, =?_ne, contains, string_eq}
use untangle.Base.Floats.{Floats, IsOrder, less}
use untangle.Base.Flow.{ok, bind_returned}
use untangle.Models.{Rail, Tier, BankCreditLine, EvidenceItem, RailAttribution}
use untangle.Attribution.Evidence.{ReconIndex}
use untangle.Attribution.Packs.{evaluate_non_rzp_signals, evaluate_rails}
use untangle.Attribution.Signals.{razorpay_signals}
use untangle.Attribution.Challenger.{has_signal}
use untangle.Attribution.Setsum.{setsum_evidence}
use untangle.Attribution.Line.{
  Engine, LineOptions, Scored, Razorpay, any_signal, rzp_tie_signals, hard_rzp_signals, is_empty,
  best_of, non_rzp_scores, attribute_debit, apply_setsum, decide, score_rails, after_setsum,
  attribute_credit, attribute_line,
}
use untangle.Attribution.Tie.{Tied, any_signal-append, razorpay_signals-Tied}
use untangle.Attribution.SetsumSound.{setsum_evidence-Tied}
use untangle.Attribution.Scores.{
  same_value, razorpay, NoRazorpay, evaluate_rails-NoRazorpay, best_of-member, non_rzp_scores-no,
  add_razorpay-tie,
}

module _ {F : Type 0} ⦃fl : Floats F⦄ (ordered : IsOrder fl.leq) (e : Engine F) (o : LineOptions F)
    (ix : ReconIndex) (line : BankCreditLine) where
  -- A Razorpay verdict has a tie.
  abbrev pub Gated : RailAttribution F → Type 0
  Gated a = a.rail ≡ razorpay → a.abstained ≡ false → Tied e.texts ix line

  decide-Gated :
      (non_rzp : List (Rail × List (EvidenceItem F))) (rzp_ev : List (EvidenceItem F))
      (scores : Dict String (Scored F))
      → ((s : Scored F) → In (razorpay, s) scores → Tied e.texts ix line)
      → Gated (decide e o line non_rzp rzp_ev scores)
  unfolding decide
  decide-Gated non_rzp rzp_ev [] h rail live = cc live
  decide-Gated non_rzp rzp_ev (x ∷ xs) h rail live =
      let best = best_of x xs in
      let m = best_of-member x xs in
      elim (Bool-cases (less best.1.score o.threshold)) [
        | inl low ↦ cc (rw low at live)
        | inr high ↦ elim (Bool-cases (best.0 =? razorpay)) [
          | inl q ↦ h best.1 (subst (λ n. In (n, best.1) (x ∷ xs)) (=?_eq best.0 razorpay q) m)
          | inr f ↦ absurd (=?_ne best.0 razorpay f (rw (high, f) at rail))
        ]
      ]

  score_rails-Gated :
      (non_rzp : List (Rail × List (EvidenceItem F))) (r : Razorpay F)
      → NoRazorpay non_rzp
      → (any_signal rzp_tie_signals r.evidence ≡ true → Tied e.texts ix line)
      → Gated (score_rails e o line non_rzp r)
  unfolding score_rails
  score_rails-Gated non_rzp r apart h =
      decide-Gated non_rzp r.evidence _ (λ s m. h (add_razorpay-tie ordered non_rzp r s apart m))

  -- What the set-sum adds to the evidence is a tie only where it is a sum of settlements.
  after_setsum-Gated :
      (non_rzp : List (Rail × List (EvidenceItem F))) (found : Option (List (EvidenceItem F)))
      → NoRazorpay non_rzp
      → setsum_evidence e.texts ix line ≡ ok found
      → Gated (
          after_setsum e o line non_rzp
            (apply_setsum (razorpay_signals e.texts ix line e.pack) non_rzp found))
  unfolding apply_setsum
  after_setsum-Gated non_rzp none apart q =
      score_rails-Gated non_rzp _ apart (razorpay_signals-Tied e.texts F ix line e.pack)
  after_setsum-Gated non_rzp (some setsum) apart q =
      let ev = razorpay_signals e.texts ix line e.pack in
      elim (Bool-cases (
        (has_signal "setsum_unenumerable" setsum || has_signal "multiple_satisfying_subsets" setsum)
        && is_empty non_rzp)) [
          | inl t ↦ rw t (λ rail live. cc live)
          | inr f ↦
              elim (Bool-cases (
                not (has_signal "multiple_satisfying_subsets" setsum)
                && (not (is_empty ev) && is_empty non_rzp))) [
                  | inl t ↦
                      rw (f, t)
                        (score_rails-Gated non_rzp _ apart (λ h.
                          elim (any_signal-append rzp_tie_signals ev setsum h) [
                            | inl x ↦ razorpay_signals-Tied e.texts F ix line e.pack x
                            | inr x ↦ setsum_evidence-Tied e.texts F ix line setsum q x
                          ]))
                  | inr g ↦
                      rw (f, g)
                        (score_rails-Gated non_rzp _ apart
                          (razorpay_signals-Tied e.texts F ix line e.pack))
                ]
        ]

  -- The signals that decide at once are ties.
  exact-tie :
      (ev : List (EvidenceItem F))
      → has_signal "utr_exact" ev ≡ true
      → any_signal rzp_tie_signals ev ≡ true
  exact-tie [] h = cc
  exact-tie (x ∷ xs) h = elim (Bool-cases (x.signal =? "utr_exact")) [
    | inl t ↦ rw (=?_eq x.signal "utr_exact" t) refl
    | inr f ↦ elim (Bool-cases (contains x.signal rzp_tie_signals)) [
      | inl u ↦ rw u refl
      | inr g ↦ rw g (exact-tie xs (rw f at h))
    ]
  ]

  attribute_credit-Gated :
      (non_rzp : List (Rail × List (EvidenceItem F))) (a : RailAttribution F)
      → NoRazorpay non_rzp
      → attribute_credit e o line non_rzp ix ≡ ok a
      → Gated a
  unfolding attribute_credit
  attribute_credit-Gated non_rzp a apart q =
      let ev = razorpay_signals e.texts ix line e.pack in
      elim (Bool-cases (has_signal "utr_exact" ev)) [
        | inl t ↦ λ rail live. razorpay_signals-Tied e.texts F ix line e.pack (exact-tie ev t)
        | inr f ↦ elim (Bool-cases (any_signal hard_rzp_signals ev)) [
          | inl t ↦
              let same : score_rails e o line non_rzp
                    (record { evidence = ev; hard = true; tier = Tier.tier_b })
                  ≡ a =
                same_value (rw (f, t) at q) in
              rw same at (
                score_rails-Gated non_rzp
                  (record { evidence = ev; hard = true; tier = Tier.tier_b }) apart
                  (razorpay_signals-Tied e.texts F ix line e.pack))
          | inr g ↦
              let (found, k, last) =
                bind_returned (setsum_evidence e.texts ix line) _ (rw (f, g) at q) in
              rw (same_value last) at (after_setsum-Gated non_rzp found apart k)
        ]
      ]

  debit_never :
      (scores : Dict String (Scored F))
      → ((s : Scored F) → In (razorpay, s) scores → ⊥)
      → (attribute_debit o line scores).rail ≡ razorpay
      → (attribute_debit o line scores).abstained ≡ false
      → ⊥
  unfolding attribute_debit
  debit_never [] h rail live = cc live
  debit_never (x ∷ xs) h rail live =
      let best = best_of x xs in
      elim (Bool-cases (less best.1.score o.threshold)) [
        | inl low ↦ cc (rw low at live)
        | inr high ↦
            h best.1 (subst (λ n. In (n, best.1) (x ∷ xs)) (rw high at rail) (best_of-member x xs))
      ]

  attribute_debit-never :
      (non_rzp : List (Rail × List (EvidenceItem F)))
      → NoRazorpay non_rzp
      → (attribute_debit o line (non_rzp_scores non_rzp)).rail ≡ razorpay
      → (attribute_debit o line (non_rzp_scores non_rzp)).abstained ≡ false
      → ⊥
  attribute_debit-never non_rzp apart rail live =
      debit_never (non_rzp_scores non_rzp) (λ s m. non_rzp_scores-no non_rzp s apart m) rail live

  -- A Razorpay verdict that `attribute_line` does not abstain from is on a credit that is tied to the
  -- report: a UTR of the report in its text, the unique end of one that agrees with its settlement in
  -- date or amount, the net of exactly one settlement, or the summed nets of a list of two to five
  -- settlements in the window. The list names each settlement once, with one exception: with more than
  -- 16 candidates it may be three ids a, b, a with a after b in the order of ids, and the net of a then
  -- counts twice. The rails of the evidence pack are rails other than Razorpay's, and its floats are no
  -- NaN.
  pub attribute_line-Tied :
      (a : RailAttribution F)
      → NoRazorpay e.pack.rail_keywords
      → attribute_line e o ix line ≡ ok a
      → a.rail ≡ razorpay
      → a.abstained ≡ false
      → (line.is_credit ≡ true) × Tied e.texts ix line
  unfolding attribute_line evaluate_non_rzp_signals
  attribute_line-Tied a apart q rail live =
      let non_rzp = evaluate_rails e.texts e.pack line e.pack.rail_keywords in
      let others = evaluate_rails-NoRazorpay e.texts e.pack line e.pack.rail_keywords apart in
      elim (Bool-cases line.is_credit) [
        | inl credit ↦ (
          credit,
          attribute_credit-Gated non_rzp a others
              (sym (if_false (not line.is_credit) _ _ (ap not credit)) ∙ q) rail live,
        )
        | inr debit ↦
            let same : attribute_debit o line (non_rzp_scores non_rzp) ≡ a =
              same_value (sym (if_true (not line.is_credit) _ _ (ap not debit)) ∙ q) in
            absurd (
              attribute_debit-never non_rzp others (ap (λ x. x.rail) same ∙ rail)
                (ap (λ x. x.abstained) same ∙ live))
      ]

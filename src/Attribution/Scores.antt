-- ===== src/Attribution/Scores.antt =====
-- engine/attribute.py: proofs about the scores of the rails.
use untangle.Base.{
  ◌≡◌, ◌≢◌, refl, ap, sym, ◌∙◌, inl, inr, ◌⊎◌, String, true, false, ◌&&◌, not, Bool-cases,
  Option-cases, List, [], ◌∷◌, find, In, if◌then◌else◌, arith,
}
use untangle.Base.Keys.{◌=?◌, string_eq}
use untangle.Base.Floats.{Floats, IsOrder, less}
use untangle.Base.Flow.{Result, ok}
use untangle.Models.{Rail, rail_value, BankCreditLine, EvidenceItem}
use untangle.Subsets.{ValueError}
use untangle.Attribution.Texts.{Texts, occurs}
use untangle.Attribution.Packs.{NarrationEvidencePack, evaluate_rails, low_text}
use untangle.Attribution.Line.{
  Scored, Razorpay, any_signal, rzp_tie_signals, is_empty, best_of, entry_le, non_rzp_scores,
  gated_score, add_razorpay,
}

pub same_value : {A : Type 0} {a b : A} → ◌≡◌ {A = Result ValueError A} (ok a) (ok b) → a ≡ b
same_value e = ground arith

abbrev pub razorpay : String
razorpay = "razorpay_settlement"

-- No rail of the list is Razorpay's.
abbrev pub NoRazorpay {κ} : {B : Type κ} → List (Rail × B) → Type κ
NoRazorpay [] = Unit
NoRazorpay ((rail, _) ∷ rails) = (rail_value rail ≢ razorpay) × NoRazorpay rails

module _ {F : Type 0} (t : Texts) (p : NarrationEvidencePack F) (line : BankCreditLine) where
  pub evaluate_rails-NoRazorpay :
      (rails : List (Rail × List String))
      → NoRazorpay rails
      → NoRazorpay (evaluate_rails t p line rails)
  unfolding evaluate_rails
  evaluate_rails-NoRazorpay [] h = tt
  evaluate_rails-NoRazorpay ((rail, words) ∷ rails) h =
      elim (Option-cases (find (λ kw. occurs kw (low_text t p line)) words)) [
        | inl e ↦ rw (evaluate_rails, e) (evaluate_rails-NoRazorpay rails h.1)
        | inr (hit, e) ↦ elim (Bool-cases (hit =? "")) [
          | inl empty ↦ rw (evaluate_rails, e, empty) (evaluate_rails-NoRazorpay rails h.1)
          | inr word ↦ rw (evaluate_rails, e, word) (h.0, evaluate_rails-NoRazorpay rails h.1)
        ]
      ]

module _ {F : Type 0} ⦃fl : Floats F⦄ where
  best_of-In :
      (best : String × Scored F) (xs : List (String × Scored F))
      → (best_of best xs ≡ best) ⊎ In (best_of best xs) xs
  unfolding best_of
  best_of-In best [] = inl refl
  best_of-In best (x ∷ xs) = elim (best_of-In (if entry_le x best then best else x) xs) [
    | inr m ↦ inr (inr m)
    | inl e ↦ elim (Bool-cases (entry_le x best)) [
      | inl keep ↦ inl (e ∙ rw keep refl)
      | inr take ↦ inr (inl (e ∙ rw take refl))
    ]
  ]

  pub best_of-member :
      (best : String × Scored F) (xs : List (String × Scored F)) → In (best_of best xs) (best ∷ xs)
  best_of-member best xs = elim (best_of-In best xs) [ inl e ↦ inl e | inr m ↦ inr m ]

  pub non_rzp_scores-no :
      (rails : List (Rail × List (EvidenceItem F))) (s : Scored F)
      → NoRazorpay rails
      → In (razorpay, s) (non_rzp_scores rails)
      → ⊥
  unfolding non_rzp_scores
  non_rzp_scores-no [] s h m = elim m [ ]
  non_rzp_scores-no ((rail, items) ∷ rails) s h (inl e) = h.0 (sym (ap (λ x. x.0) e))
  non_rzp_scores-no ((rail, items) ∷ rails) s h (inr m) = non_rzp_scores-no rails s h.1 m

  -- A score above zero has passed the gate.
  module _ (ordered : IsOrder fl.leq) where
    less_irrefl : (x : F) → less x x ≡ false
    less_irrefl x = elim (Bool-cases (fl.leq x x)) [
      | inl t ↦ rw t refl
      | inr f ↦ cc (ordered.total x x f)
    ]

    gated_score-tie :
        (non_rzp : List (Rail × List (EvidenceItem F))) (r : Razorpay F)
        → less (fl.decimal 0) (gated_score non_rzp r) ≡ true
        → any_signal rzp_tie_signals r.evidence ≡ true
    gated_score-tie non_rzp r h = elim (Bool-cases (any_signal rzp_tie_signals r.evidence)) [
      | inl t ↦ t
      | inr f ↦ elim (Bool-cases (not (is_empty non_rzp) && not r.hard)) [
        | inl g ↦ cc (rw g at h, less_irrefl (fl.decimal 0))
        | inr g ↦ cc (rw (g, f) at h, less_irrefl (fl.decimal 0))
      ]
    ]

    pub add_razorpay-tie :
        (non_rzp : List (Rail × List (EvidenceItem F))) (r : Razorpay F) (s : Scored F)
        → NoRazorpay non_rzp
        → In (razorpay, s) (add_razorpay (gated_score non_rzp r) r (non_rzp_scores non_rzp))
        → any_signal rzp_tie_signals r.evidence ≡ true
    add_razorpay-tie non_rzp r s apart m =
        elim (Bool-cases (less (fl.decimal 0) (gated_score non_rzp r))) [
          | inl t ↦ gated_score-tie non_rzp r t
          | inr f ↦ absurd (non_rzp_scores-no non_rzp s apart (rw f at m))
        ]

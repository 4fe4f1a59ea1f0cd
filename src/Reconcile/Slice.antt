-- ===== src/Reconcile/Slice.antt =====
-- The proven Razorpay slice, and what happens in it to credits that contest a settlement.
use untangle.Base.{
  ℕ, ◌≡◌, ◌≢◌, refl, ap, sym, ◌∙◌, inl, inr, String, false, ◌&&◌, not, some, Bool-cases,
  Option-cases, List, [], ◌∷◌, filter, In, In-map, In-filter, arith,
}
use untangle.Base.Keys.{Dict, ◌=?◌, =?_eq, lookup, contains, string_eq}
use untangle.Base.Dicts.{not_contains}
use untangle.Base.Flow.{ok, Result, bind_returned}
use untangle.Models.{BankCreditLine, RailAttribution}
use untangle.Subsets.{ValueError}
use untangle.Covered.{Row, Signature}
use untangle.Reconcile.Index.{utr_sid, settlement_index}
use untangle.Reconcile.Passes.{
  Claim, start, group_claims, pass_1, pass_2, is_left, Reconciled, close, reconcile_slice,
  razorpay_slice, reconcile,
}
use untangle.Reconcile.Duplicates.{SetAside, pass_2-SetAside}
use untangle.Reconcile.Contested.{pass_1-SetAside, classify-aside}

module _ {F : Type 0} where
  -- The claim is the line under its key, and an attribution of it to Razorpay did not abstain.
  abbrev pub Attributed : Dict String BankCreditLine → List (RailAttribution F) → Claim → Type 0
  Attributed lines attributions c =
      (lookup c.0 lines ≡ some c.1)
      × ((a : RailAttribution F) × In a attributions
          × (a.line_key ≡ c.0)
          × (a.rail ≡ "razorpay_settlement")
          × (a.abstained ≡ false))

  -- A claim of the slice is the line under its key, for an attribution to Razorpay that stands.
  pub razorpay_slice_sound :
      (lines : Dict String BankCreditLine) (attributions : List (RailAttribution F)) (c : Claim)
      → In c (razorpay_slice lines attributions)
      → Attributed lines attributions c
  unfolding razorpay_slice
  razorpay_slice_sound lines [] c m = elim m [ ]
  razorpay_slice_sound lines (a ∷ rest) c m =
      elim (Bool-cases ((a.rail =? "razorpay_settlement") && not a.abstained)) [
        | inl t ↦ elim (Option-cases (lookup a.line_key lines)) [
          | inl none_there ↦
              later (razorpay_slice_sound lines rest c (rw (t, none_there, razorpay_slice) at m))
          | inr (line, there) ↦ elim (rw (t, there, razorpay_slice) at m) [
            | inl e ↦ (
              ap (λ (d : Claim). lookup d.0 lines) e ∙ there ∙ ap (λ (d : Claim). some d.1) (sym e),
              (
                a,
                inl refl,
                ap (λ (d : Claim). d.0) (sym e),
                =?_eq a.rail "razorpay_settlement" (ground arith),
                ground arith,
              ),
            )
            | inr n ↦ later (razorpay_slice_sound lines rest c n)
          ]
        ]
        | inr f ↦ later (razorpay_slice_sound lines rest c (rw (f, razorpay_slice) at m))
      ]
    where
      later : Attributed lines rest c → Attributed lines (a ∷ rest) c
      later (found, (b, i, k, r, s)) = (found, (b, inr i, k, r, s))

  razorpay_slice_functional :
      (lines : Dict String BankCreditLine) (attributions : List (RailAttribution F)) (c d : Claim)
      → In c (razorpay_slice lines attributions)
      → In d (razorpay_slice lines attributions)
      → c.0 ≡ d.0
      → c ≡ d
  razorpay_slice_functional lines attributions c d m n e =
      let (fc, _) = razorpay_slice_sound lines attributions c m in
      let (fd, _) = razorpay_slice_sound lines attributions d n in
      let same : some c.1 ≡ some d.1 = sym fc ∙ ap (λ (k : String). lookup k lines) e ∙ fd in
      ground arith

  module _ (fingerprint : Signature → ℕ → String) (lower : String → String)
      (tokens : BankCreditLine → List String) (lines : Dict String BankCreditLine)
      (attributions : List (RailAttribution F)) (rows : List Row) where
    -- When the UTRs of two different lines of the slice name one settlement, neither line is
    -- reconciled: both are unresolved and reported as a duplicate or split payout.
    pub contested_set_aside :
        (out : Reconciled) (c d : Claim) (sid : String)
        → reconcile tokens fingerprint lower lines attributions rows ≡ ok out
        → In c (razorpay_slice lines attributions)
        → In d (razorpay_slice lines attributions)
        → c.0 ≢ d.0
        → utr_sid tokens (settlement_index fingerprint lower rows) c.1 ≡ some sid
        → utr_sid tokens (settlement_index fingerprint lower rows) d.1 ≡ some sid
        → In c.0 out.unresolved × In c.0 out.marks.duplicate_or_split_lines
    unfolding reconcile reconcile_slice close
    contested_set_aside out c d sid h m n ne tc td =
        let s = settlement_index fingerprint lower rows in
        let rzp = razorpay_slice lines attributions in
        let first = pass_1 tokens s start (group_claims tokens s [] rzp) in
        let (p, e, closed) = bind_returned (pass_2 tokens s first rzp) _ h in
        let aside : SetAside c.0 p = pass_2-SetAside tokens s c.0 first p rzp e (
          pass_1-SetAside tokens s rzp c d sid (razorpay_slice_functional lines attributions) m n ne
            tc td) in
        let free : contains c.0 p.resolved ≡ false = not_contains c.0 p.resolved aside.1 in
        rw (← out_eq (close tokens s rzp p) out closed) (
          In-map (λ (x : Claim). x.0) c _ (In-filter (is_left p.resolved) c rzp m (rw free refl)),
          classify-aside tokens s c.0 p.marks (filter (is_left p.resolved) rzp) aside.0,
        )
      where
        out_eq : (a b : Reconciled) → ◌≡◌ {A = Result ValueError Reconciled} (ok a) (ok b) → a ≡ b
        out_eq a b e = ground arith

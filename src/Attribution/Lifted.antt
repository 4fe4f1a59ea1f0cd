-- ===== src/Attribution/Lifted.antt =====
-- engine/attribute.py: proofs about `reconstruct_splits` as a whole.
use mathlib.Core.Path.{subst}
use untangle.Base.{
  ltb, ◌≡◌, refl, ap, sym, ◌∙◌, inl, inr, ◌⊎◌, String, true, Bool-cases, &&-left, &&-right,
  Option-cases, List, [], ◌∷◌, any, length, In, In-append_cases, In-of_map,
}
use untangle.Base.Keys.{lookup, keys, string_eq}
use untangle.Base.Dicts.{lookup-In}
use untangle.Base.Floats.{Floats, less}
use untangle.Models.{BankCreditLine, RailAttribution}
use untangle.Subsets.Combinations.{Sublist}
use untangle.Subsets.Legacy.{same_set}
use untangle.Attribution.Evidence.{ReconIndex}
use untangle.Attribution.Setsum.{sort_sids}
use untangle.Attribution.Line.{Engine, LineOptions}
use untangle.Attribution.Splits.{
  Match, Candidates, FoundMatches, Assigned, keys_of, sums_to, split_drift, eligible_legs,
  match_settlement, match_all, is_strong, is_skipped, is_oversized, is_candidate, collect,
  collect_step, lift_leg, lift_all, assignments, reconstruct_splits,
}
use untangle.Attribution.SplitLegs.{IsSplit, match_all-AllSplits, FromMatch, assign_all-AllFrom}
use untangle.Attribution.SplitUnique.{match_all-only}

module _ (ix : ReconIndex) (cands : List BankCreditLine) where
  match_settlement-sid :
      (ms : FoundMatches) (sid : String) (m : Match)
      → In m (match_settlement ix cands ms sid).matches
      → In m ms.matches ⊎ (m.0 ≡ sid)
  unfolding match_settlement
  match_settlement-sid ms sid m k = elim (Bool-cases (is_skipped ix cands sid)) [
    | inl t ↦ inl (rw t at k)
    | inr f ↦ elim (Bool-cases (is_oversized ix cands sid)) [
      | inl t ↦ inl (rw (f, t) at k)
      | inr g ↦ elim (In-append_cases m ms.matches _ (rw (f, g) at k)) [
        | inl l ↦ inl l
        | inr l ↦ let (sub, n, e) = In-of_map (λ sub. (sid, sub)) m _ l in inr (ap (λ x. x.0) e)
      ]
    ]
  ]

  match_all-sid :
      (sids : List String) (ms : FoundMatches) (m : Match)
      → In m (match_all ix cands ms sids).matches
      → In m ms.matches ⊎ In m.0 sids
  unfolding match_all
  match_all-sid [] ms m k = inl k
  match_all-sid (sid ∷ sids) ms m k =
      elim (match_all-sid sids (match_settlement ix cands ms sid) m k) [
        | inr l ↦ inr (inr l)
        | inl l ↦ elim (match_settlement-sid ms sid m l) [ inl n ↦ inl n | inr e ↦ inr (inl e) ]
      ]

module _ {F : Type 0} ⦃fl : Floats F⦄ (e : Engine F) (o : LineOptions F) (ix : ReconIndex)
    (pairs : List (BankCreditLine × RailAttribution F)) where
  -- A candidate is a line that had been left open, has no competing rail, and looks like Razorpay's.
  abbrev pub OpenCandidate : BankCreditLine → Type 0
  OpenCandidate c = (a : RailAttribution F) × In (c, a) pairs × (is_candidate e ix (c, a) ≡ true)

  abbrev pub pool_of : Candidates
  pool_of = collect e ix (record { lines = []; sig_by_key = [] }) pairs

  -- The line of a key is a leg of a split of a settlement that no other choice of candidates makes up.
  pub record IsSplitLeg (key : String) : Type 0 where
    pub found : Match
    pub leg : BankCreditLine
    pub is_its_leg : In leg found.1
    pub same_key : key ≡ leg.key
    pub split : IsSplit ix pool_of.lines found
    pub legs_open : (c : BankCreditLine) → In c found.1 → OpenCandidate c
    pub strong : any (is_strong pool_of) found.1 ≡ true
    pub only :
        (c : List BankCreditLine)
        → Sublist c (eligible_legs ix pool_of.lines found.0 split.net)
        → (length c ≡ 2) ⊎ (length c ≡ 3)
        → sums_to split.net split_drift c ≡ true
        → same_set (keys_of found.1) (keys_of c) ≡ true

  collect_step-In :
      (acc : Candidates) (line : BankCreditLine) (a : RailAttribution F) (c : BankCreditLine)
      → In (line, a) pairs
      → In c (collect_step e ix acc (line, a)).lines
      → In c acc.lines ⊎ OpenCandidate c
  collect_step-In acc line a c listed m = elim (Bool-cases (is_candidate e ix (line, a))) [
    | inr f ↦ inl (rw f at m)
    | inl t ↦ elim (In-append_cases c acc.lines (line ∷ []) (rw t at m)) [
      | inl l ↦ inl l
      | inr (inl q) ↦ inr (subst OpenCandidate (sym q) (a, listed, t))
      | inr (inr x) ↦ elim x [ ]
    ]
  ]

  collect-In :
      (rest : List (BankCreditLine × RailAttribution F)) (acc : Candidates) (c : BankCreditLine)
      → ((p : BankCreditLine × RailAttribution F) → In p rest → In p pairs)
      → In c (collect e ix acc rest).lines
      → In c acc.lines ⊎ OpenCandidate c
  unfolding collect
  collect-In [] acc c sub m = inl m
  collect-In ((line, a) ∷ rest) acc c sub m =
      elim (collect-In rest (collect_step e ix acc (line, a)) c (λ p k. sub p (inr k)) m) [
        | inr o ↦ inr o
        | inl k ↦ collect_step-In acc line a c (sub (line, a) (inl refl)) k
      ]

  pool_of-OpenCandidate : (c : BankCreditLine) → In c pool_of.lines → OpenCandidate c
  pool_of-OpenCandidate c m = elim (collect-In pairs _ c (λ p k. k) m) [
    | inl k ↦ elim k [ ]
    | inr o ↦ o
  ]

  abbrev matched : FoundMatches
  matched =
      match_all ix pool_of.lines (record { matches = []; poisoned = [] })
        (sort_sids (keys ix.settlement_net))

  FromMatch-IsSplitLeg :
      (key : String) (g : Assigned) → FromMatch ix pool_of matched key g → IsSplitLeg key
  FromMatch-IsSplitLeg key g w =
      let split =
        match_all-AllSplits ix pool_of.lines (record { matches = []; poisoned = [] })
          (sort_sids (keys ix.settlement_net)) (λ m k. elim k [ ]) w.found w.listed in
      let listed : In w.found.0 (sort_sids (keys ix.settlement_net)) =
        elim (match_all-sid ix pool_of.lines (sort_sids (keys ix.settlement_net))
          (record { matches = []; poisoned = [] }) w.found w.listed) [
            | inl k ↦ elim k [ ]
            | inr k ↦ k
          ] in
      record {
        found = w.found;
        leg = w.leg;
        is_its_leg = w.is_its_leg;
        same_key = w.same_key;
        split = split;
        legs_open = λ c m. pool_of-OpenCandidate c (split.chosen c m).0;
        strong = &&-right _ _ (&&-right _ _ w.unique);
        only = λ c s n near.
            match_all-only ix pool_of.lines (sort_sids (keys ix.settlement_net))
              (record { matches = []; poisoned = [] }) w.found c w.listed listed split.tried.0
              split.tried.1 (&&-left _ _ w.unique)
              (subst (λ v. Sublist c (eligible_legs ix pool_of.lines w.found.0 v)) (sym split.known)
                s)
              n (ap (λ v. sums_to v split_drift c) split.known ∙ near);
      }

  assignments-IsSplitLeg :
      (key : String) (g : Assigned) → In (key, g) (assignments e o ix pairs) → IsSplitLeg key
  assignments-IsSplitLeg key g m = elim (Bool-cases (ltb (length pool_of.lines) 2)) [
    | inl t ↦ absurd (rw t at m)
    | inr f ↦ FromMatch-IsSplitLeg key g (
        assign_all-AllFrom ix pool_of matched [] matched.matches (λ m k. k) (λ key g k. elim k [ ])
          key g (rw f at m))
  ]

  -- Where an attribution of the result comes from: the line itself, or a lift of one of its legs.
  pub data LiftedFrom (r : RailAttribution F) : Type 0 where
    kept : (line : BankCreditLine) → In (line, r) pairs → LiftedFrom r
    lifted :
        (line : BankCreditLine) (a : RailAttribution F) (g : Assigned)
        → In (line, a) pairs
        → r ≡ lift_leg e o ix line g
        → IsSplitLeg line.key
        → LiftedFrom r

  lift_all-LiftedFrom :
      (rest : List (BankCreditLine × RailAttribution F)) (r : RailAttribution F)
      → ((p : BankCreditLine × RailAttribution F) → In p rest → In p pairs)
      → In r (lift_all e o ix (assignments e o ix pairs) rest)
      → LiftedFrom r
  unfolding lift_all
  lift_all-LiftedFrom [] r sub m = elim m [ ]
  lift_all-LiftedFrom ((line, a) ∷ rest) r sub (inr m) =
      lift_all-LiftedFrom rest r (λ p k. sub p (inr k)) m
  lift_all-LiftedFrom ((line, a) ∷ rest) r sub (inl q) =
      elim (Option-cases (lookup line.key (assignments e o ix pairs))) [
        | inl n ↦
            kept line (subst (λ x. In (line, x) pairs) (sym (rw n at q)) (sub (line, a) (inl refl)))
        | inr (g, n) ↦
            lifted line a g (sub (line, a) (inl refl)) (rw n at q)
              (assignments-IsSplitLeg line.key g (lookup-In line.key g _ n))
      ]

  -- An attribution that `reconstruct_splits` gives is one it was given, or the lift of a line that is a leg
  -- of a split: two or three of the lines that were left open, of which one has a strong signal, whose
  -- amounts add up to the net of a dated settlement within a rupee, and no other two or three of those near
  -- the settlement's date do.
  pub reconstruct_splits-LiftedFrom :
      (r : RailAttribution F) → In r (reconstruct_splits e o ix pairs) → LiftedFrom r
  unfolding reconstruct_splits
  reconstruct_splits-LiftedFrom r m = elim (Bool-cases (less (fl.decimal 9000) o.threshold)) [
    | inl t ↦
        let ((line, a), k, q) = In-of_map (λ p. p.1) r pairs (rw t at m) in
        kept line (subst (λ x. In (line, x) pairs) (sym q) k)
    | inr f ↦ lift_all-LiftedFrom pairs r (λ p k. k) (rw f at m)
  ]

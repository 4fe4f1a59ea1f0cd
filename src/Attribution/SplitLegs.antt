-- ===== src/Attribution/SplitLegs.antt =====
-- engine/attribute.py: proofs about the matches of `reconstruct_splits` and their legs.
use untangle.Base.{
  ℕ, ◌≡◌, refl, ap, ◌∙◌, inl, inr, ◌⊎◌, String, true, false, ◌&&◌, not, Bool-cases, &&-left, List,
  [], ◌∷◌, ◌++◌, any, length, In, In-append_cases, In-of_map, In-of_filter, arith,
}
use untangle.Base.Int.{ℤ, pos, ◌<ℤ◌}
use untangle.Base.Keys.{Dict, lookup, string_eq}
use untangle.Base.Dicts.{In-of_insert}
use untangle.Models.{BankCreditLine}
use untangle.Subsets.Combinations.{Sublist, Sublist-In, combinations, combinations_sound}
use untangle.Subsets.Legacy.{same_set}
use untangle.Reconcile.Index.{or_else}
use untangle.Attribution.Evidence.{ReconIndex}
use untangle.Attribution.Splits.{
  Match, Candidates, FoundMatches, Assigned, keys_of, sums_to, split_drift, keep_combo, keep_combos,
  all_sum_subsets, is_leg, is_skipped, is_oversized, eligible_legs, match_settlement, match_all,
  is_unique, assign_legs, assign_all,
}

-- Two or three of the credits, whose amounts add up to the net of a settlement but for the drift.
pub record IsSplit (ix : ReconIndex) (cands : List BankCreditLine) (m : Match) : Type 0 where
  pub net : ℤ
  pub known : or_else (pos 0) (lookup m.0 ix.settlement_net) ≡ net
  pub positive : pos 0 <ℤ net
  pub near_net : sums_to net split_drift m.1 ≡ true
  pub chosen : (c : BankCreditLine) → In c m.1 → In c cands × (is_leg ix m.0 net c ≡ true)
  pub size : (length m.1 ≡ 2) ⊎ (length m.1 ≡ 3)
  pub tried : (is_skipped ix cands m.0 ≡ false) × (is_oversized ix cands m.0 ≡ false)

module _ (target : ℤ) (tol : ℕ) where
  keep_combo-In :
      (out : List (List BankCreditLine)) (combo c : List BankCreditLine)
      → In c (keep_combo target tol out combo)
      → In c out ⊎ ((c ≡ combo) × (sums_to target tol c ≡ true))
  keep_combo-In out combo c m =
      elim (Bool-cases
        (sums_to target tol combo && not (any (λ d. same_set (keys_of d) (keys_of combo)) out))) [
          | inr f ↦ inl (rw f at m)
          | inl t ↦ elim (In-append_cases c out (combo ∷ []) (rw t at m)) [
            | inl k ↦ inl k
            | inr (inl q) ↦ inr (q, ap (sums_to target tol) q ∙ &&-left _ _ t)
            | inr (inr k) ↦ elim k [ ]
          ]
        ]

  keep_combos-In :
      (combos out : List (List BankCreditLine)) (c : List BankCreditLine)
      → In c (keep_combos target tol out combos)
      → In c out ⊎ (In c combos × (sums_to target tol c ≡ true))
  unfolding keep_combos
  keep_combos-In [] out c m = inl m
  keep_combos-In (combo ∷ combos) out c m =
      elim (keep_combos-In combos (keep_combo target tol out combo) c m) [
        | inr (k, t) ↦ inr (inr k, t)
        | inl k ↦ elim (keep_combo-In out combo c k) [ inl l ↦ inl l | inr (q, t) ↦ inr (inl q, t) ]
      ]

all_sum_subsets-In :
    (items : List BankCreditLine) (target : ℤ) (tol : ℕ) (c : List BankCreditLine)
    → In c (all_sum_subsets items target tol)
    → ((length c ≡ 2) ⊎ (length c ≡ 3)) × Sublist c items × (sums_to target tol c ≡ true)
unfolding all_sum_subsets
all_sum_subsets-In items target tol c m =
    elim (keep_combos-In target tol (combinations 2 items ++ combinations 3 items) [] c m) [
      | inl k ↦ elim k [ ]
      | inr (k, t) ↦ elim (In-append_cases c (combinations 2 items) (combinations 3 items) k) [
        | inl l ↦ let (s, n) = combinations_sound 2 c items l in (inl n, s, t)
        | inr l ↦ let (s, n) = combinations_sound 3 c items l in (inr n, s, t)
      ]
    ]

module _ (ix : ReconIndex) (cands : List BankCreditLine) where
  abbrev pub AllSplits : FoundMatches → Type 0
  AllSplits ms = (m : Match) → In m ms.matches → IsSplit ix cands m

  match_settlement-AllSplits :
      (ms : FoundMatches) (sid : String)
      → AllSplits ms
      → AllSplits (match_settlement ix cands ms sid)
  unfolding match_settlement
  match_settlement-AllSplits ms sid h =
      let net = or_else (pos 0) (lookup sid ix.settlement_net) in
      let elig = eligible_legs ix cands sid net in
      elim (Bool-cases (is_skipped ix cands sid)) [
        | inl t ↦ λ m k. h m (rw t at k)
        | inr f ↦ elim (Bool-cases (is_oversized ix cands sid)) [
          | inl t ↦ λ m k. h m (rw (f, t) at k)
          | inr g ↦ λ m k. elim (In-append_cases m ms.matches _ (rw (f, g) at k)) [
            | inl l ↦ h m l
            | inr l ↦
                let (sub, n, e) =
                  In-of_map (λ sub. (sid, sub)) m (all_sum_subsets elig net split_drift) l in
                let (size, chosen, near) = all_sum_subsets-In elig net split_drift sub n in
                rw e (record {
                  net = net;
                  known = refl;
                  positive = ground arith;
                  near_net = near;
                  chosen = λ c x. In-of_filter (is_leg ix sid net) c cands (Sublist-In c chosen x);
                  size = size;
                  tried = (f, g);
                })
          ]
        ]
      ]

  pub match_all-AllSplits :
      (ms : FoundMatches) (sids : List String)
      → AllSplits ms
      → AllSplits (match_all ix cands ms sids)
  unfolding match_all
  match_all-AllSplits ms [] h = h
  match_all-AllSplits ms (sid ∷ sids) h =
      match_all-AllSplits (match_settlement ix cands ms sid) sids
        (match_settlement-AllSplits ms sid h)

module _ (ix : ReconIndex) (c : Candidates) (ms : FoundMatches) where
  -- An entry of `assigned` comes from a unique match that has a leg of that key.
  pub record FromMatch (key : String) (g : Assigned) : Type 0 where
    pub found : Match
    pub listed : In found ms.matches
    pub unique : is_unique c ms found ≡ true
    pub leg : BankCreditLine
    pub is_its_leg : In leg found.1
    pub same_key : key ≡ leg.key

  abbrev pub AllFrom : Dict String Assigned → Type 0
  AllFrom d = (key : String) (g : Assigned) → In (key, g) d → FromMatch key g

  assign_legs-AllFrom :
      (m : Match) (legs : List BankCreditLine) (d : Dict String Assigned)
      → In m ms.matches
      → is_unique c ms m ≡ true
      → ((l : BankCreditLine) → In l legs → In l m.1)
      → AllFrom d
      → AllFrom (assign_legs ix c ms m legs d)
  assign_legs-AllFrom m [] d k u sub h = h
  assign_legs-AllFrom m (leg ∷ legs) d k u sub h =
      assign_legs-AllFrom m legs _ k u (λ l n. sub l (inr n))
        (λ key g n. elim (In-of_insert leg.key key _ g d n) [
          | inl (q, _) ↦ record {
            found = m;
            listed = k;
            unique = u;
            leg = leg;
            is_its_leg = sub leg (inl refl);
            same_key = q;
          }
          | inr l ↦ h key g l
        ])

  pub assign_all-AllFrom :
      (d : Dict String Assigned) (rest : List Match)
      → ((m : Match) → In m rest → In m ms.matches)
      → AllFrom d
      → AllFrom (assign_all ix c ms d rest)
  unfolding assign_all
  assign_all-AllFrom d [] sub h = h
  assign_all-AllFrom d (m ∷ rest) sub h = elim (Bool-cases (is_unique c ms m)) [
    | inl u ↦ rw u (
        assign_all-AllFrom (assign_legs ix c ms m m.1 d) rest (λ x n. sub x (inr n))
          (assign_legs-AllFrom m m.1 d (sub m (inl refl)) u (λ l n. n) h))
    | inr f ↦ rw f (assign_all-AllFrom d rest (λ x n. sub x (inr n)) h)
  ]

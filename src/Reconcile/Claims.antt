-- ===== src/Reconcile/Claims.antt =====
-- The invariant of the two passes: the results are backed by claims on disjoint settlements.
use mathlib.Core.List.{append-nil, append_assoc, map-append}
use untangle.Base.{
  ◌≤◌, ◌≡◌, ap, sym, ◌∙◌, inl, inr, ◌⊎◌, ◌↔◌, String, some, Bool-cases, Option-cases, List, [], ◌∷◌,
  ◌++◌, map, flat_map, In, In-append_left, In-append_right, In-append_cases, All, All-append, ltb,
  length, arith,
}
use untangle.Base.Int.{abs, ◌-ℤ◌}
use untangle.Base.Keys.{add, string_eq}
use untangle.Base.Dicts.{In-add, In-of_add}
use untangle.Models.{BankCreditLine, ReconciliationResult}
use untangle.Subsets.Distinct.{Counted}
use untangle.Reconcile.Index.{SettlementIndex}
use untangle.Reconcile.Defs.{candidates, covered_net, result_of, make_result}
use untangle.Reconcile.Passes.{Claim, Progress, add_all, settle}

-- A credit and the settlements that it covers.
abbrev pub Cover : Type 0
Cover = Claim × List String

abbrev pub cover_sids : Cover → List String
cover_sids t = t.1

abbrev pub cover_key : Cover → String
cover_key t = t.0.0

-- No settlement is covered by two of the credits.
abbrev pub Separate : List Cover → Type 0
Separate [] = Unit
Separate (t ∷ ts) =
    ((sid : String) → In sid (cover_sids t) → ¬ In sid (flat_map cover_sids ts)) × Separate ts

abbrev pub cover_result : SettlementIndex → Cover → ReconciliationResult
cover_result s t = result_of s t.0.1 t.1

-- The credit stands in the slice, and the nets of the listed settlements add up to it within one
-- rupee. A settlement is listed once, but for three ids of a window with more than 16 candidates,
-- where the third may be the first again.
pub record Backed (s : SettlementIndex) (rzp : List Claim) (t : Cover) : Type 0 where
  pub in_slice : In t.0 rzp
  pub some_settlement : (sid : String) × In sid t.1
  pub balance : abs (t.0.1.amount_paise -ℤ covered_net s t.1) ≤ 100
  pub counted : Counted (length (candidates s t.0.1 [])) t.1

pub record IsBacked (s : SettlementIndex) (rzp : List Claim) (p : Progress) : Type 0 where
  pub covers : List Cover
  pub results : p.results ≡ map (cover_result s) covers
  pub used : (sid : String) → In sid p.used_sids ↔ In sid (flat_map cover_sids covers)
  pub separate : Separate covers
  pub backed : All (Backed s rzp) covers
  pub resolved : (key : String) → In key p.resolved ↔ In key (map cover_key covers)

flat_map-snoc :
    (ts : List Cover) (t : Cover)
    → flat_map cover_sids (ts ++ t ∷ []) ≡ flat_map cover_sids ts ++ cover_sids t
flat_map-snoc [] t = append-nil (cover_sids t)
flat_map-snoc (u ∷ us) t =
    ap (λ v. cover_sids u ++ v) (flat_map-snoc us t) ∙ sym (append_assoc (cover_sids u) _ _)

Separate-snoc :
    (ts : List Cover) (t : Cover)
    → Separate ts
    → ((sid : String) → In sid (cover_sids t) → ¬ In sid (flat_map cover_sids ts))
    → Separate (ts ++ t ∷ [])
Separate-snoc [] t h f = (λ sid m n. n, tt)
Separate-snoc (u ∷ us) t h f = (
  λ sid m n. elim (In-append_cases sid (flat_map cover_sids us) _ (rw (flat_map-snoc us t) at n)) [
    | inl l ↦ h.0 sid m l
    | inr r ↦ f sid r (In-append_left sid (cover_sids u) _ m)
  ],
  Separate-snoc us t h.1 (λ sid m n. f sid m (In-append_right sid (cover_sids u) _ n)),
)

pub In-add_all : (a : String) (ys xs : List String) → In a (add_all ys xs) ↔ (In a xs ⊎ In a ys)
In-add_all a [] xs = (λ m. inl m, λ h. elim h [ inl m ↦ m | inr z ↦ absurd z ])
In-add_all a (y ∷ ys) xs = (
  λ m. elim ((In-add_all a ys (add y xs)).0 m) [
    | inl l ↦ elim (In-of_add a y xs l) [ inl k ↦ inl k | inr e ↦ inr (inl e) ]
    | inr r ↦ inr (inr r)
  ],
  λ h. (In-add_all a ys (add y xs)).1 (elim h [
    | inl l ↦ inl (In-add a y xs (inl l))
    | inr r ↦ elim r [ inl e ↦ inl (In-add a y xs (inr e)) | inr m ↦ inr m ]
  ]),
)

make_result-some :
    (line : BankCreditLine) (sids : List String) (s : SettlementIndex) (res : ReconciliationResult)
    → make_result line sids s ≡ some res
    → (res ≡ result_of s line sids) × (abs (line.amount_paise -ℤ covered_net s sids) ≤ 100)
unfolding make_result
make_result-some line sids s res h =
    elim (Bool-cases (ltb 100 (abs (line.amount_paise -ℤ covered_net s sids)))) [
      | inl far ↦ cc (rw far at h)
      | inr near ↦ (ground (arith, rw near at h), ground arith)
    ]

module _ (s : SettlementIndex) (rzp : List Claim) where
  pub settle-IsBacked :
      (c : Claim) (sids : List String) (p : Progress)
      → In c rzp
      → ((sid : String) × In sid sids)
      → Counted (length (candidates s c.1 [])) sids
      → ((sid : String) → In sid sids → ¬ In sid p.used_sids)
      → IsBacked s rzp p
      → IsBacked s rzp (settle s c sids p)
  unfolding settle
  settle-IsBacked c sids p in_slice nonempty counted fresh b =
      elim (Option-cases (make_result c.1 sids s)) [
        | inl e ↦ rw (e, settle) b
        | inr (res, e) ↦
            let (same, balance) = make_result-some c.1 sids s res e in
            let cover : Cover = (c, sids) in
            rw (e, settle)
              (record {
                covers = b.covers ++ cover ∷ [];
                results =
                    ap (λ rs. rs ++ res ∷ []) b.results
                    ∙ ap (λ r. map (cover_result s) b.covers ++ r ∷ []) same
                    ∙ sym (map-append (cover_result s) b.covers (cover ∷ []));
                used = λ sid. (
                  λ m.
                      rw (flat_map-snoc b.covers cover)
                        (elim ((In-add_all sid sids p.used_sids).0 m) [
                          | inl l ↦
                              In-append_left sid (flat_map cover_sids b.covers) _ ((b.used sid).0 l)
                          | inr r ↦ In-append_right sid (flat_map cover_sids b.covers) _ r
                        ]),
                  λ m.
                      (In-add_all sid sids p.used_sids).1
                        (elim (In-append_cases sid (flat_map cover_sids b.covers) _
                          (rw (flat_map-snoc b.covers cover) at m)) [
                            | inl l ↦ inl ((b.used sid).1 l)
                            | inr r ↦ inr r
                          ]),
                );
                separate =
                    Separate-snoc b.covers cover b.separate
                      (λ sid m n. fresh sid m ((b.used sid).1 n));
                backed = All-append (Backed s rzp) b.covers _ b.backed (
                  record {
                    in_slice = in_slice;
                    some_settlement = nonempty;
                    balance = balance;
                    counted = counted;
                  },
                  tt,
                );
                resolved = λ key. (
                  λ m.
                      rw (map-append cover_key b.covers (cover ∷ []))
                        (elim (In-of_add key c.0 p.resolved m) [
                          | inl l ↦
                              In-append_left key (map cover_key b.covers) _ ((b.resolved key).0 l)
                          | inr r ↦ In-append_right key (map cover_key b.covers) _ (inl r)
                        ]),
                  λ m.
                      In-add key c.0 p.resolved
                        (elim (In-append_cases key (map cover_key b.covers) (c.0 ∷ [])
                          (rw (map-append cover_key b.covers (cover ∷ [])) at m)) [
                            | inl l ↦ inl ((b.resolved key).1 l)
                            | inr r ↦ elim r [ inl q ↦ inr q | inr z ↦ absurd z ]
                          ]),
                );
              })
      ]

  -- The invariant does not look at the marks.
  pub same_outcome :
      (p q : Progress)
      → p.results ≡ q.results
      → p.used_sids ≡ q.used_sids
      → p.resolved ≡ q.resolved
      → IsBacked s rzp p
      → IsBacked s rzp q
  same_outcome p q r u k b = record {
    covers = b.covers;
    results = sym r ∙ b.results;
    used = λ sid. rw (← u) (b.used sid);
    separate = b.separate;
    backed = b.backed;
    resolved = λ key. rw (← k) (b.resolved key);
  }

  pub settle-used :
      (c : Claim) (sids : List String) (p : Progress) (sid : String)
      → In sid (settle s c sids p).used_sids
      → In sid p.used_sids ⊎ In sid sids
  unfolding settle
  settle-used c sids p sid m = elim (Option-cases (make_result c.1 sids s)) [
    | inl e ↦ inl (rw (e, settle) at m)
    | inr (res, e) ↦ (In-add_all sid sids p.used_sids).0 (rw (e, settle) at m)
  ]

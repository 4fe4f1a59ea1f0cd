-- ===== src/Reconcile/Safety.antt =====
-- reconcile.py: both passes keep the invariant of the results.
use untangle.Base.{
  ◌≡◌, refl, inl, inr, String, ◌||◌, Bool-cases, Option-cases, List, [], ◌∷◌, ◌++◌, In,
  In-append_cases, length, if◌then◌else◌, arith,
}
use untangle.Base.Keys.{Dict, ◌=?◌, lookup, insert, keys, contains, Nodup, lookup-insert, string_eq}
use untangle.Base.Dicts.{keys-insert, In-lookup, Nodup-add, not_In}
use untangle.Base.Flow.{ok}
use untangle.Models.{BankCreditLine}
use untangle.Subsets.Distinct.{Counted}
use untangle.Reconcile.Index.{SettlementIndex, utr_sid, or_else}
use untangle.Reconcile.IndexLaws.{IsConsistent}
use untangle.Reconcile.Defs.{Marks, candidates, amount_or_setsum_sids}
use untangle.Reconcile.Coverage.{length-candidates, amount_or_setsum_sids_sound}
use untangle.Reconcile.Total.{amount_or_setsum_sids_total}
use untangle.Reconcile.Passes.{
  Claim, Progress, start, settle, group_claims, pass_1_step, pass_1, settle_found, pass_2_step,
  pass_2,
}
use untangle.Reconcile.Claims.{IsBacked, settle-IsBacked, same_outcome, settle-used}

-- Each group of claims comes from the slice, and each settlement has one group.
pub record Grouped (rzp : List Claim) (d : Dict String (List Claim)) : Type 0 where
  pub nodup : Nodup (keys d)
  pub members : (sid : String) (c : Claim) → In c (or_else [] (lookup sid d)) → In c rzp

module _ (tokens : BankCreditLine → List String) (s : SettlementIndex) (rzp : List Claim) where
  claims_under-insert :
      (sid k : String) (v : List Claim) (d : Dict String (List Claim))
      → or_else [] (lookup sid (insert k v d)) ≡ (if sid =? k then v else or_else [] (lookup sid d))
  claims_under-insert sid k v d = ground (arith, lookup-insert sid k v d)

  insert-Grouped :
      (sid : String) (c : Claim) (d : Dict String (List Claim))
      → In c rzp
      → Grouped rzp d
      → Grouped rzp (insert sid (or_else [] (lookup sid d) ++ c ∷ []) d)
  insert-Grouped sid c d m g = record {
    nodup =
        rw (keys-insert sid (or_else [] (lookup sid d) ++ c ∷ []) d)
          (Nodup-add sid (keys d) g.nodup);
    members = λ k x n. elim (Bool-cases (k =? sid)) [
      | inl e ↦
          elim (In-append_cases x (or_else [] (lookup sid d)) (c ∷ [])
            (rw (claims_under-insert k sid (or_else [] (lookup sid d) ++ c ∷ []) d, e) at n)) [
              | inl old ↦ g.members sid x old
              | inr new ↦ elim new [ inl q ↦ rw q m | inr z ↦ absurd z ]
            ]
      | inr e ↦
          g.members k x
            (rw (claims_under-insert k sid (or_else [] (lookup sid d) ++ c ∷ []) d, e) at n)
    ];
  }

  pub group_claims-Grouped :
      (d : Dict String (List Claim)) (cs : List Claim)
      → ((c : Claim) → In c cs → In c rzp)
      → Grouped rzp d
      → Grouped rzp (group_claims tokens s d cs)
  unfolding group_claims
  group_claims-Grouped d [] sub g = g
  group_claims-Grouped d (c ∷ cs) sub g = elim (Option-cases (utr_sid tokens s c.1)) [
    | inl e ↦ rw (e, group_claims) (group_claims-Grouped d cs (λ x m. sub x (inr m)) g)
    | inr (sid, e) ↦
        rw (e, group_claims)
          (group_claims-Grouped (insert sid (or_else [] (lookup sid d) ++ c ∷ []) d) cs
            (λ x m. sub x (inr m)) (insert-Grouped sid c d (sub c (inl refl)) g))
  ]

  -- The first pass meets each settlement once, so it is free when its turn comes.
  pass_1-IsBacked :
      (p : Progress) (d : Dict String (List Claim))
      → Nodup (keys d)
      → ((sid : String) (cs : List Claim) (c : Claim) → In (sid, cs) d → In c cs → In c rzp)
      → ((sid : String) → In sid (keys d) → ¬ In sid p.used_sids)
      → IsBacked s rzp p
      → IsBacked s rzp (pass_1 tokens s p d)
  unfolding pass_1
  pass_1-IsBacked p [] nodup members free b = b
  pass_1-IsBacked p ((sid, []) ∷ gs) nodup members free b =
      pass_1-IsBacked p gs nodup.1 (λ k cs c m. members k cs c (inr m)) (λ k m. free k (inr m)) b
  pass_1-IsBacked p ((sid, c ∷ []) ∷ gs) nodup members free b =
      pass_1-IsBacked (settle s c (sid ∷ []) p) gs nodup.1 (λ k cs x m. members k cs x (inr m))
        (λ k m n. elim (settle-used s rzp c (sid ∷ []) p k n) [
          | inl old ↦ free k (inr m) old
          | inr new ↦ elim new [ inl q ↦ not_In sid (keys gs) nodup.0 (rw (← q) m) | inr z ↦ z ]
        ])
        (settle-IsBacked s rzp c (sid ∷ []) p (members sid (c ∷ []) c (inl refl) (inl refl))
          (sid, inl refl) (inl (refl, tt))
          (λ k m n. elim m [ inl q ↦ free k (inl q) n | inr z ↦ z ]) b)
  pass_1-IsBacked p ((sid, c ∷ d ∷ ds) ∷ gs) nodup members free b =
      pass_1-IsBacked (pass_1_step tokens s p (sid, c ∷ d ∷ ds)) gs nodup.1
        (λ k cs x m. members k cs x (inr m)) (λ k m. free k (inr m))
        (same_outcome s rzp p (pass_1_step tokens s p (sid, c ∷ d ∷ ds)) refl refl refl b)

  in_window :
      (line : BankCreditLine) (used sids : List String)
      → Counted (length (candidates s line used)) sids
      → Counted (length (candidates s line [])) sids
  in_window line used sids (inl d) = inl d
  in_window line used sids (inr (k, h)) = inr (k, ground (arith, length-candidates s line used))

  settle_found-IsBacked :
      (good : IsConsistent s) (c : Claim) (p : Progress) (m : Marks) (sids : List String)
      → In c rzp
      → amount_or_setsum_sids s c.1 p.used_sids p.marks ≡ ok (m, sids)
      → IsBacked s rzp p
      → IsBacked s rzp (settle_found tokens s c p (m, sids))
  unfolding settle_found
  settle_found-IsBacked good c p m [] i e b =
      same_outcome s rzp p (record p { marks = m }) refl refl refl b
  settle_found-IsBacked good c p m (sid ∷ sids) i e b =
      let covers = amount_or_setsum_sids_sound s good c.1 p.used_sids p.marks m sid sids e in
      settle-IsBacked s rzp c (sid ∷ sids) (record p { marks = m }) i (sid, inl refl)
        (in_window c.1 p.used_sids (sid ∷ sids) covers.counted)
        (λ k n. not_In k p.used_sids (covers.fresh k n))
        (same_outcome s rzp p (record p { marks = m }) refl refl refl b)

  -- The second pass returns, and keeps the invariant.
  pass_2-IsBacked :
      (good : IsConsistent s) (p : Progress) (cs : List Claim)
      → ((c : Claim) → In c cs → In c rzp)
      → IsBacked s rzp p
      → (q : Progress) × (pass_2 tokens s p cs ≡ ok q) × IsBacked s rzp q
  unfolding pass_2
  pass_2-IsBacked good p [] sub b = (p, refl, b)
  pass_2-IsBacked good p (c ∷ cs) sub b =
      elim (Bool-cases (contains c.0 p.resolved || contains c.0 p.marks.duplicate_or_split_lines)) [
        | inl skip ↦
            let (q, e, d) = pass_2-IsBacked good p cs (λ x m. sub x (inr m)) b in
            (q, rw (skip, pass_2_step) e, d)
        | inr go ↦
            let ((m, sids), found) = amount_or_setsum_sids_total s good c.1 p.used_sids p.marks in
            let (q, e, d) =
              pass_2-IsBacked good (settle_found tokens s c p (m, sids)) cs (λ x n. sub x (inr n))
                (settle_found-IsBacked good c p m sids (sub c (inl refl)) found b) in
            (q, rw (go, found, pass_2_step) e, d)
      ]

  pub passes-IsBacked :
      (good : IsConsistent s)
      → (q : Progress) × (pass_2 tokens s (pass_1 tokens s start (group_claims tokens s [] rzp)) rzp
          ≡ ok q)
        × IsBacked s rzp q
  passes-IsBacked good =
      let groups = group_claims tokens s [] rzp in
      let g : Grouped rzp groups =
        group_claims-Grouped [] rzp (λ c m. m)
          (record { nodup = tt; members = λ k c m. absurd m }) in
      pass_2-IsBacked good _ rzp (λ c m. m)
        (pass_1-IsBacked start groups g.nodup
          (λ sid cs c m n. g.members sid c (rw (In-lookup sid cs groups g.nodup m) n))
          (λ sid m n. n)
          (record {
            covers = [];
            results = refl;
            used = λ sid. (λ m. m, λ m. m);
            separate = tt;
            backed = tt;
            resolved = λ key. (λ m. m, λ m. m);
          }))

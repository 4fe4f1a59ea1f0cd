-- ===== src/Reconcile/Duplicates.antt =====
-- Two credits with the UTR of one settlement: neither is reconciled, and both are reported.
use untangle.Base.{
  ◌≡◌, ◌≢◌, refl, inl, inr, ◌⊎◌, String, ◌||◌, Bool-cases, Option-cases, List, [], ◌∷◌, In, arith,
}
use untangle.Base.Keys.{contains, string_eq, option_eq}
use untangle.Base.Dicts.{In-of_add, not_In}
use untangle.Base.Flow.{ok, Result, bind_returned}
use untangle.Models.{BankCreditLine}
use untangle.Subsets.{ValueError}
use untangle.Reconcile.Index.{SettlementIndex}
use untangle.Reconcile.Defs.{
  Marks, make_result, amount_or_setsum_sids, decide_subset, setsum_matches, candidates,
}
use untangle.Reconcile.Passes.{Claim, Progress, settle, settle_found, pass_2_step, pass_2}

-- The line has been reported as a duplicate or a split, and has not been reconciled.
abbrev pub SetAside : String → Progress → Type 0
SetAside key p = In key p.marks.duplicate_or_split_lines × ¬ In key p.resolved

pub settle-marks :
    (s : SettlementIndex) (c : Claim) (sids : List String) (p : Progress)
    → (settle s c sids p).marks ≡ p.marks
unfolding settle
settle-marks s c sids p = elim (Option-cases (make_result c.1 sids s)) [
  | inl e ↦ rw (e, settle) refl
  | inr (r, e) ↦ rw (e, settle) refl
]

pub settle-resolved :
    (s : SettlementIndex) (c : Claim) (sids : List String) (p : Progress) (key : String)
    → In key (settle s c sids p).resolved
    → In key p.resolved ⊎ (key ≡ c.0)
unfolding settle
settle-resolved s c sids p key m = elim (Option-cases (make_result c.1 sids s)) [
  | inl e ↦ inl (rw (e, settle) at m)
  | inr (r, e) ↦ In-of_add key c.0 p.resolved (rw (e, settle) at m)
]

pub ok_injective : (a b : Progress) → ◌≡◌ {A = Result ValueError Progress} (ok a) (ok b) → a ≡ b
ok_injective a b e = ground arith

decide_subset-marks :
    (key : String) (m : Marks) (subsets : List (List String))
    → (decide_subset key m subsets).0.duplicate_or_split_lines ≡ m.duplicate_or_split_lines
unfolding decide_subset
decide_subset-marks key m [] = refl
decide_subset-marks key m (x ∷ []) = refl
decide_subset-marks key m (x ∷ y ∷ zs) = refl

-- The amount search touches other marks only.
amount_or_setsum_sids-marks :
    (s : SettlementIndex) (line : BankCreditLine) (used : List String) (m m' : Marks)
    (sids : List String)
    → amount_or_setsum_sids s line used m ≡ ok (m', sids)
    → m'.duplicate_or_split_lines ≡ m.duplicate_or_split_lines
unfolding amount_or_setsum_sids
amount_or_setsum_sids-marks s line used m m' sids h =
    let (found, e, rest) =
      bind_returned (setsum_matches (candidates s line used) line.amount_paise) _ h in
    elim (Option-cases found) [
      | inl n ↦ marks_of _ _ _ refl (rw n at rest)
      | inr (subsets, n) ↦ marks_of _ _ _ (decide_subset-marks line.key m _) (rw n at rest)
    ]
  where
    marks_of :
        (r : Marks × List String) (n : Marks) (ids : List String)
        → r.0.duplicate_or_split_lines ≡ m.duplicate_or_split_lines
        → (◌≡◌ {A = Result ValueError (Marks × List String)} (ok r) (ok (n, ids)))
        → n.duplicate_or_split_lines ≡ m.duplicate_or_split_lines
    marks_of r n ids same p = ground arith

module _ (tokens : BankCreditLine → List String) (s : SettlementIndex) where
  settle_found-SetAside :
      (key : String) (c : Claim) (p : Progress) (m : Marks) (sids : List String)
      → key ≢ c.0
      → m.duplicate_or_split_lines ≡ p.marks.duplicate_or_split_lines
      → SetAside key p
      → SetAside key (settle_found tokens s c p (m, sids))
  unfolding settle_found
  settle_found-SetAside key c p m [] ne same h = (rw same h.0, h.1)
  settle_found-SetAside key c p m (sid ∷ sids) ne same h = (
    rw (settle-marks s c (sid ∷ sids) (record p { marks = m }), same) h.0,
    λ n. elim (settle-resolved s c (sid ∷ sids) (record p { marks = m }) key n) [
      | inl old ↦ h.1 old
      | inr e ↦ ne e
    ],
  )

  -- The second pass leaves such a line alone.
  pub pass_2-SetAside :
      (key : String) (p q : Progress) (cs : List Claim)
      → pass_2 tokens s p cs ≡ ok q
      → SetAside key p
      → SetAside key q
  unfolding pass_2
  pass_2-SetAside key p q [] e h = rw (← ok_injective p q e) h
  pass_2-SetAside key p q (c ∷ cs) e h =
      let (t, step, rest) = bind_returned (pass_2_step tokens s p c) _ e in
      pass_2-SetAside key t q cs rest (one t step)
    where
      one : (t : Progress) → pass_2_step tokens s p c ≡ ok t → SetAside key t
      one t step =
          elim (Bool-cases
            (contains c.0 p.resolved || contains c.0 p.marks.duplicate_or_split_lines)) [
              | inl skip ↦ rw (← ok_injective p t (rw (skip, pass_2_step) at step)) h
              | inr go ↦
                  let ((m, sids), found, out) =
                    bind_returned (amount_or_setsum_sids s c.1 p.used_sids p.marks) _
                      (rw (go, pass_2_step) at step) in
                  rw (← ok_injective (settle_found tokens s c p (m, sids)) t out) (
                    settle_found-SetAside key c p m sids
                      (λ q.
                        not_In c.0 p.marks.duplicate_or_split_lines (ground arith) (rw (← q) h.0))
                      (amount_or_setsum_sids-marks s c.1 p.used_sids p.marks m sids found) h)
            ]

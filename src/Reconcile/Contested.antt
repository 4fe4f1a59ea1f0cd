-- ===== src/Reconcile/Contested.antt =====
-- The first pass over a settlement that several credits claim by its UTR.
use mathlib.Core.List.{append-nil, append_assoc}
use untangle.Base.{
  ◌≡◌, ◌≢◌, refl, ap, sym, ◌∙◌, inl, inr, ◌⊎◌, String, Bool, true, false, Option, some, Bool-cases,
  Option-cases, List, [], ◌∷◌, ◌++◌, map, filter, In, In-map, In-filter, In-of_filter,
  if◌then◌else◌, arith,
}
use untangle.Base.Keys.{
  Dict, ◌=?◌, =?_eq, =?_refl, lookup, insert, lookup-insert, string_eq, option_eq,
}
use untangle.Base.Dicts.{In-add, In-lookup, lookup-In}
use untangle.Models.{BankCreditLine}
use untangle.Reconcile.Index.{SettlementIndex, utr_sid, or_else}
use untangle.Reconcile.Defs.{Marks}
use untangle.Reconcile.Passes.{
  Claim, Progress, start, settle, group_claims, pass_1_step, pass_1, classify_known, classify_line,
  classify,
}
use untangle.Reconcile.Claims.{In-add_all}
use untangle.Reconcile.Safety.{Grouped, group_claims-Grouped}
use untangle.Reconcile.Duplicates.{SetAside, settle-marks, settle-resolved}

module _ (tokens : BankCreditLine → List String) (s : SettlementIndex) where
  abbrev claims_on : String → Claim → Bool
  claims_on sid c = utr_sid tokens s c.1 =? some sid

  abbrev under : Dict String (List Claim) → String → List Claim
  under d sid = or_else [] (lookup sid d)

  under-insert :
      (sid k : String) (v : List Claim) (d : Dict String (List Claim))
      → under (insert k v d) sid ≡ (if sid =? k then v else under d sid)
  under-insert sid k v d = ground (arith, lookup-insert sid k v d)

  -- The group of a settlement is the claims on it, in order.
  group_claims_lem :
      (sid : String) (d : Dict String (List Claim)) (cs : List Claim)
      → under (group_claims tokens s d cs) sid ≡ under d sid ++ filter (claims_on sid) cs
  unfolding group_claims
  group_claims_lem sid d [] = rw append-nil refl
  group_claims_lem sid d (c ∷ cs) = elim (Option-cases (utr_sid tokens s c.1)) [
    | inl e ↦ rw (e, group_claims) (group_claims_lem sid d cs)
    | inr (k, e) ↦
        rw (e, group_claims)
          (group_claims_lem sid (insert k (under d k ++ c ∷ []) d) cs
            ∙ ap (λ t. t ++ filter (claims_on sid) cs) (under-insert sid k (under d k ++ c ∷ []) d)
            ∙ elim (Bool-cases (sid =? k)) [
              | inl same ↦
                  let q : sid ≡ k = =?_eq sid k same in
                  rw (same, flip_eq k sid same)
                    (append_assoc (under d k) (c ∷ []) (filter (claims_on sid) cs)
                      ∙ ap (λ t. under d t ++ c ∷ filter (claims_on sid) cs) (sym q))
              | inr other ↦ rw (other, flip_ne k sid other) refl
            ])
  ]
    where
      flip_eq : (k j : String) → (j =? k) ≡ true → (k =? j) ≡ true
      flip_eq k j h = ground (arith, =?_eq j k, =?_refl k)

      flip_ne : (k j : String) → (j =? k) ≡ false → (k =? j) ≡ false
      flip_ne k j h = ground (arith, =?_eq k j, =?_refl k)

  pass_1_step-aside :
      (key : String) (p : Progress) (g : String × List Claim)
      → In key p.marks.duplicate_or_split_lines
      → In key (pass_1_step tokens s p g).marks.duplicate_or_split_lines
  unfolding pass_1_step
  pass_1_step-aside key p (sid, []) m = m
  pass_1_step-aside key p (sid, c ∷ []) m = rw (settle-marks s c (sid ∷ []) p) m
  pass_1_step-aside key p (sid, c ∷ d ∷ ds) m =
      (In-add_all key (map (λ (e : Claim). e.0) (c ∷ d ∷ ds)) _).1 (inl m)

  pass_1-aside :
      (key : String) (p : Progress) (gs : Dict String (List Claim))
      → In key p.marks.duplicate_or_split_lines
      → In key (pass_1 tokens s p gs).marks.duplicate_or_split_lines
  unfolding pass_1
  pass_1-aside key p [] m = m
  pass_1-aside key p (g ∷ gs) m =
      pass_1-aside key (pass_1_step tokens s p g) gs (pass_1_step-aside key p g m)

  -- Every claim of a group of two or more is reported.
  pass_1-reports :
      (c d e : Claim) (ds : List Claim) (sid : String) (p : Progress)
      (gs : Dict String (List Claim))
      → In (sid, c ∷ d ∷ ds) gs
      → In e (c ∷ d ∷ ds)
      → In e.0 (pass_1 tokens s p gs).marks.duplicate_or_split_lines
  unfolding pass_1 pass_1_step
  pass_1-reports c d e ds sid p [] m n = absurd m
  pass_1-reports c d e ds sid p (g ∷ gs) (inl q) n =
      pass_1-aside e.0 (pass_1_step tokens s p g) gs (
        rw (← q, pass_1_step)
          ((In-add_all e.0 (map (λ (t : Claim). t.0) (c ∷ d ∷ ds)) _).1
            (inr (In-map (λ (t : Claim). t.0) e (c ∷ d ∷ ds) n))))
  pass_1-reports c d e ds sid p (g ∷ gs) (inr m) n =
      pass_1-reports c d e ds sid (pass_1_step tokens s p g) gs m n

  -- A line that the first pass reconciles is the only claim of its group.
  pass_1-resolved :
      (key : String) (p : Progress) (gs : Dict String (List Claim))
      → In key (pass_1 tokens s p gs).resolved
      → In key p.resolved ⊎ ((sid : String) × (c : Claim) × In (sid, c ∷ []) gs × (key ≡ c.0))
  unfolding pass_1 pass_1_step
  pass_1-resolved key p [] m = inl m
  pass_1-resolved key p ((sid, []) ∷ gs) m = later sid [] (pass_1-resolved key p gs m)
    where
      later :
          (k : String) (cs : List Claim)
          → In key p.resolved ⊎ ((sid : String) × (c : Claim) × In (sid, c ∷ []) gs × (key ≡ c.0))
          → In key p.resolved
            ⊎ ((sid : String) × (c : Claim) × In (sid, c ∷ []) ((k, cs) ∷ gs) × (key ≡ c.0))
      later k cs (inl l) = inl l
      later k cs (inr (j, x, n, e)) = inr (j, x, inr n, e)
  pass_1-resolved key p ((sid, c ∷ []) ∷ gs) m =
      elim (pass_1-resolved key (settle s c (sid ∷ []) p) gs m) [
        | inl l ↦ elim (settle-resolved s c (sid ∷ []) p key l) [
          | inl old ↦ inl old
          | inr e ↦ inr (sid, c, inl refl, e)
        ]
        | inr (j, x, n, e) ↦ inr (j, x, inr n, e)
      ]
  pass_1-resolved key p ((sid, c ∷ d ∷ ds) ∷ gs) m =
      elim (pass_1-resolved key (pass_1_step tokens s p (sid, c ∷ d ∷ ds)) gs m) [
        | inl l ↦ inl l
        | inr (j, x, n, e) ↦ inr (j, x, inr n, e)
      ]

  module _ (rzp : List Claim) (c d : Claim) (sid : String) where
    -- A filtered list with two different members has at least two.
    two_members :
        (cs : List Claim)
        → In c cs
        → In d cs
        → c ≢ d
        → (x : Claim) × (y : Claim) × (zs : List Claim) × (cs ≡ x ∷ y ∷ zs)
    two_members [] m n ne = absurd m
    two_members (x ∷ []) m n ne =
        absurd (
          ne
            (elim m [ inl p ↦ elim n [ inl q ↦ p ∙ sym q | inr z ↦ absurd z ] | inr z ↦ absurd z ]))
    two_members (x ∷ y ∷ zs) m n ne = (x, y, zs, refl)

    -- After the first pass a contested line is reported and not reconciled.
    pub pass_1-SetAside :
        ((a b : Claim) → In a rzp → In b rzp → a.0 ≡ b.0 → a ≡ b)
        → In c rzp
        → In d rzp
        → c.0 ≢ d.0
        → utr_sid tokens s c.1 ≡ some sid
        → utr_sid tokens s d.1 ≡ some sid
        → SetAside c.0 (pass_1 tokens s start (group_claims tokens s [] rzp))
    pass_1-SetAside functional m n ne tc td =
        let groups = group_claims tokens s [] rzp in
        let g : Grouped rzp groups =
          group_claims-Grouped tokens s rzp [] rzp (λ c m. m)
            (record { nodup = tt; members = λ k c m. absurd m }) in
        let group : under groups sid ≡ filter (claims_on sid) rzp = group_claims_lem sid [] rzp in
        let on : (e : Claim) → utr_sid tokens s e.1 ≡ some sid → claims_on sid e ≡ true =
          λ e q. rw q (=?_refl sid) in
        let mc = In-filter (claims_on sid) c rzp m (on c tc) in
        let (x, y, zs, two) =
          two_members (filter (claims_on sid) rzp) mc (In-filter (claims_on sid) d rzp n (on d td))
            (λ e. ne (ap (λ (t : Claim). t.0) e)) in
        let entry : In (sid, x ∷ y ∷ zs) groups =
          lookup-In sid (x ∷ y ∷ zs) groups (found groups (group ∙ two)) in
        (
          pass_1-reports x y c zs sid start groups entry (rw two at mc),
          λ r. elim (pass_1-resolved c.0 start groups r) [
            | inl z ↦ z
            | inr (k, e, single, same) ↦
                let at : under groups k ≡ e ∷ [] =
                  ap (or_else []) (In-lookup k (e ∷ []) groups g.nodup single) in
                let listed : In e (filter (claims_on k) rzp) =
                  rw (sym (group_claims_lem k [] rzp) ∙ at) (inl refl) in
                let (i, tied) = In-of_filter (claims_on k) e rzp listed in
                let twin : c ≡ e = functional c e m i same in
                let tied_c : utr_sid tokens s c.1 ≡ some k =
                  ap (λ (t : Claim). utr_sid tokens s t.1) twin
                  ∙ =?_eq (utr_sid tokens s e.1) (some k) tied in
                let keys_same : sid ≡ k = some_injective sid k (sym tc ∙ tied_c) in
                cons_ne x y e zs (sym (group ∙ two) ∙ ap (under groups) keys_same ∙ at)
          ],
        )
      where
        found :
            (gs : Dict String (List Claim)) {x y : Claim} {zs : List Claim}
            → under gs sid ≡ x ∷ y ∷ zs
            → lookup sid gs ≡ some (x ∷ y ∷ zs)
        found gs e = ground arith

        some_injective : (a b : String) → ◌≡◌ {A = Option String} (some a) (some b) → a ≡ b
        some_injective a b e = ground arith

        cons_ne : (x y e : Claim) (zs : List Claim) → ¬ (◌≡◌ {A = List Claim} (x ∷ y ∷ zs) (e ∷ []))
        cons_ne x y e zs p = ground arith

classify_line-aside :
    (tokens : BankCreditLine → List String) (s : SettlementIndex) (key : String) (m : Marks)
    (c : Claim)
    → In key m.duplicate_or_split_lines
    → In key (classify_line tokens s m c).duplicate_or_split_lines
unfolding classify_line classify_known
classify_line-aside tokens s key m c i =
    ground (arith, In-add key c.0 m.duplicate_or_split_lines (inl i))

pub classify-aside :
    (tokens : BankCreditLine → List String) (s : SettlementIndex) (key : String) (m : Marks)
    (cs : List Claim)
    → In key m.duplicate_or_split_lines
    → In key (classify tokens s m cs).duplicate_or_split_lines
unfolding classify
classify-aside tokens s key m [] i = i
classify-aside tokens s key m (c ∷ cs) i =
    classify-aside tokens s key (classify_line tokens s m c) cs
      (classify_line-aside tokens s key m c i)

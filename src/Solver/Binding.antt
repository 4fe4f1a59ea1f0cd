-- ===== src/Solver/Binding.antt =====
-- engine/solver.py: proofs about the settlements that `solve_assignment` records as consumed.
use mathlib.Core.Path.{subst}
use untangle.Base.{
  ◌≡◌, ◌≢◌, refl, ap, sym, ◌∙◌, inl, inr, String, true, false, ◌&&◌, not, Bool-cases, List, [], ◌∷◌,
  ◌++◌, all, In, In-append_cases, In-append_right, if_true,
}
use untangle.Base.Keys.{Dict, contains, In-contains, contains-append, add, keys, string_eq}
use untangle.Models.{Contest}
use untangle.Solver.Graph.{CandidateAssignment, AssignmentGraph}
use untangle.Solver.Search.{has_settlement}
use untangle.Solver.Plans.{AllApart, In-all}
use untangle.Solver.Assign.{consume_one, consume_all}
use untangle.Solver.Contested.{Uncontested}

module _ {F : Type 0} (g : AssignmentGraph F) where
  -- An assignment that leaves a credit uncontested, to a settlement.
  abbrev pub Binds : Dict String (Contest F) → CandidateAssignment F → Type 0
  Binds d c = ((k : String) × In k c.credit_keys × Uncontested d k) × (has_settlement g c ≡ true)

  abbrev pub Marked : List String → Dict String (Contest F) → List (CandidateAssignment F) → Type 0
  Marked sids d cs =
      (c : CandidateAssignment F) → In c cs → Binds d c → contains c.target_id sids ≡ true

  -- An assignment that binds has another settlement than those after it.
  abbrev pub Ordered : Dict String (Contest F) → List (CandidateAssignment F) → Type 0
  Ordered d [] = Unit
  Ordered d (c ∷ cs) =
      ((e : CandidateAssignment F) → In e cs → Binds d c → c.target_id ≢ e.target_id) × Ordered d cs

  add-keeps :
      (a b : String) (xs : List String) → contains a xs ≡ true → contains a (add b xs) ≡ true
  add-keeps a b xs h = elim (Bool-cases (contains b xs)) [
    | inl t ↦ rw t h
    | inr f ↦
        rw f (contains-append a xs (b ∷ []) ∙ if_true (contains a xs) true (contains a (b ∷ [])) h)
  ]

  add-has : (b : String) (xs : List String) → contains b (add b xs) ≡ true
  add-has b xs = elim (Bool-cases (contains b xs)) [
    | inl t ↦ rw t t
    | inr f ↦ rw f (In-contains b (xs ++ b ∷ []) (In-append_right b xs (b ∷ []) (inl refl)))
  ]

  module _ (d : Dict String (Contest F)) where
    consume_one-keeps :
        (a : String) (sids : List String) (c : CandidateAssignment F)
        → contains a sids ≡ true
        → contains a (consume_one g d sids c) ≡ true
    consume_one-keeps a sids c h =
        elim (Bool-cases
          (has_settlement g c && not (all (λ k. contains k (keys d)) c.credit_keys))) [
            | inl t ↦ rw t (add-keeps a c.target_id sids h)
            | inr f ↦ rw f h
          ]

    consume_one-marks :
        (sids : List String) (c : CandidateAssignment F)
        → Binds d c
        → contains c.target_id (consume_one g d sids c) ≡ true
    consume_one-marks sids c ((k, m, free), settled) =
        elim (Bool-cases (all (λ k. contains k (keys d)) c.credit_keys)) [
          | inl t ↦ cc (In-all (λ k. contains k (keys d)) k c.credit_keys t m, free)
          | inr f ↦ rw (settled, f) (add-has c.target_id sids)
        ]

    pub consume_all-keeps :
        (a : String) (sids : List String) (cs : List (CandidateAssignment F))
        → contains a sids ≡ true
        → contains a (consume_all g d sids cs) ≡ true
    unfolding consume_all
    consume_all-keeps a sids [] h = h
    consume_all-keeps a sids (c ∷ cs) h =
        consume_all-keeps a (consume_one g d sids c) cs (consume_one-keeps a sids c h)

    pub consume_all-Marked :
        (sids : List String) (cs : List (CandidateAssignment F))
        → Marked (consume_all g d sids cs) d cs
    unfolding consume_all
    consume_all-Marked sids [] c m b = elim m [ ]
    consume_all-Marked sids (x ∷ cs) c (inl e) b = consume_all-keeps c.target_id _ cs (
        subst (λ y. contains y.target_id (consume_one g d sids x) ≡ true) (sym e)
          (consume_one-marks sids x (subst (Binds d) e b)))
    consume_all-Marked sids (x ∷ cs) c (inr m) b =
        consume_all-Marked (consume_one g d sids x) cs c m b

    -- Later assignments to settlements that are not used join without a conflict.
    pub Ordered-append :
        (sids : List String) (cs es : List (CandidateAssignment F))
        → Marked sids d cs
        → Ordered d cs
        → Ordered d es
        → ((e : CandidateAssignment F)
            → In e es
            → has_settlement g e ≡ true
            → contains e.target_id sids ≡ false)
        → Ordered d (cs ++ es)
    Ordered-append sids [] es marked o p free = p
    Ordered-append sids (c ∷ cs) es marked (h, o) p free = (
      λ e m b. elim (In-append_cases e cs es m) [
        | inl k ↦ h e k b
        | inr k ↦ λ q.
            let settled : has_settlement g e ≡ true =
              ap (λ t. contains t (keys g.settlements)) (sym q) ∙ b.1 in
            cc (marked c (inl refl) b, ap (λ t. contains t sids) q, free e k settled)
      ],
      Ordered-append sids cs es (λ c m. marked c (inr m)) o p free,
    )

    pub Ordered-pair :
        (cs : List (CandidateAssignment F)) (c e : CandidateAssignment F)
        → Ordered d cs
        → In c cs
        → In e cs
        → Binds d c
        → Binds d e
        → c.target_id ≡ e.target_id
        → c ≡ e
    Ordered-pair [] c e o m n b k q = elim m [ ]
    Ordered-pair (x ∷ cs) c e (h, o) (inl p) (inl r) b k q = p ∙ sym r
    Ordered-pair (x ∷ cs) c e (h, o) (inl p) (inr n) b k q =
        absurd (h e n (subst (Binds d) p b) (ap (λ y. y.target_id) (sym p) ∙ q))
    Ordered-pair (x ∷ cs) c e (h, o) (inr m) (inl r) b k q =
        absurd (h c m (subst (Binds d) r k) (ap (λ y. y.target_id) (sym r) ∙ sym q))
    Ordered-pair (x ∷ cs) c e (h, o) (inr m) (inr n) b k q = Ordered-pair cs c e o m n b k q

    pub AllApart-Ordered : (cs : List (CandidateAssignment F)) → AllApart g cs → Ordered d cs
    AllApart-Ordered [] h = tt
    AllApart-Ordered (c ∷ cs) (h, r) = (λ e m b q. (h e m).1 b.1 q, AllApart-Ordered cs r)

    -- Assignments that are no settlements bind nothing.
    pub unsettled-Ordered :
        (cs : List (CandidateAssignment F))
        → ((c : CandidateAssignment F) → In c cs → has_settlement g c ≡ false)
        → Ordered d cs
    unsettled-Ordered [] h = tt
    unsettled-Ordered (c ∷ cs) h =
        (λ e m b q. cc (h c (inl refl), b.1), unsettled-Ordered cs (λ c m. h c (inr m)))

-- ===== src/Solver/Plans.antt =====
-- engine/solver.py: proofs about plans as covers of the credits.
use mathlib.Core.Path.{subst}
use untangle.Base.{
  ◌≡◌, ◌≢◌, refl, ap, sym, ◌∙◌, inl, inr, String, Bool, true, false, ◌||◌, ◌&&◌, not, Bool-cases,
  &&-left, &&-right, List, [], ◌∷◌, all, In, In-filter, In-of_filter, In-append_right, ◌++◌,
  if_true, arith,
}
use untangle.Base.Keys.{contains, contains-In, In-contains, add, keys, contains-append, string_eq}
use untangle.Base.Floats.{Floats}
use untangle.Solver.Graph.{CandidateAssignment, AssignmentGraph}
use untangle.Solver.Search.{Task, has_settlement, without_keys, consume, is_valid}
use untangle.Solver.Costs.{IsPlan, assign}

module _ {F : Type 0} (g : AssignmentGraph F) where
  -- Two assignments that have no credit and no settlement in common.
  abbrev pub Apart : CandidateAssignment F → CandidateAssignment F → Type 0
  Apart c d =
      ((k : String) → In k c.credit_keys → In k d.credit_keys → ⊥)
      × (has_settlement g c ≡ true → c.target_id ≡ d.target_id → ⊥)

  abbrev pub AllApart : List (CandidateAssignment F) → Type 0
  AllApart [] = Unit
  AllApart (c ∷ cs) = ((d : CandidateAssignment F) → In d cs → Apart c d) × AllApart cs

pub In-all :
    {A : Type 0} (p : A → Bool) (a : A) (xs : List A) → all p xs ≡ true → In a xs → p a ≡ true
In-all p a [] h m = elim m [ ]
In-all p a (x ∷ xs) h m = elim (Bool-cases (p x)) [
  | inr f ↦ cc (rw f at h)
  | inl t ↦ elim m [ inl e ↦ ap p e ∙ t | inr k ↦ In-all p a xs (rw t at h) k ]
]

unused :
    (out inside settled used_before used : Bool)
    → (not out && (inside && (not settled || (not used_before && not used)))) ≡ true
    → settled ≡ true
    → (used_before ≡ false) × (used ≡ false)
unused out inside settled used_before used v h = ground arith

pub add-unused :
    (a b : String) (xs : List String) → contains a (add b xs) ≡ false → contains a xs ≡ false
add-unused a b xs h = elim (Bool-cases (contains b xs)) [
  | inl t ↦ rw t at h
  | inr f ↦ elim (Bool-cases (contains a xs)) [
    | inr g ↦ g
    | inl u ↦ cc (
      sym (contains-append a xs (b ∷ [])) ∙ (rw f at h),
      if_true (contains a xs) true (contains a (b ∷ [])) u,
    )
  ]
]

add-apart : (a b : String) (xs : List String) → contains a (add b xs) ≡ false → a ≢ b
add-apart a b xs h e = elim (Bool-cases (contains b xs)) [
  | inl t ↦ cc (rw (t, e) at h, t)
  | inr f ↦ cc (In-contains a (xs ++ b ∷ []) (In-append_right a xs (b ∷ []) (inl e)), rw f at h)
]

module _ {F : Type 0} ⦃fl : Floats F⦄ (task : Task F) where
  consume-unused :
      (a : String) (k : List String) (c : CandidateAssignment F)
      → contains a (consume task.graph k c) ≡ false
      → contains a k ≡ false
  consume-unused a k c h = elim (Bool-cases (has_settlement task.graph c)) [
    | inl t ↦ add-unused a c.target_id k (rw t at h)
    | inr f ↦ rw f at h
  ]

  valid-keys :
      (unassigned consumed : List String) (c : CandidateAssignment F)
      → is_valid task unassigned consumed c ≡ true
      → (k : String) → In k c.credit_keys
      → In k unassigned
  valid-keys unassigned consumed c v k m =
      contains-In k unassigned
        (In-all (λ x. contains x unassigned) k c.credit_keys (&&-left _ _ (&&-right _ _ v)) m)

  valid-target :
      (unassigned consumed : List String) (c : CandidateAssignment F)
      → is_valid task unassigned consumed c ≡ true
      → has_settlement task.graph c ≡ true
      → (contains c.target_id task.global_consumed ≡ false)
        × (contains c.target_id consumed ≡ false)
  valid-target unassigned consumed c v h =
      unused (contains c.assignment_id task.excluded)
        (all (λ k. contains k unassigned) c.credit_keys) (has_settlement task.graph c)
        (contains c.target_id task.global_consumed) (contains c.target_id consumed) v h

  -- The choices of a plan are among the credits that are left, and their settlements are not used up.
  IsPlan-within :
      (u k : List String) (p : List (CandidateAssignment F)) (d : CandidateAssignment F)
      → IsPlan task u k p
      → In d p
      → ((x : String) → In x d.credit_keys → In x u)
        × (has_settlement task.graph d ≡ true
            → (contains d.target_id task.global_consumed ≡ false)
              × (contains d.target_id k ≡ false))
  IsPlan-within [] k [] d plan m = elim m [ ]
  IsPlan-within [] k (c ∷ rest) d plan m = elim plan [ ]
  IsPlan-within (x ∷ xs) k [] d plan m = elim plan [ ]
  IsPlan-within (x ∷ xs) k (c ∷ rest) d (assign _ _ _ _ _ (_, v) plan) (inl e) =
      subst
        (λ c.
          ((y : String) → In y c.credit_keys → In y (x ∷ xs))
          × (has_settlement task.graph c ≡ true
              → (contains c.target_id task.global_consumed ≡ false)
                × (contains c.target_id k ≡ false)))
        (sym e) (valid-keys (x ∷ xs) k c v, valid-target (x ∷ xs) k c v)
  IsPlan-within (x ∷ xs) k (c ∷ rest) d (assign _ _ _ _ _ choice plan) (inr m) =
      let (keys, target) =
        IsPlan-within (without_keys (x ∷ xs) c) (consume task.graph k c) rest d plan m in
      (
        λ y n. (In-of_filter (λ z. not (contains z c.credit_keys)) y (x ∷ xs) (keys y n)).0,
        λ h. let (a, b) = target h in (a, consume-unused d.target_id k c b),
      )

  -- No two choices of a plan share a credit or a settlement.
  IsPlan-AllApart :
      (u k : List String) (p : List (CandidateAssignment F))
      → IsPlan task u k p
      → AllApart task.graph p
  IsPlan-AllApart [] k [] plan = tt
  IsPlan-AllApart [] k (c ∷ rest) plan = elim plan [ ]
  IsPlan-AllApart (x ∷ xs) k [] plan = elim plan [ ]
  IsPlan-AllApart (x ∷ xs) k (c ∷ rest) (assign _ _ _ _ _ choice plan) = (
    λ d m.
        let (own, target) =
          IsPlan-within (without_keys (x ∷ xs) c) (consume task.graph k c) rest d plan m in
        (
          λ y in_c in_d. cc (
            In-contains y c.credit_keys in_c,
            (In-of_filter (λ z. not (contains z c.credit_keys)) y (x ∷ xs) (own y in_d)).1,
          ),
          λ h e.
              let settled : has_settlement task.graph d ≡ true =
                ap (λ t. contains t (keys task.graph.settlements)) (sym e) ∙ h in
              add-apart d.target_id c.target_id k (rw h at (target settled).1) (sym e),
        ),
    IsPlan-AllApart (without_keys (x ∷ xs) c) (consume task.graph k c) rest plan,
  )

  -- Every credit is in a choice of the plan.
  IsPlan-covers :
      (u k : List String) (p : List (CandidateAssignment F)) (x : String)
      → IsPlan task u k p
      → In x u
      → (c : CandidateAssignment F) × In c p × In x c.credit_keys
  IsPlan-covers [] k p x plan m = elim m [ ]
  IsPlan-covers (y ∷ ys) k [] x plan m = elim plan [ ]
  IsPlan-covers (y ∷ ys) k (c ∷ rest) x (assign _ _ _ _ _ choice plan) m =
      elim (Bool-cases (contains x c.credit_keys)) [
        | inl t ↦ (c, inl refl, contains-In x c.credit_keys t)
        | inr f ↦
            let (d, n, l) =
              IsPlan-covers (without_keys (y ∷ ys) c) (consume task.graph k c) rest x plan
                (In-filter (λ z. not (contains z c.credit_keys)) x (y ∷ ys) m (ap not f)) in
            (d, inr n, l)
      ]

  -- A plan of a component is an exact cover: every credit of the component is in one of its assignments,
  -- its assignments have only credits of the component, no two share a credit or a settlement, and none
  -- takes a settlement that an earlier component used.
  pub IsPlan-exact :
      (comp : List String) (p : List (CandidateAssignment F))
      → IsPlan task comp [] p
      → ((x : String) → In x comp → (c : CandidateAssignment F) × In c p × In x c.credit_keys)
        × ((c : CandidateAssignment F)
            → In c p
            → ((x : String) → In x c.credit_keys → In x comp)
              × (has_settlement task.graph c ≡ true
                  → contains c.target_id task.global_consumed ≡ false))
        × AllApart task.graph p
  IsPlan-exact comp p plan = (
    λ x m. IsPlan-covers comp [] p x plan m,
    λ c m. let (keys, target) = IsPlan-within comp [] p c plan m in (keys, λ h. (target h).0),
    IsPlan-AllApart comp [] p plan,
  )

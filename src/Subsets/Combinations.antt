-- ===== src/Subsets/Combinations.antt =====
-- `itertools.combinations`, and that it lists exactly the sublists of its length.
use untangle.Base.{
  ℕ, zero, suc, ◌≡◌, refl, ap, List, [], ◌∷◌, ◌++◌, map, length, In, In-append_left,
  In-append_right, In-append_cases, In-map, In-of_map, inl, inr, Bool, filter, Bool-cases,
}
use untangle.Base.Keys.{Eq, Nodup}
use untangle.Base.Dicts.{not_contains, not_In}

module _ {A : Type 0} where
  -- `itertools.combinations(xs, k)`, in its order.
  unfoldable pub combinations : ℕ → List A → List (List A)
  combinations zero xs = [] ∷ []
  combinations (suc k) [] = []
  combinations (suc k) (x ∷ xs) = map (λ c. x ∷ c) (combinations k xs) ++ combinations (suc k) xs

  -- `c` is `xs` with some elements left out.
  pub data Sublist : List A → List A → Type 0 where
    nil : Sublist [] []
    skip : {c xs : List A} (x : A) → Sublist c xs → Sublist c (x ∷ xs)
    keep : {c xs : List A} (x : A) → Sublist c xs → Sublist (x ∷ c) (x ∷ xs)

  pub Sublist-nil : (xs : List A) → Sublist [] xs
  Sublist-nil [] = nil
  Sublist-nil (x ∷ xs) = skip x (Sublist-nil xs)

  pub combinations_complete : {c xs : List A} → Sublist c xs → In c (combinations (length c) xs)
  unfolding combinations
  combinations_complete nil = inl refl
  combinations_complete (skip {c = []} x s) = inl refl
  combinations_complete (skip {c = y ∷ c} {xs = xs} x s) =
      In-append_right (y ∷ c) (map (λ t. x ∷ t) (combinations (length c) xs)) _
        (combinations_complete s)
  combinations_complete (keep {c = c} {xs = xs} x s) =
      In-append_left (x ∷ c) (map (λ t. x ∷ t) (combinations (length c) xs)) _
        (In-map (λ t. x ∷ t) c _ (combinations_complete s))

  pub combinations_sound :
      (k : ℕ) (c xs : List A) → In c (combinations k xs) → Sublist c xs × (length c ≡ k)
  unfolding combinations
  combinations_sound zero c xs (inl e) = rw e (Sublist-nil xs, refl)
  combinations_sound zero c xs (inr m) = elim m [ ]
  combinations_sound (suc k) c [] m = elim m [ ]
  combinations_sound (suc k) c (x ∷ xs) m =
      elim (In-append_cases c (map (λ t. x ∷ t) (combinations k xs)) _ m) [
        | inl l ↦
            let (t, n, e) = In-of_map (λ t. x ∷ t) c (combinations k xs) l in
            let (s, len) = combinations_sound k t xs n in rw e (keep x s, ap suc len)
        | inr r ↦ let (s, len) = combinations_sound (suc k) c xs r in (skip x s, len)
      ]

  pub Sublist-In : {c xs : List A} (a : A) → Sublist c xs → In a c → In a xs
  Sublist-In a nil m = m
  Sublist-In a (skip x s) m = inr (Sublist-In a s m)
  Sublist-In a (keep x s) (inl e) = inl e
  Sublist-In a (keep x s) (inr m) = inr (Sublist-In a s m)

  pub filter-Sublist : (p : A → Bool) (xs : List A) → Sublist (filter p xs) xs
  filter-Sublist p [] = nil
  filter-Sublist p (x ∷ xs) = elim (Bool-cases (p x)) [
    | inl t ↦ rw t (keep x (filter-Sublist p xs))
    | inr f ↦ rw f (skip x (filter-Sublist p xs))
  ]

-- Leaving elements out keeps their keys distinct.
pub Sublist-Nodup :
    {A : Type 0} {B : Type 0} ⦃e : Eq B⦄ (f : A → B) {c xs : List A}
    → Sublist c xs
    → Nodup (map f xs)
    → Nodup (map f c)
Sublist-Nodup f nil d = d
Sublist-Nodup f (skip x s) d = Sublist-Nodup f s d.1
Sublist-Nodup f (keep {c = c} {xs = xs} x s) d = (
  not_contains (f x) (map f c) (λ m.
      let (a, n, p) = In-of_map f (f x) c m in
      not_In (f x) (map f xs) d.0 (rw p (In-map f a xs (Sublist-In a s n)))),
  Sublist-Nodup f s d.1,
)

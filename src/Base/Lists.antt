-- ===== src/Base/Lists.antt =====
-- Lists measured by native numbers, and predicates on them by recursion.
use Prim.Native.Nat.{ℕ, zero, suc, ◌+◌, ◌≤◌, ◌<◌}
use mathlib.Core.Path.{◌≡◌, refl, ap, sym, ◌∙◌}
use mathlib.Core.Logic.{◌⊎◌, inl, inr}
use mathlib.Core.Bool.{Bool, true, false}
use mathlib.Core.Option.{Option, none, some}
use mathlib.Core.List.{List, [], ◌∷◌, ◌++◌, map}
use native.Mathlib.Omega.{arith}
use untangle.Base.Tests.{if◌then◌else◌, Bool-cases}

module _ {ℓ} {A : Type ℓ} where
  abbrev pub length : List A → ℕ
  length [] = 0
  length (x ∷ xs) = suc (length xs)

  abbrev pub take : ℕ → List A → List A
  take zero xs = []
  take (suc n) [] = []
  take (suc n) (x ∷ xs) = x ∷ take n xs

  -- `[x for x in xs if p(x)]`
  abbrev pub filter : (A → Bool) → List A → List A
  filter p [] = []
  filter p (x ∷ xs) = let rest = filter p xs in if p x then x ∷ rest else rest

  -- The first element that is chosen.
  unfoldable pub find : (A → Bool) → List A → Option A
  find chosen [] = none
  find chosen (x ∷ xs) = let rest = find chosen xs in if chosen x then some x else rest

  -- `any(p(x) for x in xs)`
  abbrev pub any : (A → Bool) → List A → Bool
  any p [] = false
  any p (x ∷ xs) = let rest = any p xs in if p x then true else rest

  -- `all(p(x) for x in xs)`
  abbrev pub all : (A → Bool) → List A → Bool
  all p [] = true
  all p (x ∷ xs) = let rest = all p xs in if p x then rest else false

  pub length-append : (xs ys : List A) → length (xs ++ ys) ≡ length xs + length ys
  length-append [] ys = omega arith
  length-append (x ∷ xs) ys = omega (arith, length-append xs ys)

module _ {ℓ} {A : Type ℓ} where
  pub take_all : (n : ℕ) (xs : List A) → length xs ≤ n → take n xs ≡ xs
  take_all zero [] h = refl
  take_all zero (x ∷ xs) h = absurd (omega arith)
  take_all (suc n) [] h = refl
  take_all (suc n) (x ∷ xs) h = ap (λ t. x ∷ t) (take_all n xs (omega arith))

  pub take-append_exact : (n : ℕ) (xs ys : List A) → length xs ≡ n → take n (xs ++ ys) ≡ xs
  take-append_exact zero [] ys h = refl
  take-append_exact zero (x ∷ xs) ys h = absurd (omega arith)
  take-append_exact (suc n) [] ys h = absurd (omega arith)
  take-append_exact (suc n) (x ∷ xs) ys h =
      ap (λ t. x ∷ t) (take-append_exact n xs ys (omega arith))

  pub length-take-le : (n : ℕ) (xs : List A) → length (take n xs) ≤ length xs
  length-take-le zero xs = omega arith
  length-take-le (suc n) [] = omega arith
  length-take-le (suc n) (x ∷ xs) = omega (arith, length-take-le n xs)

  -- A prefix shorter than asked for is the whole list.
  pub take_short : (n : ℕ) (xs : List A) → length (take n xs) < n → take n xs ≡ xs
  take_short zero xs h = absurd (omega arith)
  take_short (suc n) [] h = refl
  take_short (suc n) (x ∷ xs) h = ap (λ t. x ∷ t) (take_short n xs (omega arith))

module _ {A : Type 0} where
  -- Membership with its place kept, as a type that computes to a sum.
  abbrev pub In : A → List A → Type 0
  In a [] = ⊥
  In a (x ∷ xs) = (a ≡ x) ⊎ In a xs

  pub In-append_left : (a : A) (xs ys : List A) → In a xs → In a (xs ++ ys)
  In-append_left a [] ys m = elim m [ ]
  In-append_left a (x ∷ xs) ys (inl e) = inl e
  In-append_left a (x ∷ xs) ys (inr m) = inr (In-append_left a xs ys m)

  pub In-append_right : (a : A) (xs ys : List A) → In a ys → In a (xs ++ ys)
  In-append_right a [] ys m = m
  In-append_right a (x ∷ xs) ys m = inr (In-append_right a xs ys m)

  pub In-append_cases : (a : A) (xs ys : List A) → In a (xs ++ ys) → In a xs ⊎ In a ys
  In-append_cases a [] ys m = inr m
  In-append_cases a (x ∷ xs) ys (inl e) = inl (inl e)
  In-append_cases a (x ∷ xs) ys (inr m) = elim (In-append_cases a xs ys m) [
    | inl l ↦ inl (inr l)
    | inr r ↦ inr r
  ]

  pub In-take : (n : ℕ) (a : A) (xs : List A) → In a (take n xs) → In a xs
  In-take zero a xs m = elim m [ ]
  In-take (suc n) a [] m = elim m [ ]
  In-take (suc n) a (x ∷ xs) (inl e) = inl e
  In-take (suc n) a (x ∷ xs) (inr m) = inr (In-take n a xs m)

  pub In-filter : (p : A → Bool) (a : A) (xs : List A) → In a xs → p a ≡ true → In a (filter p xs)
  In-filter p a [] m h = elim m [ ]
  In-filter p a (x ∷ xs) (inl e) h = ground arith
  In-filter p a (x ∷ xs) (inr m) h = ground (arith, In-filter p a xs m h)

  pub In-of_filter :
      (p : A → Bool) (a : A) (xs : List A) → In a (filter p xs) → In a xs × (p a ≡ true)
  In-of_filter p a [] m = elim m [ ]
  In-of_filter p a (x ∷ xs) m = ground (arith, In-of_filter p a xs)

module _ {A B : Type 0} where
  pub In-map : (f : A → B) (a : A) (xs : List A) → In a xs → In (f a) (map f xs)
  In-map f a [] m = elim m [ ]
  In-map f a (x ∷ xs) (inl e) = inl (ap f e)
  In-map f a (x ∷ xs) (inr m) = inr (In-map f a xs m)

  pub In-of_map :
      (f : A → B) (b : B) (xs : List A) → In b (map f xs) → (a : A) × In a xs × (b ≡ f a)
  In-of_map f b [] m = elim m [ ]
  In-of_map f b (x ∷ xs) (inl e) = (x, inl refl, e)
  In-of_map f b (x ∷ xs) (inr m) = let (a, k, e) = In-of_map f b xs m in (a, inr k, e)

-- `[b for a in xs for b in f(a)]`
abbrev pub flat_map {ℓ κ} : {A : Type ℓ} {B : Type κ} → (A → List B) → List A → List B
flat_map f [] = []
flat_map f (x ∷ xs) = f x ++ flat_map f xs

module _ {A B : Type 0} where
  pub In-flat_map :
      (f : A → List B) (a : A) (b : B) (xs : List A) → In a xs → In b (f a) → In b (flat_map f xs)
  In-flat_map f a b [] m n = elim m [ ]
  In-flat_map f a b (x ∷ xs) (inl e) n = In-append_left b (f x) _ (rw e at n)
  In-flat_map f a b (x ∷ xs) (inr m) n = In-append_right b (f x) _ (In-flat_map f a b xs m n)

  pub In-of_flat_map :
      (f : A → List B) (b : B) (xs : List A) → In b (flat_map f xs) → (a : A) × In a xs × In b (f a)
  In-of_flat_map f b [] m = elim m [ ]
  In-of_flat_map f b (x ∷ xs) m = elim (In-append_cases b (f x) (flat_map f xs) m) [
    | inl l ↦ (x, inl refl, l)
    | inr r ↦ let (a, k, n) = In-of_flat_map f b xs r in (a, inr k, n)
  ]

-- A predicate that holds of every element.
abbrev pub All {ℓ κ} : {A : Type ℓ} → (A → Type κ) → List A → Type κ
All P [] = Unit
All P (x ∷ xs) = P x × All P xs

pub All-In {κ} : {A : Type 0} (P : A → Type κ) (a : A) (xs : List A) → All P xs → In a xs → P a
All-In P a [] h m = elim m [ ]
All-In P a (x ∷ xs) h (inl e) = rw e h.0
All-In P a (x ∷ xs) h (inr m) = All-In P a xs h.1 m

pub All-append {ℓ κ} :
    {A : Type ℓ} (P : A → Type κ) (xs ys : List A) → All P xs → All P ys → All P (xs ++ ys)
All-append P [] ys hx hy = hy
All-append P (x ∷ xs) ys hx hy = (hx.0, All-append P xs ys hx.1 hy)

pub All-of_In {κ} :
    {A : Type 0} (P : A → Type κ) (xs : List A) → ((a : A) → In a xs → P a) → All P xs
All-of_In P [] h = tt
All-of_In P (x ∷ xs) h = (h x (inl refl), All-of_In P xs (λ a m. h a (inr m)))

pub All-imp {κ μ} :
    {A : Type 0} (P : A → Type κ) (Q : A → Type μ) (xs : List A)
    → ((a : A) → P a → Q a)
    → All P xs
    → All Q xs
All-imp P Q [] f h = tt
All-imp P Q (x ∷ xs) f h = (f x h.0, All-imp P Q xs f h.1)

pub All-filter {κ} :
    {A : Type 0} (P : A → Type κ) (p : A → Bool) (xs : List A) → All P xs → All P (filter p xs)
All-filter P p [] h = tt
All-filter P p (x ∷ xs) h = go (p x) (All-filter P p xs h.1)
  where
    go : (b : Bool) → All P (filter p xs) → All P (if b then x ∷ filter p xs else filter p xs)
    go true rest = (h.0, rest)
    go false rest = rest

module _ {A : Type 0} (chosen : A → Bool) where
  pub find-none : (xs : List A) → ((x : A) → In x xs → chosen x ≡ false) → find chosen xs ≡ none
  unfolding find
  find-none [] h = refl
  find-none (x ∷ xs) h = rw (h x (inl refl), find-none xs (λ y m. h y (inr m))) refl

  pub none_chosen : (xs : List A) → find chosen xs ≡ none → (x : A) → In x xs → chosen x ≡ false
  unfolding find
  none_chosen [] e x m = elim m [ ]
  none_chosen (y ∷ ys) e x m = elim (Bool-cases (chosen y)) [
    | inl t ↦ cc (rw t at e)
    | inr f ↦ elim m [ inl q ↦ ap chosen q ∙ f | inr n ↦ none_chosen ys (rw f at e) x n ]
  ]

  pub find-In : (xs : List A) (x : A) → find chosen xs ≡ some x → In x xs × (chosen x ≡ true)
  unfolding find
  find-In [] x h = cc
  find-In (y ∷ ys) x h = elim (Bool-cases (chosen y)) [
    | inl t ↦ let e : y ≡ x = ground (arith, rw t at h) in (inl (sym e), rw e at t)
    | inr f ↦ let (m, t) = find-In ys x (rw f at h) in (inr m, t)
  ]

  -- A row that is added last is found when no other is.
  pub find-append :
      (xs : List A) (x : A)
      → find chosen xs ≡ none
      → chosen x ≡ true
      → find chosen (xs ++ x ∷ []) ≡ some x
  unfolding find
  find-append [] x e t = rw t refl
  find-append (y ∷ ys) x e t = elim (Bool-cases (chosen y)) [
    | inl s ↦ cc (rw s at e)
    | inr f ↦ rw (f, find-append ys x (rw f at e) t) refl
  ]

module _ {A : Type 0} where
  -- A list of at most one element.
  pub one_same : (xs : List A) (a b : A) → length xs ≤ 1 → In a xs → In b xs → a ≡ b
  one_same [] a b h m n = absurd m
  one_same (x ∷ []) a b h m n = ground arith
  one_same (x ∷ y ∷ ys) a b h m n = absurd (omega arith)

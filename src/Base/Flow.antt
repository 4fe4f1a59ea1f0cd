-- ===== src/Base/Flow.antt =====
-- Loops with an early `return`, and functions that raise.
use mathlib.Core.Path.{◌≡◌, refl, ap, fun_ext}
use untangle.Base.Lists.{In, flat_map}
use mathlib.Core.Logic.{inl, inr}
use mathlib.Core.List.{List, [], ◌∷◌, ◌++◌}

-- What one round of a loop does: go on with the local variables, or return.
pub data Flow {ℓ κ} (S : Type ℓ) (R : Type κ) : Type (ℓ ⊔ κ) where
  next : S → Flow S R
  stop : R → Flow S R

module _ {ℓ κ} {S : Type ℓ} {R : Type κ} where
  -- The rest of the body runs only if the part before has not returned.
  abbrev pub then_flow : Flow S R → (S → Flow S R) → Flow S R
  then_flow (next s) k = k s
  then_flow (stop r) k = stop r

  -- The value that a function returns whose last statement is `return end(s)`.
  abbrev pub finish : Flow S R → (S → R) → R
  finish (next s) end = end s
  finish (stop r) end = r

module _ {ℓ κ μ} {S : Type ℓ} {R : Type κ} {A : Type μ} where
  -- `for x in xs: ...`
  unfoldable pub for_each : (S → A → Flow S R) → S → List A → Flow S R
  for_each body s [] = next s
  for_each body s (x ∷ xs) = then_flow (body s x) (λ s'. for_each body s' xs)

  pub for_each-nil : (body : S → A → Flow S R) (s : S) → for_each body s [] ≡ next s
  unfolding for_each
  for_each-nil body s = refl

  pub for_each-cons :
      (body : S → A → Flow S R) (s : S) (x : A) (xs : List A)
      → for_each body s (x ∷ xs) ≡ then_flow (body s x) (λ s'. for_each body s' xs)
  unfolding for_each
  for_each-cons body s x xs = refl

  pub for_each-append :
      (body : S → A → Flow S R) (s : S) (xs ys : List A)
      → for_each body s (xs ++ ys) ≡ then_flow (for_each body s xs) (λ s'. for_each body s' ys)
  unfolding for_each
  for_each-append body s [] ys = refl
  for_each-append body s (x ∷ xs) ys = go (body s x) (λ s'. for_each-append body s' xs ys)
    where
      go :
          (f : Flow S R)
          → ((s' : S)
              → for_each body s' (xs ++ ys)
                ≡ then_flow (for_each body s' xs) (λ t. for_each body t ys))
          → then_flow f (λ s'. for_each body s' (xs ++ ys))
            ≡ then_flow (then_flow f (λ s'. for_each body s' xs)) (λ t. for_each body t ys)
      go (next t) ih = ih t
      go (stop r) ih = refl

module _ {ℓ κ μ ν} {S : Type ℓ} {R : Type κ} {A : Type μ} {B : Type ν} where
  -- Two nested loops are one loop over the inner elements, in order.
  pub for_each-flat_map :
      (body : S → B → Flow S R) (inner : A → List B) (s : S) (xs : List A)
      → for_each (λ t x. for_each body t (inner x)) s xs ≡ for_each body s (flat_map inner xs)
  unfolding for_each
  for_each-flat_map body inner s [] = refl
  for_each-flat_map body inner s (x ∷ xs) =
      rw (for_each-append body s (inner x) (flat_map inner xs)) (
        ap (then_flow (for_each body s (inner x)))
          (fun_ext (λ t. for_each-flat_map body inner t xs)))

-- What holds of the variables after a round, and of the value that it returns.
abbrev pub Holds {ℓ κ μ} :
    {S : Type ℓ} {R : Type κ} → (S → Type μ) → (R → Type μ) → Flow S R → Type μ
Holds P Q (next s) = P s
Holds P Q (stop r) = Q r

module _ {ℓ κ μ} {S : Type ℓ} {R : Type κ} (P : S → Type μ) (Q : R → Type μ) where
  pub Holds-then_flow :
      (f : Flow S R) (k : S → Flow S R)
      → Holds P Q f
      → ((s : S) → P s → Holds P Q (k s))
      → Holds P Q (then_flow f k)
  Holds-then_flow (next s) k h step = step s h
  Holds-then_flow (stop r) k h step = h

  pub Holds-finish :
      (f : Flow S R) (end : S → R) → Holds P Q f → ((s : S) → P s → Q (end s)) → Q (finish f end)
  Holds-finish (next s) end h last = last s h
  Holds-finish (stop r) end h last = h

-- An invariant that every round keeps, at every element of the list.
module _ {ℓ κ μ} {S : Type ℓ} {R : Type κ} {A : Type 0} (P : S → Type μ) (Q : R → Type μ) where
  pub for_each-Holds :
      (body : S → A → Flow S R) (s : S) (xs : List A)
      → ((t : S) (x : A) → In x xs → P t → Holds P Q (body t x))
      → P s
      → Holds P Q (for_each body s xs)
  unfolding for_each
  for_each-Holds body s [] step h = h
  for_each-Holds body s (x ∷ xs) step h =
      Holds-then_flow P Q (body s x) (λ t. for_each body t xs) (step s x (inl refl) h)
        (λ t ht. for_each-Holds body t xs (λ u y m. step u y (inr m)) ht)

pub data Result {ℓ κ} (E : Type ℓ) (A : Type κ) : Type (ℓ ⊔ κ) where
  ok : A → Result E A
  err : E → Result E A

infixl 5 ◌>>=◌
abbrev pub ◌>>=◌ {ℓ κ μ} :
    {E : Type ℓ} {A : Type κ} {B : Type μ} → Result E A → (A → Result E B) → Result E B
ok a >>= f = f a
err e >>= f = err e

-- A call whose first step may raise returned: so that step did, and the rest went on from there.
pub bind_returned {ℓ κ μ} :
    {E : Type ℓ} {B : Type κ} {C : Type μ} (first : Result E B) (rest : B → Result E C) {v : C}
    → (first >>= rest) ≡ ok v
    → (u : B) × (first ≡ ok u) × (rest u ≡ ok v)
bind_returned (ok u) rest p = (u, refl, p)
bind_returned (err x) rest p = cc

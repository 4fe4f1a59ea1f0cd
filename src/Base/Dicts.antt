-- ===== src/Base/Dicts.antt =====
-- Laws of dicts and sets: the keys of a dict, its entries, and membership after an `add`.
use mathlib.Core.Path.{◌≡◌, refl, ap, sym, ◌∙◌}
use mathlib.Core.Logic.{inl, inr, ◌⊎◌}
use mathlib.Core.Bool.{true, false, false≢true}
use mathlib.Core.Option.{none, some}
use mathlib.Core.List.{List, [], ◌∷◌, ◌++◌}
use native.Mathlib.Omega.{arith}
use untangle.Base.Lists.{In, In-append_left, In-append_right, In-append_cases}
use untangle.Base.Tests.{if◌then◌else◌, Bool-cases}
use untangle.Base.Keys.{
  Eq, ◌=?◌, =?_eq, =?_refl, contains, add, contains-In, In-contains, contains-append, Dict, lookup,
  insert, keys, Nodup,
}

module _ {A : Type 0} ⦃e : Eq A⦄ where
  pub contains-add :
      (a x : A) (xs : List A) → contains a (add x xs) ≡ (if a =? x then true else contains a xs)
  contains-add a x xs = ground (arith, contains-append a xs (x ∷ []), =?_eq a x)

  pub not_In : (a : A) (xs : List A) → contains a xs ≡ false → ¬ In a xs
  not_In a xs h m = false≢true (sym h ∙ In-contains a xs m)

  pub not_contains : (a : A) (xs : List A) → ¬ In a xs → contains a xs ≡ false
  not_contains a xs h = elim (Bool-cases (contains a xs)) [
    | inl t ↦ absurd (h (contains-In a xs t))
    | inr f ↦ f
  ]

  pub In-add : (a x : A) (xs : List A) → In a xs ⊎ (a ≡ x) → In a (add x xs)
  In-add a x xs h = elim (Bool-cases (contains x xs)) [
    | inl t ↦ rw t (elim h [ inl m ↦ m | inr e ↦ rw e (contains-In x xs t) ])
    | inr f ↦
        rw f (elim h [ inl m ↦ In-append_left a xs _ m | inr e ↦ In-append_right a xs _ (inl e) ])
  ]

  pub In-of_add : (a x : A) (xs : List A) → In a (add x xs) → In a xs ⊎ (a ≡ x)
  In-of_add a x xs m = elim (Bool-cases (contains x xs)) [
    | inl t ↦ inl (rw t at m)
    | inr f ↦ elim (In-append_cases a xs (x ∷ []) (rw f at m)) [
      | inl l ↦ inl l
      | inr r ↦ elim r [ inl q ↦ inr q | inr z ↦ absurd z ]
    ]
  ]

  Nodup-snoc : (x : A) (xs : List A) → contains x xs ≡ false → Nodup xs → Nodup (xs ++ x ∷ [])
  Nodup-snoc x [] h d = (refl, tt)
  Nodup-snoc x (y ∷ ys) h d = (
    ground (arith, contains-append y ys (x ∷ []), =?_eq y x, =?_refl x),
    Nodup-snoc x ys (ground arith) d.1,
  )

  pub Nodup-add : (x : A) (xs : List A) → Nodup xs → Nodup (add x xs)
  Nodup-add x xs d = elim (Bool-cases (contains x xs)) [
    | inl t ↦ rw t d
    | inr f ↦ rw f (Nodup-snoc x xs f d)
  ]

module _ {K V : Type 0} ⦃e : Eq K⦄ where
  pub keys-insert : (k : K) (v : V) (d : Dict K V) → keys (insert k v d) ≡ add k (keys d)
  keys-insert k v [] = refl
  keys-insert k v ((j, w) ∷ d) = ground (arith, keys-insert k v d)

  pub In-keys : (k : K) (v : V) (d : Dict K V) → In (k, v) d → In k (keys d)
  In-keys k v [] m = elim m [ ]
  In-keys k v ((j, w) ∷ d) (inl p) = inl (ap (λ (q : K × V). q.0) p)
  In-keys k v ((j, w) ∷ d) (inr m) = inr (In-keys k v d m)

  pub In-lookup :
      (k : K) (v : V) (d : Dict K V) → Nodup (keys d) → In (k, v) d → lookup k d ≡ some v
  In-lookup k v [] h m = elim m [ ]
  In-lookup k v ((j, w) ∷ d) h (inl p) = ground (arith, =?_refl j)
  In-lookup k v ((j, w) ∷ d) h (inr m) =
      ground (arith, In-lookup k v d h.1 m, =?_eq k j, In-contains k (keys d) (In-keys k v d m))

  pub lookup-In : (k : K) (v : V) (d : Dict K V) → lookup k d ≡ some v → In (k, v) d
  lookup-In k v [] h = cc
  lookup-In k v ((j, w) ∷ d) h = elim (Bool-cases (k =? j)) [
    | inl t ↦ inl (ground (arith, =?_eq k j t))
    | inr f ↦ inr (lookup-In k v d (ground arith))
  ]

  pub lookup-keys : (k : K) (v : V) (d : Dict K V) → lookup k d ≡ some v → In k (keys d)
  lookup-keys k v d h = In-keys k v d (lookup-In k v d h)

  pub lookup-none : (k : K) (d : Dict K V) → ¬ In k (keys d) → lookup k d ≡ none
  lookup-none k [] h = refl
  lookup-none k ((j, w) ∷ d) h = elim (Bool-cases (k =? j)) [
    | inl t ↦ absurd (h (inl (=?_eq k j t)))
    | inr f ↦ rw f (lookup-none k d (λ m. h (inr m)))
  ]

  pub keys-In : (k : K) (d : Dict K V) → In k (keys d) → (v : V) × In (k, v) d
  keys-In k [] m = elim m [ ]
  keys-In k ((j, w) ∷ d) (inl p) = (w, inl (rw p refl))
  keys-In k ((j, w) ∷ d) (inr m) = let (v, n) = keys-In k d m in (v, inr n)

  -- An entry of the dict after an assignment is the new one or an old one.
  pub In-of_insert :
      (k j : K) (v w : V) (d : Dict K V)
      → In (j, w) (insert k v d)
      → ((j ≡ k) × (w ≡ v)) ⊎ In (j, w) d
  In-of_insert k j v w [] (inl p) = inl (ap (λ x. x.0) p, ap (λ x. x.1) p)
  In-of_insert k j v w [] (inr m) = elim m [ ]
  In-of_insert k j v w ((i, u) ∷ d) m = elim (Bool-cases (k =? i)) [
    | inl t ↦ elim (rw (t, insert) at m) [
      | inl p ↦ inl (ap (λ x. x.0) p ∙ sym (=?_eq k i t), ap (λ x. x.1) p)
      | inr n ↦ inr (inr n)
    ]
    | inr f ↦ elim (rw (f, insert) at m) [
      | inl p ↦ inr (inl p)
      | inr n ↦ elim (In-of_insert k j v w d n) [ inl p ↦ inl p | inr l ↦ inr (inr l) ]
    ]
  ]

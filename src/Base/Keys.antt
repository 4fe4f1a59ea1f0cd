-- ===== src/Base/Keys.antt =====
-- Types whose values are compared for equality, and Python's dict and set over them, as lists in
-- insertion order.
use Prim.Native.Nat.{ℕ, ◌+◌, ◌≤◌}
use Prim.Native.String.{String}
use text.Mathlib.Text.{◌==◌ as str_eq}
use text.Mathlib.TextEquality.{eq_iff}
use mathlib.Core.Path.{◌≡◌, refl, ap, sym, ◌∙◌}
use mathlib.Core.Logic.{◌↔◌, ◌≢◌, inl, inr}
use mathlib.Core.Bool.{Bool, true, false, not, ◌&&◌, false≢true}
use mathlib.Core.Option.{Option, none, some}
use mathlib.Core.List.{List, [], ◌∷◌, ◌++◌}
use native.Mathlib.Omega.{arith}
use untangle.Base.Int.{ℤ, ◌==ℤ◌, ==ℤ_iff}
use untangle.Base.Lists.{In, length, length-append}
use untangle.Base.Tests.{if◌then◌else◌, ◌==◌, Bool-cases}

pub record Eq {ℓ} (A : Type ℓ) : Type ℓ where
  pub beq : A → A → Bool
  pub beq_iff : (a b : A) → (beq a b ≡ true) ↔ (a ≡ b)

infix 50 ◌=?◌
-- `a == b`
abbrev pub ◌=?◌ {ℓ} : {A : Type ℓ} ⦃e : Eq A⦄ → A → A → Bool
◌=?◌ ⦃e⦄ = e.beq

instance abbrev pub string_eq : Eq String
string_eq = record { beq = str_eq; beq_iff = eq_iff }

instance abbrev pub int_eq : Eq ℤ
int_eq = record { beq = ◌==ℤ◌; beq_iff = ==ℤ_iff }

abbrev pub bool_beq : Bool → Bool → Bool
bool_beq true b = b
bool_beq false b = not b

pub bool_beq_iff : (a b : Bool) → (bool_beq a b ≡ true) ↔ (a ≡ b)
bool_beq_iff a b = (λ h. ground arith, λ h. ground arith)

instance abbrev pub bool_eq : Eq Bool
bool_eq = record { beq = bool_beq; beq_iff = bool_beq_iff }

pub nat_beq_iff : (a b : ℕ) → ((a == b) ≡ true) ↔ (a ≡ b)
nat_beq_iff a b = ground arith

instance abbrev pub nat_eq : Eq ℕ
nat_eq = record { beq = ◌==◌; beq_iff = nat_beq_iff }

module _ {ℓ} {A : Type ℓ} ⦃e : Eq A⦄ where
  abbrev pub option_beq : Option A → Option A → Bool
  option_beq none none = true
  option_beq none (some b) = false
  option_beq (some a) none = false
  option_beq (some a) (some b) = a =? b

  pub option_beq_iff : (a b : Option A) → (option_beq a b ≡ true) ↔ (a ≡ b)
  option_beq_iff none none = (λ h. refl, λ h. refl)
  option_beq_iff none (some b) = (λ h. cc, λ h. cc)
  option_beq_iff (some a) none = (λ h. cc, λ h. cc)
  option_beq_iff (some a) (some b) =
      (λ h. ap some ((e.beq_iff a b).0 h), λ h. (e.beq_iff a b).1 (cc))

  instance abbrev pub option_eq : Eq (Option A)
  option_eq = record { beq = option_beq; beq_iff = option_beq_iff }

module _ {ℓ} {A : Type ℓ} ⦃e : Eq A⦄ where
  pub =?_eq : (a b : A) → (a =? b) ≡ true → a ≡ b
  =?_eq a b = (e.beq_iff a b).0

  pub =?_refl : (a : A) → (a =? a) ≡ true
  =?_refl a = (e.beq_iff a a).1 refl

  pub =?_ne : (a b : A) → (a =? b) ≡ false → a ≢ b
  =?_ne a b h p = ground (arith, (e.beq_iff a b).1 p)

module _ {ℓ κ} {A : Type ℓ} {B : Type κ} ⦃e : Eq A⦄ ⦃f : Eq B⦄ where
  abbrev pub pair_beq : A × B → A × B → Bool
  pair_beq p q = (p.0 =? q.0) && (p.1 =? q.1)

  pub pair_beq_iff : (p q : A × B) → (pair_beq p q ≡ true) ↔ (p ≡ q)
  pair_beq_iff p q = (
    λ h. ground (arith, (e.beq_iff p.0 q.0).0, (f.beq_iff p.1 q.1).0),
    λ h. ground (arith, (e.beq_iff p.0 q.0).1, (f.beq_iff p.1 q.1).1),
  )

  instance abbrev pub pair_eq : Eq (A × B)
  pair_eq = record { beq = pair_beq; beq_iff = pair_beq_iff }

module _ {A : Type 0} ⦃e : Eq A⦄ where
  -- `a in xs`
  abbrev pub contains : A → List A → Bool
  contains a [] = false
  contains a (x ∷ xs) = let rest = contains a xs in if a =? x then true else rest

  -- `xs.add(a)` of a set
  abbrev pub add : A → List A → List A
  add a xs = if contains a xs then xs else xs ++ a ∷ []

  pub contains-In : (a : A) (xs : List A) → contains a xs ≡ true → In a xs
  contains-In a [] h = ground arith
  contains-In a (x ∷ xs) h = ground (arith, contains-In a xs, =?_eq a x)

  pub In-contains : (a : A) (xs : List A) → In a xs → contains a xs ≡ true
  In-contains a [] m = elim m [ ]
  In-contains a (x ∷ xs) m = ground (arith, In-contains a xs, (e.beq_iff a x).1)

  pub contains-append :
      (a : A) (xs ys : List A)
      → contains a (xs ++ ys) ≡ (if contains a xs then true else contains a ys)
  contains-append a [] ys = refl
  contains-append a (x ∷ xs) ys = ground (arith, contains-append a xs ys)

-- A dict in insertion order, with one entry for each key.
abbrev pub Dict {ℓ} : Type ℓ → Type ℓ → Type ℓ
Dict K V = List (K × V)

module _ {ℓ} {K V : Type ℓ} ⦃e : Eq K⦄ where
  -- `d.get(k)`
  abbrev pub lookup : K → Dict K V → Option V
  lookup k [] = none
  lookup k ((j, v) ∷ d) = let rest = lookup k d in if k =? j then some v else rest

  -- `d[k] = v`: an old key keeps its place.
  abbrev pub insert : K → V → Dict K V → Dict K V
  insert k v [] = (k, v) ∷ []
  insert k v ((j, w) ∷ d) = let rest = insert k v d in if k =? j then (j, v) ∷ d else (j, w) ∷ rest

  -- `for k in d`
  abbrev pub keys : Dict K V → List K
  keys [] = []
  keys ((j, w) ∷ d) = j ∷ keys d

  pub lookup-insert :
      (j k : K) (v : V) (d : Dict K V)
      → lookup j (insert k v d) ≡ (if j =? k then some v else lookup j d)
  lookup-insert j k v [] = refl
  lookup-insert j k v ((i, w) ∷ d) =
      ground (arith, lookup-insert j k v d, e.beq_iff k i, e.beq_iff j k, e.beq_iff j i)

-- `set(xs)`, in order of first occurrence.
module _ {A : Type 0} ⦃e : Eq A⦄ where
  abbrev pub to_set_from : List A → List A → List A
  to_set_from acc [] = acc
  to_set_from acc (x ∷ xs) = to_set_from (add x acc) xs

  abbrev pub to_set : List A → List A
  to_set xs = to_set_from [] xs

  -- No element occurs twice.
  abbrev pub Nodup : List A → Type 0
  Nodup [] = Unit
  Nodup (x ∷ xs) = (contains x xs ≡ false) × Nodup xs

  length-add-le : (x : A) (acc : List A) → length (add x acc) ≤ length acc + 1
  length-add-le x acc = ground (arith, length-append acc (x ∷ []))

  length-to_set_from-le : (acc xs : List A) → length (to_set_from acc xs) ≤ length acc + length xs
  length-to_set_from-le acc [] = omega arith
  length-to_set_from-le acc (x ∷ xs) =
      omega (arith, length-to_set_from-le (add x acc) xs, length-add-le x acc)

  not_contains : (x : A) (xs : List A) → ¬ In x xs → contains x xs ≡ false
  not_contains x xs h = elim (Bool-cases (contains x xs)) [
    | inl seen ↦ absurd (h (contains-In x xs seen))
    | inr new ↦ new
  ]

  contains_of_append :
      (a x : A) (acc : List A)
      → contains a (acc ++ x ∷ []) ≡ false
      → (contains a acc ≡ false) × (a ≢ x)
  contains_of_append a x acc h = (
    ground (arith, contains-append a acc (x ∷ [])),
    λ p. ground (arith, contains-append a acc (x ∷ []), (e.beq_iff a x).1 p),
  )

  -- A set as large as the list shows that no element of the list was there before.
  Nodup-of_to_set_from :
      (acc xs : List A)
      → length (to_set_from acc xs) ≡ length acc + length xs
      → Nodup xs × ((a : A) → In a xs → contains a acc ≡ false)
  Nodup-of_to_set_from acc [] h = (tt, λ a m. elim m [ ])
  Nodup-of_to_set_from acc (x ∷ xs) h = elim (Bool-cases (contains x acc)) [
    | inl seen ↦
        let p : to_set_from (add x acc) xs ≡ to_set_from acc xs = rw seen in
        absurd (omega (arith, length-to_set_from-le acc xs, ap (length {A = A}) p))
    | inr new ↦
        let p : to_set_from (add x acc) xs ≡ to_set_from (acc ++ x ∷ []) xs = rw new in
        let (nodup, fresh) =
          Nodup-of_to_set_from (acc ++ x ∷ []) xs
            (omega (arith, ap (length {A = A}) p, length-append acc (x ∷ []))) in
        (
          (not_contains x xs (λ m. (contains_of_append x x acc (fresh x m)).1 refl), nodup),
          λ a m. elim m [ inl q ↦ rw q new | inr k ↦ (contains_of_append a x acc (fresh a k)).0 ],
        )
  ]

  pub Nodup-of_to_set : (xs : List A) → length (to_set xs) ≡ length xs → Nodup xs
  Nodup-of_to_set xs h = (Nodup-of_to_set_from [] xs (omega arith)).0

  contains_append_ne :
      (a x : A) (acc : List A) → contains a acc ≡ false → a ≢ x → contains a (acc ++ x ∷ []) ≡ false
  contains_append_ne a x acc h n = ground (arith, contains-append a acc (x ∷ []), =?_eq a x)

  length-to_set_from :
      (acc xs : List A)
      → Nodup xs
      → ((a : A) → In a xs → contains a acc ≡ false)
      → length (to_set_from acc xs) ≡ length acc + length xs
  length-to_set_from acc [] d h = omega arith
  length-to_set_from acc (x ∷ xs) d h =
      let new : contains x acc ≡ false = h x (inl refl) in
      let p : to_set_from (add x acc) xs ≡ to_set_from (acc ++ x ∷ []) xs = rw new in
      let fresh : (a : A) → In a xs → contains a (acc ++ x ∷ []) ≡ false = λ a m.
        contains_append_ne a x acc (h a (inr m))
          (λ q. false≢true (sym d.0 ∙ In-contains x xs (rw q at m))) in
      omega (
        arith,
        ap (length {A = A}) p,
        length-append acc (x ∷ []),
        length-to_set_from (acc ++ x ∷ []) xs d.1 fresh,
      )

  pub length-to_set : (xs : List A) → Nodup xs → length (to_set xs) ≡ length xs
  length-to_set xs d = omega (arith, length-to_set_from [] xs d (λ a m. refl))

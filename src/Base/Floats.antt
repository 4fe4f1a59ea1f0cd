-- ===== src/Base/Floats.antt =====
-- Python's floats, which the language has not: the operations that the engine uses on them are those
-- of a type parameter. A literal is a number of ten-thousandths; no modelled code divides, and
-- `round(x, n)` is an operation too. The laws are those of floats that are no NaN.
use Prim.Native.Nat.{ℕ}
use mathlib.Core.Path.{◌≡◌}
use mathlib.Core.Bool.{Bool, true, false, not, ◌&&◌}
use native.Mathlib.Omega.{arith}
use untangle.Base.Tests.{if◌then◌else◌}

pub record Floats (F : Type 0) : Type 0 where
  pub decimal : ℕ → F
  pub leq : F → F → Bool
  pub plus : F → F → F
  pub minus : F → F → F
  pub times : F → F → F
  pub round : ℕ → F → F

-- A total preorder, given by its test.
pub record IsOrder {A : Type 0} (leq : A → A → Bool) : Type 0 where
  pub total : (a b : A) → leq a b ≡ false → leq b a ≡ true
  pub trans : (a b c : A) → leq a b ≡ true → leq b c ≡ true → leq a c ≡ true

module _ {F : Type 0} ⦃fl : Floats F⦄ where
  -- `a < b`
  abbrev pub less : F → F → Bool
  less a b = not (fl.leq b a)

  -- `a == b`
  abbrev pub same : F → F → Bool
  same a b = fl.leq a b && fl.leq b a

  -- `max(a, b)` and `min(a, b)`: the first of equals.
  abbrev pub max_float : F → F → F
  max_float a b = if less a b then b else a

  abbrev pub min_float : F → F → F
  min_float a b = if less b a then b else a

-- The comparison of tuples by their first members, and by the rest where these are equal: `ab` and
-- `ba` are the two comparisons of the first members.
abbrev pub lex : Bool → Bool → Bool → Bool
lex ab ba rest = if ab then (if ba then rest else true) else false

module _ {A C : Type 0} (f : C → A) (leq : A → A → Bool) (rest : C → C → Bool) where
  abbrev pub lex_by : C → C → Bool
  lex_by x y = lex (leq (f x) (f y)) (leq (f y) (f x)) (rest x y)

  pub lex_by-IsOrder : IsOrder leq → IsOrder rest → IsOrder lex_by
  lex_by-IsOrder o r = record {
    total = λ x y h. ground (arith, o.total (f x) (f y), r.total x y);
    trans = λ x y z h k. ground (
      arith,
      o.trans (f x) (f y) (f z),
      o.trans (f z) (f x) (f y),
      o.trans (f y) (f z) (f x),
      r.trans x y z,
    );
  }

pub by-IsOrder :
    {A C : Type 0} (f : C → A) (leq : A → A → Bool) → IsOrder leq → IsOrder (λ x y. leq (f x) (f y))
by-IsOrder f leq o = record {
  total = λ x y h. o.total (f x) (f y) h;
  trans = λ x y z h k. o.trans (f x) (f y) (f z) h k;
}

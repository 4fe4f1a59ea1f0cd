-- ===== src/Subsets/Distinct.antt =====
-- engine/bounded_subsets.py: which ids a subset may count twice. `find_bounded_subsets` never does;
-- `find_legacy_subsets` may take its first item again as the third.
use text.Mathlib.TextPositions.{compare_refl}
use untangle.Base.{
  ℕ, ◌≡◌, refl, inl, inr, ◌⊎◌, String, Bool-cases, true, false, List, [], ◌∷◌, map, length, leb,
  ltb, arith,
}
use untangle.Base.Keys.{Nodup, Nodup-of_to_set, ◌=?◌, =?_eq, string_eq}
use untangle.Base.Int.{ℤ, pos, leb_ℤ, ltb_ℤ}
use untangle.Base.Flow.{ok}
use untangle.Subsets.Defs.{
  Item, item_id, BoundedSubsetResult, defaults, has_duplicates, text_le, find_bounded_subsets,
}

-- Three ids, of which the third is the first again, and stands after the second in the order of ids.
pub record Repeats (ids : List String) : Type 0 where
  pub first : String
  pub second : String
  pub shape : ids ≡ first ∷ second ∷ first ∷ []
  pub below : text_le first second ≡ false

-- Each id once, or three ids with a repeated one; the latter only in a pool of more than 16 items.
abbrev pub Counted : ℕ → List String → Type 0
Counted pool ids = Nodup ids ⊎ (Repeats ids × (ltb 16 pool ≡ true))

text_le_refl : (s : String) → text_le s s ≡ true
text_le_refl s = rw (text_le, compare_refl s) refl

apart_of_text_le : (s t : String) → text_le s t ≡ false → (t =? s) ≡ false
apart_of_text_le s t h = elim (Bool-cases (t =? s)) [
  | inl e ↦ cc (text_le_refl s, =?_eq t s e, h)
  | inr f ↦ f
]

pub pair-Nodup : (x k : String) → text_le k x ≡ false → Nodup (x ∷ k ∷ [])
pair-Nodup x k h = (rw (apart_of_text_le k x h) refl, (refl, tt))

pub triple_counted :
    (x y k : String)
    → (x =? y) ≡ false
    → text_le k y ≡ false
    → Nodup (x ∷ y ∷ k ∷ []) ⊎ Repeats (x ∷ y ∷ k ∷ [])
triple_counted x y k d h = elim (Bool-cases (x =? k)) [
  | inl e ↦
      let q : x ≡ k = =?_eq x k e in
      inr (record { first = x; second = y; shape = rw q refl; below = rw q h })
  | inr f ↦ inl (rw (d, f) refl, (rw (apart_of_text_le k y h) refl, (refl, tt)))
]

pub Nodup-of_has_duplicates :
    (items : List Item) → has_duplicates items ≡ false → Nodup (map item_id items)
Nodup-of_has_duplicates items h = Nodup-of_to_set (map item_id items) (ground arith)

-- The bounded search raises on a repeated id, unless the pool is over its limit of items.
pub find_bounded_subsets-Nodup :
    (items : List Item) (target : ℤ) (r : BoundedSubsetResult)
    → find_bounded_subsets items target (record defaults { sort_items = false }) ≡ ok r
    → leb (length items) 16 ≡ true
    → Nodup (map item_id items)
unfolding find_bounded_subsets
find_bounded_subsets-Nodup items target r h few =
    Nodup-of_has_duplicates items (elim (Bool-cases (has_duplicates items)) [
      | inr f ↦ f
      | inl t ↦
          let small : ltb_ℤ (pos 16) (pos (length items)) ≡ false = ground arith in
          elim (Bool-cases (leb_ℤ target (pos 0))) [
            | inl low ↦ cc (rw low at h)
            | inr go ↦ cc (rw (go, small, t) at h)
          ]
    ])

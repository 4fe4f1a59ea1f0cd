-- ===== src/Subsets/LegacySound.antt =====
-- engine/bounded_subsets.py: what each subset that `find_legacy_subsets` returns consists of.
use untangle.Base.{
  ℕ, ◌≡◌, refl, ap, ◌∙◌, String, false, ◌⊎◌, inl, inr, List, [], ◌∷◌, ◌++◌, map, length, any, leb,
  In, In-append_cases, All, All-append, Bool-cases, if◌then◌else◌, arith,
}
use untangle.Base.Int.{ℤ, pos, pos_part, sum, ◌-ℤ◌, int_laws, leb_ℤ, ==ℤ_iff, ◌==ℤ◌}
use untangle.Base.Keys.{Dict, insert, lookup-insert, contains, Nodup, ◌=?◌, int_eq, string_eq}
use untangle.Base.Flow.{for_each, Holds, Holds-then_flow, Holds-finish, for_each-Holds, ok}
use untangle.Subsets.Defs.{Item, item_id, value, BoundedSubsetResult, has_duplicates, text_le}
use untangle.Subsets.Distinct.{Repeats, pair-Nodup, triple_counted, Nodup-of_has_duplicates}
use untangle.Subsets.Legacy.{
  or_empty, ids_at, index_values, same_set, Seen, record_match, pair_step, pairs, triple_step,
  second_step, triples, legacy_search, find_legacy_subsets,
}

-- The index lists, under an amount, only ids of items with that amount.
abbrev IndexOf : List Item → Dict ℤ (List String) → Type 0
IndexOf items d = (v : ℤ) (k : String) → In k (ids_at v d) → In (k, v) items

ids_at-insert :
    (v w : ℤ) (ids : List String) (d : Dict ℤ (List String))
    → ids_at v (insert w ids d) ≡ (if v ==ℤ w then ids else ids_at v d)
ids_at-insert v w ids d =
    ap or_empty (lookup-insert v w ids d)
    ∙ elim (Bool-cases (v ==ℤ w)) [ inl e ↦ rw e refl | inr e ↦ rw e refl ]

index_step :
    (items : List Item) (x : Item) (d : Dict ℤ (List String))
    → IndexOf items d
    → In x items
    → IndexOf items (insert (value x) (ids_at (value x) d ++ item_id x ∷ []) d)
index_step items x d h m v k n = elim (Bool-cases (v ==ℤ value x)) [
  | inl e ↦
      let same : v ≡ value x = (==ℤ_iff v (value x)).0 e in
      elim (In-append_cases k (ids_at (value x) d) (item_id x ∷ [])
        (rw (ids_at-insert v (value x) (ids_at (value x) d ++ item_id x ∷ []) d, e) at n)) [
          | inl old ↦ rw same (h (value x) k old)
          | inr (inl q) ↦ rw (same, q) m
          | inr (inr q) ↦ absurd q
        ]
  | inr e ↦ h v k (rw (ids_at-insert v (value x) (ids_at (value x) d ++ item_id x ∷ []) d, e) at n)
]

index_values-IndexOf :
    (items xs : List Item) (d : Dict ℤ (List String))
    → IndexOf items d
    → ((x : Item) → In x xs → In x items)
    → IndexOf items (index_values d xs)
unfolding index_values
index_values-IndexOf items [] d h sub = h
index_values-IndexOf items (x ∷ xs) d h sub =
    index_values-IndexOf items xs (insert (value x) (ids_at (value x) d ++ item_id x ∷ []) d)
      (index_step items x d h (sub x (inl refl))) (λ y m. sub y (inr m))

-- The id of an item is not that of one further on.
apart :
    (x y : Item) (xs : List Item)
    → contains (item_id x) (map item_id xs) ≡ false
    → In y xs
    → (item_id x =? item_id y) ≡ false
apart x y [] h m = absurd m
apart x y (z ∷ zs) h (inl q) = rw q (ground (arith, h))
apart x y (z ∷ zs) h (inr m) = apart x y zs (ground (arith, h)) m

module _ (items : List Item) (target : ℤ) where
  -- `s` is the ids of two or three of the items, which add up to the target. Each is there once,
  -- but for a triple whose third id is its first again.
  pub record AddsUp (s : List String) : Type 0 where
    pub picks : List Item
    pub from_items : All (λ i. In i items) picks
    pub size : (length picks ≡ 2) ⊎ (length picks ≡ 3)
    pub total : sum (map value picks) ≡ target
    pub ids : s ≡ map item_id picks
    pub counted : Nodup s ⊎ Repeats s

  abbrev SeenGood : Seen → Type 0
  SeenGood s = All AddsUp s.1

  abbrev ResultGood : BoundedSubsetResult → Type 0
  ResultGood r = (r.exhausted ≡ false) × All AddsUp r.subsets

  record_match-Holds :
      (want : ℕ) (s : Seen) (subset : List String)
      → SeenGood s
      → AddsUp subset
      → Holds SeenGood ResultGood (record_match want s subset)
  unfolding record_match
  record_match-Holds want (seen, matches) subset h g =
      let all_good = All-append AddsUp matches (subset ∷ []) h (g, tt) in
      elim (Bool-cases (any (same_set subset) seen)) [
        | inl old ↦ rw old h
        | inr new ↦ elim (Bool-cases (leb want (length (matches ++ subset ∷ [])))) [
          | inl full ↦ rw (new, full) (refl, all_good)
          | inr more ↦ rw (new, more) all_good
        ]
      ]

  module _ (want : ℕ) (index : Dict ℤ (List String)) (indexed : IndexOf items index) where
    pair_step-Holds :
        (x : Item) (u : Seen) (k : String)
        → In x items
        → In (k, target -ℤ value x) items
        → SeenGood u
        → Holds SeenGood ResultGood (pair_step want target index x u k)
    unfolding pair_step
    pair_step-Holds x u k m n hu = elim (Bool-cases (text_le k (item_id x))) [
      | inl low ↦ rw low hu
      | inr high ↦ rw high (
          record_match-Holds want u (item_id x ∷ k ∷ []) hu (record {
            picks = x ∷ (k, target -ℤ value x) ∷ [];
            from_items = (m, (n, tt));
            size = inl refl;
            total = omega int_laws;
            ids = refl;
            counted = inl (pair-Nodup (item_id x) k high);
          }))
    ]

    triple_step-Holds :
        (x y : Item) (u : Seen) (k : String)
        → In x items
        → In y items
        → (item_id x =? item_id y) ≡ false
        → In (k, target -ℤ value x -ℤ value y) items
        → SeenGood u
        → Holds SeenGood ResultGood (triple_step want target index x y u k)
    unfolding triple_step
    triple_step-Holds x y u k m l d n hu = elim (Bool-cases (text_le k (item_id y))) [
      | inl low ↦ rw low hu
      | inr high ↦ rw high (
          record_match-Holds want u (item_id x ∷ item_id y ∷ k ∷ []) hu (record {
            picks = x ∷ y ∷ (k, target -ℤ value x -ℤ value y) ∷ [];
            from_items = (m, (l, (n, tt)));
            size = inr refl;
            total = omega int_laws;
            ids = refl;
            counted = triple_counted (item_id x) (item_id y) k d high;
          }))
    ]

    second_step-Holds :
        (x : Item) (u : Seen) (y : Item)
        → In x items
        → In y items
        → (item_id x =? item_id y) ≡ false
        → SeenGood u
        → Holds SeenGood ResultGood (second_step want target index x u y)
    unfolding second_step
    second_step-Holds x u y m l d hu =
        elim (Bool-cases (leb_ℤ (target -ℤ value x -ℤ value y) (pos 0))) [
          | inl low ↦ rw low hu
          | inr high ↦ rw high (
              for_each-Holds SeenGood ResultGood (triple_step want target index x y) u
                (ids_at (target -ℤ value x -ℤ value y) index)
                (λ t k n ht. triple_step-Holds x y t k m l d (indexed _ k n) ht) hu)
        ]

    triples-Holds :
        (s : Seen) (xs : List Item)
        → ((x : Item) → In x xs → In x items)
        → Nodup (map item_id xs)
        → SeenGood s
        → Holds SeenGood ResultGood (triples want target index s xs)
    unfolding triples
    triples-Holds s [] sub d h = h
    triples-Holds s (x ∷ xs) sub d h =
        Holds-then_flow SeenGood ResultGood (for_each (second_step want target index x) s xs) _
          (for_each-Holds SeenGood ResultGood (second_step want target index x) s xs
            (λ t y n ht.
              second_step-Holds x t y (sub x (inl refl)) (sub y (inr n)) (apart x y xs d.0 n) ht)
            h)
          (λ t ht. triples-Holds t xs (λ y n. sub y (inr n)) d.1 ht)

    pairs-Holds :
        (s : Seen) (xs : List Item)
        → ((x : Item) → In x xs → In x items)
        → SeenGood s
        → Holds SeenGood ResultGood (pairs want target index s xs)
    unfolding pairs
    pairs-Holds s xs sub h =
        for_each-Holds SeenGood ResultGood _ s xs
          (λ t x m ht.
            for_each-Holds SeenGood ResultGood (pair_step want target index x) t
              (ids_at (target -ℤ value x) index)
              (λ u k n hu. pair_step-Holds x u k (sub x m) (indexed _ k n) hu) ht)
          h

legacy_search-good :
    (items : List Item) (target : ℤ) (want : ℕ)
    → Nodup (map item_id items)
    → ResultGood items target (legacy_search want target items)
unfolding legacy_search
legacy_search-good items target want distinct =
    let index = index_values [] items in
    let indexed : IndexOf items index =
      index_values-IndexOf items items [] (λ v k m. elim m [ ]) (λ x m. m) in
    let good = SeenGood items target in
    let result = ResultGood items target in
    Holds-finish good result _ _
      (Holds-then_flow good result (pairs want target index ([], []) items) _
        (pairs-Holds items target want index indexed ([], []) items (λ x m. m) tt)
        (λ s hs. triples-Holds items target want index indexed s items (λ x m. m) distinct hs))
      (λ s hs. (refl, hs))

-- Every subset that the legacy search returns is the ids of two or three items of the list, whose
-- amounts add up to the target when an item counts as often as its id is there. Each id is there
-- once, but for one case that the search lets through: three ids, of which the third is the first
-- again and comes after the second in the order of ids.
pub find_legacy_subsets_sound :
    (items : List Item) (target max_results : ℤ) (r : BoundedSubsetResult)
    → find_legacy_subsets items target max_results ≡ ok r
    → (r.exhausted ≡ false) × All (AddsUp items target) r.subsets
unfolding find_legacy_subsets
find_legacy_subsets_sound items target max_results r h = rw ok_search.0 (
    legacy_search-good items target (pos_part max_results)
      (Nodup-of_has_duplicates items ok_search.1))
  where
    ok_search :
        (r ≡ legacy_search (pos_part max_results) target items) × (has_duplicates items ≡ false)
    ok_search = ground arith

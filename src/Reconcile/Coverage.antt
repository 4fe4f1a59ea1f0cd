-- ===== src/Reconcile/Coverage.antt =====
-- reconcile.py: what the amount search for one credit returns.
use mathlib.Core.List.{map-append}
use untangle.Base.{
  ◌≡◌, ◌≤◌, Bool, refl, ap, sym, ◌∙◌, inl, inr, ◌⊎◌, String, true, false, ◌||◌, some, Bool-cases,
  Option-cases, List, [], ◌∷◌, ◌++◌, map, filter, length, any, In, In-of_map, In-of_filter, All,
  All-In, All-append, All-of_In, All-imp, leb, ltb, ◌==◌, arith,
}
use untangle.Base.Int.{ℤ, pos, abs, sum, ◌+ℤ◌, ◌-ℤ◌, sum-append, int_laws, ◌<ℤ◌}
use untangle.Base.Keys.{Dict, lookup, keys, contains, string_eq, int_eq, Nodup}
use untangle.Base.Dicts.{In-keys}
use untangle.Base.Flow.{ok, Result, bind_returned}
use untangle.Models.{BankCreditLine}
use untangle.Subsets.{Item, item_id, value, BoundedSubsetResult, ValueError}
use untangle.Subsets.Distinct.{Counted, Repeats}
use untangle.Subsets.Combinations.{Sublist-In, Sublist-Nodup, filter-Sublist}
use untangle.Subsets.Exact.{find_bounded_subsets_sound}
use untangle.Subsets.Legacy.{same_set}
use untangle.Subsets.LegacySound.{AddsUp, find_legacy_subsets_sound}
use untangle.Subsets.Total.{IsPool}
use untangle.Reconcile.Index.{SettlementIndex, within_window, rows_under, or_else}
use untangle.Reconcile.IndexLaws.{IsConsistent, nets}
use untangle.Reconcile.Defs.{
  Marks, setsum_options, add_subsets, usable, single_matches, candidates, setsum_search,
  setsum_matches, decide_subset, amount_or_setsum_sids, covered_net,
}

pub covered_net-append :
    (s : SettlementIndex) (xs ys : List String)
    → covered_net s (xs ++ ys) ≡ covered_net s xs +ℤ covered_net s ys
covered_net-append s [] ys = omega int_laws
covered_net-append s (x ∷ xs) ys =
    rw (map-append, sum-append, covered_net-append s xs ys, map-append, sum-append) (omega int_laws)

covered_net-cons :
    (s : SettlementIndex) (x : String) (xs : List String)
    → covered_net s (x ∷ xs) ≡ nets (rows_under s.rows_by_sid x) +ℤ covered_net s xs
covered_net-cons s x xs = rw (map-append, sum-append) refl

length-filter_imp :
    (p q : Item → Bool) (xs : List Item)
    → ((i : Item) → p i ≡ true → q i ≡ true)
    → length (filter p xs) ≤ length (filter q xs)
length-filter_imp p q [] h = omega arith
length-filter_imp p q (x ∷ xs) h =
    let rest = length-filter_imp p q xs h in
    elim (Bool-cases (p x)) [
      | inl t ↦ rw (t, h x t) (omega (arith, rest))
      | inr f ↦ elim (Bool-cases (q x)) [
        | inl t ↦ rw (f, t) (omega (arith, rest))
        | inr g ↦ rw (f, g) rest
      ]
    ]

-- Uses take candidates away.
pub length-candidates :
    (s : SettlementIndex) (line : BankCreditLine) (used : List String)
    → length (candidates s line used) ≤ length (candidates s line [])
unfolding candidates
length-candidates s line used = length-filter_imp _ _ s.net_by_sid (λ i h. ground arith)

-- What makes `sids` an admissible coverage of the credit. A settlement adds to `exact` as often as it
-- is there: once, but for three ids of more than 16 candidates, where the third may be the first again.
pub record Covers (s : SettlementIndex) (line : BankCreditLine) (used sids : List String)
    : Type 0 where
  pub fresh : (sid : String) → In sid sids → contains sid used ≡ false
  pub near : (sid : String) → In sid sids → within_window s sid line ≡ true
  pub known : (sid : String) → In sid sids → In sid (keys s.net_by_sid)
  pub exact : covered_net s sids ≡ line.amount_paise
  pub counted : Counted (length (candidates s line used)) sids

-- `sids` are the ids of some of the items, and their amounts add up to the target.
abbrev Picked : List Item → ℤ → List String → Type 0
Picked items target sids =
    (c : List Item) × All (λ i. In i items) c
    × (sids ≡ map item_id c)
    × (sum (map value c) ≡ target)
    × Counted (length items) sids

pub zero_of_abs : (a b : ℤ) → abs (a -ℤ b) ≡ 0 → a ≡ b
unfolding ◌-ℤ◌
zero_of_abs a b h = ground arith

pub keys-map : (d : Dict String ℤ) → map item_id d ≡ keys d
keys-map [] = refl
keys-map ((k, v) ∷ d) = ap (λ t. k ∷ t) (keys-map d)

module _ (s : SettlementIndex) (good : IsConsistent s) (line : BankCreditLine)
    (used : List String) where
  abbrev pub pool : List Item
  pool = candidates s line used

  -- The candidates' ids are keys of the index, with their nets.
  pub candidate_facts :
      (i : Item)
      → In i pool
      → In i s.net_by_sid
        × (contains i.0 used ≡ false)
        × (pos 0 <ℤ i.1)
        × (i.1 <ℤ line.amount_paise)
        × (within_window s i.0 line ≡ true)
  unfolding candidates
  candidate_facts i m =
      let (n, h) = In-of_filter _ i s.net_by_sid m in
      (n, ground arith, ground arith, ground arith, ground arith)

  pub pool-IsPool : IsPool pool
  unfolding candidates
  pool-IsPool = record {
    distinct =
        Sublist-Nodup item_id (filter-Sublist _ s.net_by_sid)
          (rw (keys-map s.net_by_sid) good.nodup);
    positive = λ i m. (candidate_facts i m).2;
  }

  known_net :
      (sid : String) (n : ℤ) → In (sid, n) s.net_by_sid → n ≡ nets (rows_under s.rows_by_sid sid)
  known_net = good.total

  covered_net-picks :
      (c : List Item)
      → ((i : Item) → In i c → In i s.net_by_sid)
      → covered_net s (map item_id c) ≡ sum (map value c)
  covered_net-picks [] h = refl
  covered_net-picks ((sid, n) ∷ c) h =
      covered_net-cons s sid (map item_id c)
      ∙ ap (λ t. t +ℤ covered_net s (map item_id c)) (sym (known_net sid n (h (sid, n) (inl refl))))
      ∙ ap (λ t. n +ℤ t) (covered_net-picks c (λ i m. h i (inr m)))

  Picked-Covers :
      (sids : List String) → Picked pool line.amount_paise sids → Covers s line used sids
  Picked-Covers sids (c, from, ids, total, counted) = rw ids (record {
    fresh = λ sid m. let (i, k, e) = In-of_map item_id sid c m in rw e (at i k).1;
    near = λ sid m. let (i, k, e) = In-of_map item_id sid c m in rw e (at i k).4;
    known = λ sid m.
        let (i, k, e) = In-of_map item_id sid c m in rw e (In-keys i.0 i.1 s.net_by_sid (at i k).0);
    exact = covered_net-picks c (λ i m. (at i m).0) ∙ total;
    counted = rw ids at counted;
  })
    where
      at :
          (i : Item)
          → In i c
          → In i s.net_by_sid
            × (contains i.0 used ≡ false)
            × (pos 0 <ℤ i.1)
            × (i.1 <ℤ line.amount_paise)
            × (within_window s i.0 line ≡ true)
      at i m = candidate_facts i (All-In (λ j. In j pool) i c from m)

-- The two searches pick candidates that add up to the amount.
module _ (cands : List Item) (amount : ℤ) (distinct : Nodup (map item_id cands)) where
  setsum_search-Picked :
      (r : BoundedSubsetResult)
      → setsum_search cands amount ≡ ok r
      → All (Picked cands amount) r.subsets
  unfolding setsum_search
  setsum_search-Picked r h = elim (Bool-cases (leb (length cands) 16)) [
    | inl few ↦ All-of_In (Picked cands amount) r.subsets (λ ids m.
        let (c, found, e) =
          find_bounded_subsets_sound cands amount setsum_options r ids (rw few at h) m in
        (
          c,
          All-of_In (λ i. In i cands) c (λ i k. Sublist-In i found.chosen k),
          e,
          zero_of_abs _ _ (omega (arith, found.near)),
          inl (rw e (Sublist-Nodup item_id found.chosen distinct)),
        ))
    | inr many ↦
        All-imp (AddsUp cands amount) (Picked cands amount) r.subsets
          (λ ids a. (a.picks, a.from_items, a.ids, a.total, from_many ids many a.counted))
          (find_legacy_subsets_sound cands amount (pos 2) r (rw many at h)).1
  ]
    where
      from_many :
          (ids : List String)
          → leb (length cands) 16 ≡ false
          → Nodup ids ⊎ Repeats ids
          → Counted (length cands) ids
      from_many ids many (inl d) = inl d
      from_many ids many (inr k) = inr (k, ground arith)

  setsum_matches-Picked :
      (subsets : List (List String))
      → setsum_matches cands amount ≡ ok (some subsets)
      → All (Picked cands amount) subsets
  unfolding setsum_matches
  setsum_matches-Picked subsets h =
      elim (Bool-cases ((length cands == 0) || ltb 200 (length cands))) [
        | inl skip ↦ ground arith
        | inr go ↦
            let (r, e, rest) = bind_returned (setsum_search cands amount) _ (rw go at h) in
            elim (Bool-cases r.exhausted) [
              | inl t ↦ cc (rw t at rest)
              | inr f ↦
                  let same : r.subsets ≡ subsets = ground (arith, rw f at rest) in
                  rw (← same) (setsum_search-Picked r e)
            ]
      ]

add_subsets-All {κ} :
    (P : List String → Type κ) (satisfying subsets : List (List String))
    → All P satisfying
    → All P subsets
    → All P (add_subsets satisfying subsets)
unfolding add_subsets
add_subsets-All P satisfying [] h g = h
add_subsets-All P satisfying (s ∷ ss) h g = elim (Bool-cases (any (same_set s) satisfying)) [
  | inl seen ↦ rw seen (add_subsets-All P satisfying ss h g.1)
  | inr new ↦
      rw new
        (add_subsets-All P (satisfying ++ s ∷ []) ss (All-append P satisfying _ h (g.0, tt)) g.1)
]

decide_subset-All {κ} :
    (P : List String → Type κ) (key : String) (m : Marks) (satisfying : List (List String))
    (sid : String) (sids : List String)
    → (decide_subset key m satisfying).1 ≡ sid ∷ sids
    → All P satisfying
    → P (sid ∷ sids)
unfolding decide_subset
decide_subset-All P key m [] sid sids h g = cc
decide_subset-All P key m (subset ∷ []) sid sids h g = rw h at g.0
decide_subset-All P key m (x ∷ y ∷ zs) sid sids h g = cc

module _ (s : SettlementIndex) (good : IsConsistent s) (line : BankCreditLine)
    (used : List String) where
  single-Covers :
      (sid : String)
      → In sid (filter (usable s line used) (or_else [] (lookup line.amount_paise s.net_to_sids)))
      → Covers s line used (sid ∷ [])
  single-Covers sid m =
      let (listed, free) = In-of_filter (usable s line used) sid _ m in
      let entry : In (sid, line.amount_paise) s.net_by_sid =
        (good.grouped sid line.amount_paise).0 listed in
      record {
        fresh = λ k n. elim n [ inl e ↦ rw e (ground arith) | inr z ↦ absurd z ];
        near = λ k n. elim n [ inl e ↦ rw e (ground arith) | inr z ↦ absurd z ];
        known = λ k n. elim n [
          | inl e ↦ rw e (In-keys sid line.amount_paise s.net_by_sid entry)
          | inr z ↦ absurd z
        ];
        exact =
            covered_net-cons s sid []
            ∙ rw (← good.total sid line.amount_paise entry) (omega int_laws);
        counted = inl (refl, tt);
      }

  single_matches-Covers : All (Covers s line used) (single_matches s line used)
  unfolding single_matches
  single_matches-Covers = add_subsets-All (Covers s line used) [] _ tt (
      All-of_In (Covers s line used) _ (λ sids m.
        let (sid, n, e) = In-of_map (λ (t : String). t ∷ []) sids _ m in
        rw e (single-Covers sid n)))

  -- A coverage that the amount search returns for a credit consists of settlements of the report
  -- that no earlier credit covers and that settled within five days of the credit. The nets of the
  -- listed settlements add up to exactly the amount of the credit, and the list names each
  -- settlement once, but for one exception: with more than 16 candidates it may be three ids a, b, a
  -- with a after b in the order of ids, and then the net of a counts twice in that sum.
  pub amount_or_setsum_sids_sound :
      (m m' : Marks) (sid : String) (sids : List String)
      → amount_or_setsum_sids s line used m ≡ ok (m', sid ∷ sids)
      → Covers s line used (sid ∷ sids)
  unfolding amount_or_setsum_sids
  amount_or_setsum_sids_sound m m' sid sids h =
      let (found, e, rest) =
        bind_returned (setsum_matches (candidates s line used) line.amount_paise) _ h in
      elim (Option-cases found) [
        | inl none_found ↦ cc (rw none_found at rest)
        | inr (subsets, q) ↦
            decide_subset-All (Covers s line used) line.key m
              (add_subsets (single_matches s line used) subsets) sid sids
              (second _ _ _ (rw q at rest))
              (add_subsets-All (Covers s line used) _ subsets single_matches-Covers (
                All-imp (Picked (candidates s line used) line.amount_paise) (Covers s line used)
                  subsets (Picked-Covers s good line used)
                  (setsum_matches-Picked (candidates s line used) line.amount_paise
                    (pool-IsPool s good line used).distinct subsets (e ∙ ap ok q))))
      ]
    where
      second :
          (r : Marks × List String) (n : Marks) (ids : List String)
          → (◌≡◌ {A = Result ValueError (Marks × List String)} (ok r) (ok (n, ids)))
          → r.1 ≡ ids
      second r n ids p = ground arith

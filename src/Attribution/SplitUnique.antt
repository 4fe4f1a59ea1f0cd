-- ===== src/Attribution/SplitUnique.antt =====
-- engine/attribute.py: proofs about a settlement with one match in `reconstruct_splits`.
use mathlib.Core.Path.{subst}
use untangle.Base.{
  ℕ, ◌==◌, ◌≡◌, refl, ap, sym, ◌∙◌, inl, inr, ◌⊎◌, String, Bool, true, false, ◌&&◌, not, Bool-cases,
  List, [], ◌∷◌, ◌++◌, filter, any, all, length, In, In-map, In-filter, one_same, In-append_left,
  In-append_right, arith,
}
use untangle.Base.Int.{ℤ, pos}
use untangle.Base.Keys.{lookup, contains, In-contains, ◌=?◌, =?_refl, string_eq}
use untangle.Models.{BankCreditLine}
use untangle.Subsets.Combinations.{Sublist, combinations, combinations_complete}
use untangle.Subsets.Legacy.{same_set}
use untangle.Reconcile.Index.{or_else}
use untangle.Attribution.Evidence.{ReconIndex}
use untangle.Attribution.Splits.{
  Match, FoundMatches, keys_of, sums_to, split_drift, keep_combo, keep_combos, all_sum_subsets,
  is_skipped, is_oversized, eligible_legs, match_settlement, match_all, per_settlement,
}

any-In :
    {A : Type 0} (p : A → Bool) (xs : List A) → any p xs ≡ true → (x : A) × In x xs × (p x ≡ true)
any-In p [] h = cc
any-In p (x ∷ xs) h = elim (Bool-cases (p x)) [
  | inl t ↦ (x, inl refl, t)
  | inr f ↦ let (y, m, t) = any-In p xs (rw f at h) in (y, inr m, t)
]

all-true :
    {A : Type 0} (p : A → Bool) (xs : List A) → ((x : A) → In x xs → p x ≡ true) → all p xs ≡ true
all-true p [] h = refl
all-true p (x ∷ xs) h = rw (h x (inl refl), all-true p xs (λ y m. h y (inr m))) refl

same_set_refl : (s : List String) → same_set s s ≡ true
same_set_refl s = rw (all-true (λ x. contains x s) s (λ x m. In-contains x s m)) refl

-- A combination that adds up is kept, or one with the same credits stands for it.
abbrev pub Stands : List BankCreditLine → List (List BankCreditLine) → Type 0
Stands c out = (d : List BankCreditLine) × In d out × (same_set (keys_of d) (keys_of c) ≡ true)

module _ (target : ℤ) (tol : ℕ) where
  keep_combo-keeps :
      (out : List (List BankCreditLine)) (combo c : List BankCreditLine)
      → In c out
      → In c (keep_combo target tol out combo)
  keep_combo-keeps out combo c m =
      elim (Bool-cases
        (sums_to target tol combo && not (any (λ d. same_set (keys_of d) (keys_of combo)) out))) [
          | inl t ↦ rw t (In-append_left c out (combo ∷ []) m)
          | inr f ↦ rw f m
        ]

  keep_combos-keeps :
      (combos out : List (List BankCreditLine)) (c : List BankCreditLine)
      → In c out
      → In c (keep_combos target tol out combos)
  unfolding keep_combos
  keep_combos-keeps [] out c m = m
  keep_combos-keeps (combo ∷ combos) out c m =
      keep_combos-keeps combos (keep_combo target tol out combo) c (keep_combo-keeps out combo c m)

  keep_combo-Stands :
      (out : List (List BankCreditLine)) (c : List BankCreditLine)
      → sums_to target tol c ≡ true
      → Stands c (keep_combo target tol out c)
  keep_combo-Stands out c near =
      elim (Bool-cases (any (λ d. same_set (keys_of d) (keys_of c)) out)) [
        | inl t ↦ let (d, m, q) = any-In _ out t in (d, keep_combo-keeps out c d m, q)
        | inr f ↦
            (c, rw (near, f) (In-append_right c out (c ∷ []) (inl refl)), same_set_refl (keys_of c))
      ]

  keep_combos-Stands :
      (combos out : List (List BankCreditLine)) (c : List BankCreditLine)
      → In c combos
      → sums_to target tol c ≡ true
      → Stands c (keep_combos target tol out combos)
  unfolding keep_combos
  keep_combos-Stands [] out c m near = elim m [ ]
  keep_combos-Stands (combo ∷ combos) out c (inl e) near =
      let (d, k, q) = keep_combo-Stands out c near in
      (d, keep_combos-keeps combos _ d (subst (λ x. In d (keep_combo target tol out x)) e k), q)
  keep_combos-Stands (combo ∷ combos) out c (inr m) near =
      keep_combos-Stands combos (keep_combo target tol out combo) c m near

all_sum_subsets_complete :
    (items : List BankCreditLine) (target : ℤ) (tol : ℕ) (c : List BankCreditLine)
    → Sublist c items
    → (length c ≡ 2) ⊎ (length c ≡ 3)
    → sums_to target tol c ≡ true
    → Stands c (all_sum_subsets items target tol)
unfolding all_sum_subsets
all_sum_subsets_complete items target tol c s size near =
    keep_combos-Stands target tol (combinations 2 items ++ combinations 3 items) [] c
      (elim size [
        | inl n ↦ In-append_left c (combinations 2 items) _ (rw n at (combinations_complete s))
        | inr n ↦ In-append_right c (combinations 2 items) _ (rw n at (combinations_complete s))
      ])
      near

module _ (ix : ReconIndex) (cands : List BankCreditLine) where
  abbrev net_of : String → ℤ
  net_of sid = or_else (pos 0) (lookup sid ix.settlement_net)

  match_settlement-keeps :
      (ms : FoundMatches) (sid : String) (m : Match)
      → In m ms.matches
      → In m (match_settlement ix cands ms sid).matches
  unfolding match_settlement
  match_settlement-keeps ms sid m k = elim (Bool-cases (is_skipped ix cands sid)) [
    | inl t ↦ rw t k
    | inr f ↦ elim (Bool-cases (is_oversized ix cands sid)) [
      | inl t ↦ rw (f, t) k
      | inr g ↦ rw (f, g) (In-append_left m ms.matches _ k)
    ]
  ]

  match_all-keeps :
      (sids : List String) (ms : FoundMatches) (m : Match)
      → In m ms.matches
      → In m (match_all ix cands ms sids).matches
  unfolding match_all
  match_all-keeps [] ms m k = k
  match_all-keeps (sid ∷ sids) ms m k =
      match_all-keeps sids (match_settlement ix cands ms sid) m (match_settlement-keeps ms sid m k)

  match_settlement_complete :
      (ms : FoundMatches) (sid : String) (d : List BankCreditLine)
      → is_skipped ix cands sid ≡ false
      → is_oversized ix cands sid ≡ false
      → In d (all_sum_subsets (eligible_legs ix cands sid (net_of sid)) (net_of sid) split_drift)
      → In (sid, d) (match_settlement ix cands ms sid).matches
  unfolding match_settlement
  match_settlement_complete ms sid d f g m =
      rw (f, g) (In-append_right (sid, d) ms.matches _ (In-map (λ sub. (sid, sub)) d _ m))

  match_all_complete :
      (sids : List String) (ms : FoundMatches) (sid : String) (d : List BankCreditLine)
      → In sid sids
      → is_skipped ix cands sid ≡ false
      → is_oversized ix cands sid ≡ false
      → In d (all_sum_subsets (eligible_legs ix cands sid (net_of sid)) (net_of sid) split_drift)
      → In (sid, d) (match_all ix cands ms sids).matches
  unfolding match_all
  match_all_complete [] ms sid d m f g k = elim m [ ]
  match_all_complete (s ∷ sids) ms sid d (inl e) f g k =
      match_all-keeps sids (match_settlement ix cands ms s) (sid, d)
        (subst (λ x. In (sid, d) (match_settlement ix cands ms x).matches) e
          (match_settlement_complete ms sid d f g k))
  match_all_complete (s ∷ sids) ms sid d (inr m) f g k =
      match_all_complete sids (match_settlement ix cands ms s) sid d m f g k

  -- The only match of a settlement is the only way to put it together.
  pub match_all-only :
      (sids : List String) (ms : FoundMatches) (m : Match) (c : List BankCreditLine)
      → In m (match_all ix cands ms sids).matches
      → In m.0 sids
      → is_skipped ix cands m.0 ≡ false
      → is_oversized ix cands m.0 ≡ false
      → (per_settlement m.0 (match_all ix cands ms sids).matches == 1) ≡ true
      → Sublist c (eligible_legs ix cands m.0 (net_of m.0))
      → (length c ≡ 2) ⊎ (length c ≡ 3)
      → sums_to (net_of m.0) split_drift c ≡ true
      → same_set (keys_of m.1) (keys_of c) ≡ true
  unfolding per_settlement
  match_all-only sids ms m c k listed f g one s size near =
      let (d, n, q) = all_sum_subsets_complete _ (net_of m.0) split_drift c s size near in
      let l = match_all_complete sids ms m.0 d listed f g n in
      let p : Match → Bool = λ x. x.0 =? m.0 in
      let e : (m.0, d) ≡ m =
        one_same (filter p (match_all ix cands ms sids).matches) (m.0, d) m (ground arith)
          (In-filter p (m.0, d) _ l (=?_refl m.0)) (In-filter p m _ k (=?_refl m.0)) in
      ap (λ x. same_set (keys_of x.1) (keys_of c)) (sym e) ∙ q

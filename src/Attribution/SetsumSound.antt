-- ===== src/Attribution/SetsumSound.antt =====
-- engine/attribute.py: proofs about `_setsum_evidence`.
use untangle.Base.{
  ℕ, suc, ◌≤◌, leb, ltb, ◌==◌, ◌≡◌, refl, ap, ◌∙◌, ◌≢◌, inl, inr, ◌⊎◌, String, true, false, ◌||◌,
  Bool-cases, none, some, List, [], ◌∷◌, map, length, In, In-of_map, In-of_filter, In-append_cases,
  All-In, arith,
}
use untangle.Base.Int.{ℤ, pos, sum, ◌<ℤ◌}
use untangle.Base.Keys.{contains, keys, Nodup, string_eq}
use untangle.Base.Floats.{Floats}
use untangle.Base.Flow.{ok, bind_returned}
use untangle.Models.{BankCreditLine, EvidenceItem}
use untangle.Subsets.{Item, item_id, value, BoundedSubsetResult}
use untangle.Subsets.Combinations.{Sublist-In, Sublist-Nodup, filter-Sublist}
use untangle.Subsets.Exact.{find_bounded_subsets_sound}
use untangle.Subsets.LegacySound.{find_legacy_subsets_sound}
use untangle.Subsets.Distinct.{Counted, Repeats, find_bounded_subsets-Nodup}
use untangle.Subsets.Total.{IsPool}
use untangle.Reconcile.{setsum_search}
use untangle.Reconcile.Coverage.{zero_of_abs, keys-map}
use untangle.Reconcile.Total.{Returns, setsum_search_total}
use untangle.Attribution.Texts.{Texts}
use untangle.Attribution.Evidence.{ReconIndex}
use untangle.Attribution.Setsum.{
  is_part, parts, singles, dated_near, sort_sids, insert_sid, verdict_of, conclude, setsum_evidence,
}
use untangle.Attribution.Line.{any_signal, rzp_tie_signals}
use untangle.Attribution.Tie.{Tied}

length-map : {A B : Type 0} (f : A → B) (xs : List A) → length (map f xs) ≡ length xs
length-map f [] = refl
length-map f (x ∷ xs) = ap suc (length-map f xs)

length-insert_sid : (s : String) (rs : List String) → length (insert_sid s rs) ≡ suc (length rs)
unfolding insert_sid
length-insert_sid s [] = refl
length-insert_sid s (r ∷ rs) = ground (arith, length-insert_sid s rs)

length-sort_sids : (s : List String) → length (sort_sids s) ≡ length s
unfolding sort_sids
length-sort_sids [] = refl
length-sort_sids (s ∷ ss) = length-insert_sid s (sort_sids ss) ∙ ap suc (length-sort_sids ss)

-- A subset that the search returns, as items of its pool.
record Found (items : List Item) (target : ℤ) (s : List String) : Type 0 where
  picks : List Item
  inside : (i : Item) → In i picks → In i items
  few : length picks ≤ 5
  nonempty : 1 ≤ length picks
  exact : sum (map value picks) ≡ target
  ids : s ≡ map item_id picks
  counted : Counted (length items) (map item_id picks)

setsum_search-Found :
    (items : List Item) (target : ℤ) (r : BoundedSubsetResult) (s : List String)
    → setsum_search items target ≡ ok r
    → In s r.subsets
    → Found items target s
unfolding setsum_search
setsum_search-Found items target r s e m = elim (Bool-cases (leb (length items) 16)) [
  | inl few ↦
      let (c, k, q) = find_bounded_subsets_sound items target _ r s (rw few at e) m in
      record {
        picks = c;
        inside = λ i n. Sublist-In i k.chosen n;
        few = omega (arith, k.at_most);
        nonempty = omega (arith, k.at_least);
        exact = zero_of_abs _ _ (omega (arith, k.near));
        ids = q;
        counted = inl (
            Sublist-Nodup item_id k.chosen
              (find_bounded_subsets-Nodup items target r (rw few at e) few));
      }
  | inr many ↦
      let (_, all_good) = find_legacy_subsets_sound items target (pos 2) r (rw many at e) in
      let g = All-In _ s r.subsets all_good m in
      record {
        picks = g.picks;
        inside = λ i n. All-In _ i g.picks g.from_items n;
        few = elim g.size [ inl p ↦ omega (arith, p) | inr p ↦ omega (arith, p) ];
        nonempty = elim g.size [ inl p ↦ omega (arith, p) | inr p ↦ omega (arith, p) ];
        exact = g.total;
        ids = g.ids;
        counted = rw g.ids at (from_many many g.counted);
      }
]
  where
    from_many : leb (length items) 16 ≡ false → Nodup s ⊎ Repeats s → Counted (length items) s
    from_many many (inl d) = inl d
    from_many many (inr k) = inr (k, ground arith)

module _ (ix : ReconIndex) (line : BankCreditLine) where
  pub part_facts :
      (i : Item)
      → In i (parts ix line)
      → In i ix.settlement_net
        × (pos 0 <ℤ i.1)
        × (i.1 <ℤ line.amount_paise)
        × (dated_near ix line i.0 ≡ true)
  part_facts i m =
      let (n, h) = In-of_filter (is_part ix line) i ix.settlement_net m in
      (n, ground arith, ground arith, ground arith)

  pub parts-IsPool : Nodup (keys ix.settlement_net) → IsPool (parts ix line)
  parts-IsPool nodup = record {
    distinct =
        Sublist-Nodup item_id (filter-Sublist (is_part ix line) ix.settlement_net)
          (rw (keys-map ix.settlement_net) nodup);
    positive = λ i m. (part_facts i m).1;
  }

  Found-Tied :
      (t : Texts) (s : List String)
      → Found (parts ix line) line.amount_paise s
      → 2 ≤ length s
      → Tied t ix line
  Found-Tied t s g h = Tied.by_sum g.picks (record {
    several = omega (arith, ap (length {A = String}) g.ids, length-map item_id g.picks);
    few = g.few;
    exact = g.exact;
    counted = g.counted;
    each = λ i m. let k = part_facts i (g.inside i m) in (k.0, k.3);
  })

  single-short : (s : List String) → In s (singles ix line) → length s ≡ 1
  single-short s m =
      let (sid, _, e) = In-of_map (λ (sid : String). sid ∷ []) s _ m in ap (length {A = String}) e

module _ (t : Texts) (F : Type 0) ⦃fl : Floats F⦄ (ix : ReconIndex) (line : BankCreditLine) where
  one-no_tie :
      (i : EvidenceItem F) (ev : List (EvidenceItem F))
      → contains i.signal rzp_tie_signals ≡ false
      → some (i ∷ []) ≡ some ev
      → any_signal rzp_tie_signals ev ≡ true
      → ⊥
  one-no_tie i ev f e h = let q : ev ≡ i ∷ [] = ground arith in cc (rw (q, f) at h)

  -- Only one list of several settlements is taken for a tie.
  verdict_of-tie :
      (subsets : List (List String)) (ev : List (EvidenceItem F))
      → verdict_of t line subsets ≡ some ev
      → any_signal rzp_tie_signals ev ≡ true
      → (s : List String) × In s subsets × (length s ≢ 1)
  verdict_of-tie [] ev e h = cc
  verdict_of-tie ([] ∷ []) ev e h = ([], inl refl, λ q. absurd (omega (arith, q)))
  verdict_of-tie ((a ∷ []) ∷ []) ev e h = cc
  verdict_of-tie ((a ∷ b ∷ c) ∷ []) ev e h = (a ∷ b ∷ c, inl refl, λ q. absurd (omega (arith, q)))
  verdict_of-tie (s ∷ r ∷ rs) ev e h = absurd (one-no_tie _ ev refl e h)

  conclude-Tied :
      (r : BoundedSubsetResult) (ev : List (EvidenceItem F))
      → setsum_search (parts ix line) line.amount_paise ≡ ok r
      → conclude t line (parts ix line) (singles ix line) r ≡ some ev
      → any_signal rzp_tie_signals ev ≡ true
      → Tied t ix line
  conclude-Tied r ev e c h = elim (Bool-cases r.exhausted) [
    | inl x ↦ absurd (one-no_tie _ ev refl (rw x at c) h)
    | inr f ↦
        let (s, m, n) = verdict_of-tie _ ev (rw f at c) h in
        elim (In-append_cases s (singles ix line) (map sort_sids r.subsets) m) [
          | inl k ↦ absurd (n (single-short ix line s k))
          | inr k ↦
              let (s', l, q) = In-of_map sort_sids s r.subsets k in
              let g = setsum_search-Found (parts ix line) line.amount_paise r s' e l in
              Found-Tied ix line t s' g (
                two_of (length s')
                  (omega
                    (arith, g.nonempty, ap (length {A = String}) g.ids, length-map item_id g.picks))
                  (λ z. n (ap (length {A = String}) q ∙ (length-sort_sids s' ∙ z))))
        ]
  ]
    where
      two_of : (n : ℕ) → 1 ≤ n → (n ≡ 1 → ⊥) → 2 ≤ n
      two_of n h k = ground arith

  pub setsum_evidence-Tied :
      (ev : List (EvidenceItem F))
      → setsum_evidence t ix line ≡ ok (some ev)
      → any_signal rzp_tie_signals ev ≡ true
      → Tied t ix line
  unfolding setsum_evidence
  setsum_evidence-Tied ev e h = elim (Bool-cases line.is_credit) [
    | inr f ↦ cc (rw f at e)
    | inl c ↦
        elim (Bool-cases ((length (parts ix line) == 0) || ltb 200 (length (parts ix line)))) [
          | inl skip ↦ cc (rw (c, skip) at e)
          | inr go ↦
              let (r, found, last) =
                bind_returned (setsum_search (parts ix line) line.amount_paise) _
                  (rw (c, go) at e) in
              conclude-Tied r ev found (ground (arith, last)) h
        ]
  ]

  pub setsum_evidence_total :
      Nodup (keys ix.settlement_net) → Returns (setsum_evidence t {F = F} ix line)
  unfolding setsum_evidence
  setsum_evidence_total nodup = elim (Bool-cases line.is_credit) [
    | inr f ↦ (none, rw f refl)
    | inl c ↦
        elim (Bool-cases ((length (parts ix line) == 0) || ltb 200 (length (parts ix line)))) [
          | inl skip ↦ (none, rw (c, skip) refl)
          | inr go ↦
              let (r, found) =
                setsum_search_total (parts ix line) line.amount_paise (parts-IsPool ix line nodup)
                  (λ i m. (part_facts ix line i m).2) (ground arith) in
              (conclude t line (parts ix line) (singles ix line) r, simp (c, go, found))
        ]
  ]

-- ===== src/Reconcile/IndexLaws.antt =====
-- The lookups of a `SettlementIndex`: what they hold of the report, and how they agree.
use mathlib.Core.List.{append-nil, append_assoc}
use untangle.Base.{
  ℕ, ◌≡◌, refl, ap, sym, ◌∙◌, inl, inr, ◌⊎◌, ◌↔◌, String, Bool, ◌&&◌, Bool-cases, List, [], ◌∷◌,
  ◌++◌, map, filter, In, In-append_left, In-append_right, In-append_cases, if◌then◌else◌, arith,
}
use untangle.Base.Int.{ℤ, pos, sum, ◌+ℤ◌, int_laws}
use untangle.Base.Keys.{
  Dict, ◌=?◌, =?_eq, =?_refl, lookup, insert, keys, add, Nodup, lookup-insert, string_eq, int_eq,
}
use untangle.Base.Dicts.{keys-insert, Nodup-add, In-lookup}
use untangle.Models.{net_paise, truthy}
use untangle.Covered.{Row, Signature, canonical_row_ids}
use untangle.Reconcile.Index.{
  SettlementIndex, or_else, rows_under, index_settled, index_row, index_all, group_nets,
  no_settlements, settlement_index,
}

-- The row belongs to the settlement `sid`.
abbrev pub belongs : String → Row → Bool
belongs sid r = truthy r.row.settlement_id && (sid =? or_else "" r.row.settlement_id)

abbrev pub nets : List Row → ℤ
nets rows = sum (map (λ (r : Row). net_paise r.row) rows)

abbrev pub net_under : Dict String ℤ → String → ℤ
net_under d sid = or_else (pos 0) (lookup sid d)

rows_under-insert :
    (sid k : String) (v : List Row) (d : Dict String (List Row))
    → rows_under (insert k v d) sid ≡ (if sid =? k then v else rows_under d sid)
rows_under-insert sid k v d = ground (arith, lookup-insert sid k v d)

net_under-insert :
    (sid k : String) (v : ℤ) (d : Dict String ℤ)
    → net_under (insert k v d) sid ≡ (if sid =? k then v else net_under d sid)
net_under-insert sid k v d = ground (arith, lookup-insert sid k v d)

-- A lookup that collects, for each settlement, from the rows in order.
module _ (lower : String → String) where
  index_row-rows :
      (sid : String) (s : SettlementIndex) (r : Row)
      → rows_under (index_row lower s r).rows_by_sid sid
        ≡ rows_under s.rows_by_sid sid ++ filter (belongs sid) (r ∷ [])
  unfolding index_row
  index_row-rows sid s r = elim (Bool-cases (truthy r.row.settlement_id)) [
    | inl t ↦ rw t (
        rows_under-insert sid (or_else "" r.row.settlement_id) _ s.rows_by_sid
        ∙ elim (Bool-cases (sid =? or_else "" r.row.settlement_id)) [
          | inl e ↦ rw e (ap (λ k. rows_under s.rows_by_sid k ++ r ∷ []) (sym (=?_eq sid _ e)))
          | inr e ↦ rw (e, append-nil) refl
        ])
    | inr f ↦ rw (f, append-nil) refl
  ]

  index_all-rows :
      (sid : String) (s : SettlementIndex) (rows : List Row)
      → rows_under (index_all lower s rows).rows_by_sid sid
        ≡ rows_under s.rows_by_sid sid ++ filter (belongs sid) rows
  unfolding index_all
  index_all-rows sid s [] = rw append-nil refl
  index_all-rows sid s (r ∷ rs) =
      index_all-rows sid (index_row lower s r) rs
      ∙ ap (λ t. t ++ filter (belongs sid) rs) (index_row-rows sid s r)
      ∙ append_assoc (rows_under s.rows_by_sid sid) _ _
      ∙ ap (λ t. rows_under s.rows_by_sid sid ++ t)
          (elim (Bool-cases (belongs sid r)) [ inl e ↦ rw e refl | inr e ↦ rw e refl ])

  -- The two lookups of a settlement grow together.
  record Paired (s : SettlementIndex) : Type 0 where
    same_keys : keys s.net_by_sid ≡ keys s.rows_by_sid
    nodup : Nodup (keys s.net_by_sid)
    total : (sid : String) → net_under s.net_by_sid sid ≡ nets (rows_under s.rows_by_sid sid)

  nets-snoc : (rows : List Row) (r : Row) → nets (rows ++ r ∷ []) ≡ nets rows +ℤ net_paise r.row
  nets-snoc [] r = omega int_laws
  nets-snoc (q ∷ qs) r = rw (nets-snoc qs r) (omega int_laws)

  index_settled-Paired :
      (sid : String) (s : SettlementIndex) (r : Row)
      → Paired s
      → Paired (index_settled lower sid r s)
  unfolding index_settled
  index_settled-Paired sid s r p = record {
    same_keys =
        keys-insert sid _ s.net_by_sid
        ∙ ap (add sid) p.same_keys
        ∙ sym (keys-insert sid _ s.rows_by_sid);
    nodup =
        rw (keys-insert sid (net_under s.net_by_sid sid +ℤ net_paise r.row) s.net_by_sid)
          (Nodup-add sid (keys s.net_by_sid) p.nodup);
    total = λ k.
        net_under-insert k sid _ s.net_by_sid
        ∙ (elim (Bool-cases (k =? sid)) [
          | inl e ↦ rw e (
              ap (λ t. t +ℤ net_paise r.row) (p.total sid)
              ∙ sym (nets-snoc (rows_under s.rows_by_sid sid) r))
          | inr e ↦ rw e (p.total k)
        ])
        ∙ ap nets (sym (rows_under-insert k sid _ s.rows_by_sid));
  }

  index_row-Paired : (s : SettlementIndex) (r : Row) → Paired s → Paired (index_row lower s r)
  unfolding index_row
  index_row-Paired s r p = elim (Bool-cases (truthy r.row.settlement_id)) [
    | inl t ↦ rw t (index_settled-Paired (or_else "" r.row.settlement_id) s r p)
    | inr f ↦ rw f p
  ]

  index_all-Paired :
      (s : SettlementIndex) (rows : List Row) → Paired s → Paired (index_all lower s rows)
  unfolding index_all
  index_all-Paired s [] p = p
  index_all-Paired s (r ∷ rs) p = index_all-Paired (index_row lower s r) rs (index_row-Paired s r p)

-- `net_to_sids.get(n, [])`
abbrev pub sids_at : Dict ℤ (List String) → ℤ → List String
sids_at d n = or_else [] (lookup n d)

sids_at-insert :
    (n k : ℤ) (v : List String) (d : Dict ℤ (List String))
    → sids_at (insert k v d) n ≡ (if n =? k then v else sids_at d n)
sids_at-insert n k v d = ground (arith, lookup-insert n k v d)

group_nets_sound :
    (d : Dict ℤ (List String)) (net_by_sid : Dict String ℤ) (n : ℤ) (sid : String)
    → In sid (sids_at (group_nets d net_by_sid) n)
    → In sid (sids_at d n) ⊎ In (sid, n) net_by_sid
unfolding group_nets
group_nets_sound d [] n sid m = inl m
group_nets_sound d ((k, v) ∷ rest) n sid m =
    elim (group_nets_sound (insert v (sids_at d v ++ k ∷ []) d) rest n sid m) [
      | inl l ↦ elim (Bool-cases (n =? v)) [
        | inl e ↦
            let q : n ≡ v = =?_eq n v e in
            elim (In-append_cases sid (sids_at d v) (k ∷ [])
              (rw (sids_at-insert n v _ d, e) at l)) [
                | inl old ↦ inl (rw q old)
                | inr new ↦ elim new [
                  | inl r ↦ inr (inl (ap (λ (t : String). (t, n)) r ∙ ap (λ (t : ℤ). (k, t)) q))
                  | inr z ↦ absurd z
                ]
              ]
        | inr e ↦ inl (rw (sids_at-insert n v _ d, e) at l)
      ]
      | inr r ↦ inr (inr r)
    ]

group_nets_complete :
    (d : Dict ℤ (List String)) (net_by_sid : Dict String ℤ) (n : ℤ) (sid : String)
    → In sid (sids_at d n) ⊎ In (sid, n) net_by_sid
    → In sid (sids_at (group_nets d net_by_sid) n)
unfolding group_nets
group_nets_complete d [] n sid (inl m) = m
group_nets_complete d [] n sid (inr m) = elim m [ ]
group_nets_complete d ((k, v) ∷ rest) n sid h =
    group_nets_complete (insert v (sids_at d v ++ k ∷ []) d) rest n sid (elim h [
      | inl old ↦ inl (
          rw (sids_at-insert n v (sids_at d v ++ k ∷ []) d) (elim (Bool-cases (n =? v)) [
            | inl e ↦ rw e (In-append_left sid (sids_at d v) _ (rw (=?_eq n v e) at old))
            | inr e ↦ rw e old
          ]))
      | inr m ↦ elim m [
        | inl p ↦
            let same : n ≡ v = ap (λ (q : String × ℤ). q.1) p in
            let first : sid ≡ k = ap (λ (q : String × ℤ). q.0) p in
            inl (
              rw (sids_at-insert n v (sids_at d v ++ k ∷ []) d, same, =?_refl v)
                (In-append_right sid (sids_at d v) _ (inl first)))
        | inr r ↦ inr r
      ]
    ])

-- What the constructor establishes and nothing changes afterwards.
pub record IsConsistent (s : SettlementIndex) : Type 0 where
  pub nodup : Nodup (keys s.net_by_sid)
  pub same_keys : keys s.net_by_sid ≡ keys s.rows_by_sid
  pub total :
      (sid : String) (n : ℤ) → In (sid, n) s.net_by_sid → n ≡ nets (rows_under s.rows_by_sid sid)
  pub grouped : (sid : String) (n : ℤ) → In sid (sids_at s.net_to_sids n) ↔ In (sid, n) s.net_by_sid

module _ (fingerprint : Signature → ℕ → String) (lower : String → String) (rows : List Row) where
  -- In the index of a report every settlement has one net, it is the sum over the rows listed under
  -- that settlement, the rows have the same settlements as the nets, and the lookup by amount gives
  -- exactly the settlements of that net.
  pub settlement_index-IsConsistent : IsConsistent (settlement_index fingerprint lower rows)
  unfolding settlement_index
  settlement_index-IsConsistent =
      let s = index_all lower (no_settlements (canonical_row_ids fingerprint rows)) rows in
      let p : Paired lower s =
        index_all-Paired lower _ rows
          (record { same_keys = refl; nodup = tt; total = λ k. refl }) in
      record {
        nodup = p.nodup;
        same_keys = p.same_keys;
        total = λ sid n m.
            ap (or_else (pos 0)) (sym (In-lookup sid n s.net_by_sid p.nodup m)) ∙ p.total sid;
        grouped = λ sid n. (
          λ m. elim (group_nets_sound [] s.net_by_sid n sid m) [ inl z ↦ absurd z | inr k ↦ k ],
          λ m. group_nets_complete [] s.net_by_sid n sid (inr m),
        );
      }

  -- Under a settlement id stand the rows of the report that carry it, in their order.
  pub settlement_index-rows :
      (sid : String)
      → rows_under (settlement_index fingerprint lower rows).rows_by_sid sid
        ≡ filter (belongs sid) rows
  unfolding settlement_index
  settlement_index-rows sid =
      index_all-rows lower sid (no_settlements (canonical_row_ids fingerprint rows)) rows

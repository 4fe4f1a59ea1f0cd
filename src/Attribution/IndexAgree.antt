-- ===== src/Attribution/IndexAgree.antt =====
-- engine/evidence.py and engine/reconcile.py: proofs about the two indices of one report.
use untangle.Base.{
  ℕ, ◌≡◌, refl, ap, ◌∙◌, inl, inr, String, Bool-cases, Option-cases, List, [], ◌∷◌, map,
}
use untangle.Base.Keys.{Dict, keys, insert, lookup, Nodup, string_eq, int_eq}
use untangle.Models.{ReconRow, truthy}
use untangle.Covered.{Row, Signature, canonical_row_ids}
use untangle.Reconcile.Index.{
  SettlementIndex, index_row, index_all, no_settlements, settlement_index, group_nets, or_else,
  add_net, add_date,
}
use untangle.Reconcile.IndexLaws.{settlement_index-IsConsistent}
use untangle.Attribution.Texts.{Texts}
use untangle.Attribution.Evidence.{
  ReconIndex, date_settled, index_utr, index_net, index_report, recon_index,
}

pub record Agree (ix : ReconIndex) (s : SettlementIndex) : Type 0 where
  pub utrs : ix.utr_to_sid ≡ s.utr_to_sid
  pub nets : ix.settlement_net ≡ s.net_by_sid
  pub dates : ix.settlement_date ≡ s.date_by_sid

abbrev pub report : List Row → List ReconRow
report rows = map (λ r. r.row) rows

date_settled-add_date :
    (sid : String) (r : Row) (d : Dict String ℕ)
    → date_settled sid r.row.settled_at d ≡ add_date sid r d
date_settled-add_date sid r d = elim (Option-cases r.row.settled_at) [
  | inl n ↦ rw (n, add_date) refl
  | inr (at, n) ↦ rw (n, add_date) refl
]

module _ (t : Texts) where
  index_row-Agree :
      (ix : ReconIndex) (s : SettlementIndex) (r : Row)
      → Agree ix s
      → Agree (index_net t (index_utr t ix r.row) r.row) (index_row t.lower s r)
  unfolding index_row
  index_row-Agree ix s r a =
      let sid = or_else "" r.row.settlement_id in
      let utr = t.lower (or_else "" r.row.settlement_utr) in
      elim (Bool-cases (truthy r.row.settlement_id)) [
        | inr f ↦ elim (Bool-cases (truthy r.row.settlement_utr)) [
          | inr g ↦ rw (f, g) a
          | inl u ↦ rw (f, u) (record { utrs = a.utrs; nets = a.nets; dates = a.dates })
        ]
        | inl h ↦ elim (Bool-cases (truthy r.row.settlement_utr)) [
          | inr g ↦
              rw (h, g)
                (record {
                  utrs = a.utrs;
                  nets = ap (λ d. add_net sid r d) a.nets;
                  dates =
                      ap (date_settled sid r.row.settled_at) a.dates
                      ∙ date_settled-add_date sid r s.date_by_sid;
                })
          | inl u ↦
              rw (h, u)
                (record {
                  utrs = ap (λ d. insert utr (or_else sid (lookup utr d)) d) a.utrs;
                  nets = ap (λ d. add_net sid r d) a.nets;
                  dates =
                      ap (date_settled sid r.row.settled_at) a.dates
                      ∙ date_settled-add_date sid r s.date_by_sid;
                })
        ]
      ]

  index_report-Agree :
      (ix : ReconIndex) (s : SettlementIndex) (rows : List Row)
      → Agree ix s
      → Agree (index_report t ix (report rows)) (index_all t.lower s rows)
  unfolding index_report index_all
  index_report-Agree ix s [] a = a
  index_report-Agree ix s (r ∷ rs) a =
      index_report-Agree (index_net t (index_utr t ix r.row) r.row) (index_row t.lower s r) rs
        (index_row-Agree ix s r a)

  module _ (fingerprint : Signature → ℕ → String) (rows : List Row) where
    -- The index that the evidence is read from and the index that credits are reconciled with agree on
    -- a report: they have the same settlement for a UTR, the same net and date for a settlement, and the
    -- same settlements for a net.
    pub recon_index-settlement_index :
        let ix = recon_index t (report rows) in
        let s = settlement_index fingerprint t.lower rows in
        (ix.utr_to_sid ≡ s.utr_to_sid)
        × (ix.settlement_net ≡ s.net_by_sid)
        × (ix.settlement_date ≡ s.date_by_sid)
        × (ix.net_to_settlements ≡ s.net_to_sids)
    unfolding recon_index settlement_index
    recon_index-settlement_index =
        let a =
          index_report-Agree _ (no_settlements (canonical_row_ids fingerprint rows)) rows
            (record { utrs = refl; nets = refl; dates = refl }) in
        (a.utrs, a.nets, a.dates, ap (group_nets []) a.nets)

    -- The nets have distinct settlements.
    pub recon_index-Nodup : Nodup (keys (recon_index t (report rows)).settlement_net)
    recon_index-Nodup =
        rw (recon_index-settlement_index.1)
          (settlement_index-IsConsistent fingerprint t.lower rows).nodup

-- ===== src/Reconcile/Index.antt =====
-- engine/reconcile.py: `SettlementIndex`, the lookups that its constructor builds. Its five sets of
-- outcomes change during a run and are the record `Marks` of Reconcile/Defs. `str.lower` is a parameter.
use untangle.Base.{
  ℕ, ◌+◌, ◌-◌, leb, String, Bool, false, Option, none, some, List, [], ◌∷◌, ◌++◌, if◌then◌else◌,
}
use untangle.Base.Int.{ℤ, pos, ◌+ℤ◌}
use untangle.Base.Keys.{Dict, lookup, insert, string_eq, int_eq}
use untangle.Models.{BankCreditLine, net_paise, truthy}
use untangle.Covered.{Row, Signature, canonical_row_ids}

pub record SettlementIndex : Type 0 where
  pub rows_by_sid : Dict String (List Row)
  pub utr_to_sid : Dict String String
  pub net_by_sid : Dict String ℤ
  pub date_by_sid : Dict String ℕ
  pub row_ids : Dict ℕ String
  pub net_to_sids : Dict ℤ (List String)

-- `d.get(k, default)`
abbrev pub or_else {ℓ} : {A : Type ℓ} → A → Option A → A
or_else default none = default
or_else default (some a) = a

abbrev pub rows_under : Dict String (List Row) → String → List Row
rows_under d sid = or_else [] (lookup sid d)

-- `rows_by_sid.setdefault(sid, []).append(r)`
abbrev pub append_row : String → Row → Dict String (List Row) → Dict String (List Row)
append_row sid r d = insert sid (rows_under d sid ++ r ∷ []) d

abbrev pub add_net : String → Row → Dict String ℤ → Dict String ℤ
add_net sid r d = insert sid (or_else (pos 0) (lookup sid d) +ℤ net_paise r.row) d

-- `utr_to_sid.setdefault(settlement_utr.lower(), sid)`
abbrev pub add_utr : (String → String) → String → Row → Dict String String → Dict String String
add_utr lower sid r d =
    if truthy r.row.settlement_utr
    then (let utr = lower (or_else "" r.row.settlement_utr) in
        insert utr (or_else sid (lookup utr d)) d)
    else d

abbrev pub add_date : String → Row → Dict String ℕ → Dict String ℕ
add_date sid r d = elim r.row.settled_at [ none ↦ d | some t ↦ insert sid t.day d ]

-- One round of the loop over the rows, for a row with the settlement id `sid`.
unfoldable pub index_settled : (String → String) → String → Row → SettlementIndex → SettlementIndex
index_settled lower sid r s = record s {
  rows_by_sid = append_row sid r s.rows_by_sid;
  net_by_sid = add_net sid r s.net_by_sid;
  utr_to_sid = add_utr lower sid r s.utr_to_sid;
  date_by_sid = add_date sid r s.date_by_sid;
}

unfoldable pub index_row : (String → String) → SettlementIndex → Row → SettlementIndex
unfolding index_settled
index_row lower s r =
    if truthy r.row.settlement_id
    then index_settled lower (or_else "" r.row.settlement_id) r s
    else s

unfoldable pub index_all : (String → String) → SettlementIndex → List Row → SettlementIndex
index_all lower s [] = s
index_all lower s (r ∷ rs) = index_all lower (index_row lower s r) rs

-- `for sid, n in net_by_sid.items(): net_to_sids.setdefault(n, []).append(sid)`
unfoldable pub group_nets : Dict ℤ (List String) → Dict String ℤ → Dict ℤ (List String)
group_nets d [] = d
group_nets d ((sid, n) ∷ nets) = group_nets (insert n (or_else [] (lookup n d) ++ sid ∷ []) d) nets

abbrev pub no_settlements : Dict ℕ String → SettlementIndex
no_settlements ids = record {
  rows_by_sid = [];
  utr_to_sid = [];
  net_by_sid = [];
  date_by_sid = [];
  row_ids = ids;
  net_to_sids = [];
}

unfoldable pub settlement_index :
    (Signature → ℕ → String) → (String → String) → List Row → SettlementIndex
unfolding index_all group_nets index_row
settlement_index fingerprint lower rows =
    let s = index_all lower (no_settlements (canonical_row_ids fingerprint rows)) rows in
    record s { net_to_sids = group_nets [] s.net_by_sid }

abbrev pub date_window_days : ℕ
date_window_days = 5

-- `abs((a - b).days)`
abbrev pub days_apart : ℕ → ℕ → ℕ
days_apart a b = (a - b) + (b - a)

unfoldable pub within_window : SettlementIndex → String → BankCreditLine → Bool
within_window s sid line = elim (lookup sid s.date_by_sid) [
  | none ↦ false
  | some d ↦ leb (days_apart line.value_date d) date_window_days
]

-- `utr_sid`: `tokens` are the lower-case UTR tokens of the line's text.
unfoldable pub first_known : Dict String String → List String → Option String
first_known d [] = none
first_known d (t ∷ ts) =
    let rest = first_known d ts in elim (lookup t d) [ none ↦ rest | some sid ↦ some sid ]

unfoldable pub utr_sid :
    (BankCreditLine → List String) → SettlementIndex → BankCreditLine → Option String
unfolding first_known
utr_sid tokens s line = first_known s.utr_to_sid (tokens line)

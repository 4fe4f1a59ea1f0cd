-- ===== src/Attribution/Evidence.antt =====
-- engine/evidence.py: the lookups over the report and the scan for UTR suffixes. `distinct_nets`,
-- which nothing reads, is left out.
use Prim.Native.String.{count}
use untangle.Base.{
  ℕ, leb, ltb, String, Bool, false, ◌&&◌, ◌||◌, not, Option, none, some, List, [], ◌∷◌, filter,
  if◌then◌else◌,
}
use untangle.Base.Int.{ℤ, pos, ◌+ℤ◌}
use untangle.Base.Keys.{Dict, ◌=?◌, lookup, insert, add, contains, string_eq, int_eq}
use untangle.Models.{truthy, Datetime, BankCreditLine, ReconRow, net_paise}
use untangle.Reconcile.Index.{or_else, group_nets, days_apart}
use untangle.Attribution.Texts.{Texts, concat, ends_with}

pub record ReconIndex : Type 0 where
  pub settlement_utrs : List String
  pub utr_to_sid : Dict String String
  pub settlement_net : Dict String ℤ
  pub settlement_date : Dict String ℕ
  pub net_to_settlements : Dict ℤ (List String)

abbrev pub date_window : ℕ
date_window = 3

-- The one element of a list that has one.
abbrev pub only_one : List String → Option String
only_one [] = none
only_one (u ∷ []) = some u
only_one (_ ∷ _ ∷ _) = none

abbrev pub is_tail : String → String → Bool
is_tail tok u = ends_with u tok && not (u =? tok)

-- What is known of the settlement that a UTR names.
abbrev pub date_of_utr : ReconIndex → String → Option ℕ
date_of_utr ix u = elim (lookup u ix.utr_to_sid) [
  | none ↦ none
  | some sid ↦ lookup sid ix.settlement_date
]

abbrev pub net_of_utr : ReconIndex → String → Option ℤ
net_of_utr ix u = elim (lookup u ix.utr_to_sid) [
  | none ↦ none
  | some sid ↦ lookup sid ix.settlement_net
]

abbrev pub date_near : ℕ → Option ℕ → Bool
date_near day none = false
date_near day (some d) = leb (days_apart day d) date_window

abbrev pub amount_is : BankCreditLine → Option ℤ → Bool
amount_is line none = false
amount_is line (some n) = line.is_credit && (line.amount_paise =? n)

abbrev pub corroborated : ReconIndex → BankCreditLine → String → Bool
corroborated ix line u =
    date_near line.value_date (date_of_utr ix u) || amount_is line (net_of_utr ix u)

-- What the loop over the suffix candidates ends with.
pub data SuffixScan : Type 0 where
  nothing : SuffixScan
  weak : (tok u : String) → SuffixScan
  strong : (tok u : String) → SuffixScan

abbrev pub or_weak : SuffixScan → String → String → SuffixScan
or_weak nothing tok u = weak tok u
or_weak seen tok u = seen

-- The date of the last row of a settlement that has one.
abbrev pub date_settled : String → Option Datetime → Dict String ℕ → Dict String ℕ
date_settled sid none d = d
date_settled sid (some at) d = insert sid at.day d

module _ (t : Texts) where
  -- `raw_text()` of engine/models.py
  abbrev pub raw_text : BankCreditLine → String
  raw_text line = t.strip (concat (line.narration ∷ " " ∷ or_else "" line.bank_ref ∷ []))

  abbrev pub index_utr : ReconIndex → ReconRow → ReconIndex
  index_utr ix r =
      if truthy r.settlement_utr
      then (let u = t.lower (or_else "" r.settlement_utr) in
          record ix {
            settlement_utrs = add u ix.settlement_utrs;
            utr_to_sid =
                if truthy r.settlement_id
                then insert u (or_else (or_else "" r.settlement_id) (lookup u ix.utr_to_sid))
                    ix.utr_to_sid
                else ix.utr_to_sid;
          })
      else ix

  abbrev pub index_net : ReconIndex → ReconRow → ReconIndex
  index_net ix r =
      if truthy r.settlement_id
      then (let sid = or_else "" r.settlement_id in
          record ix {
            settlement_net =
                insert sid (or_else (pos 0) (lookup sid ix.settlement_net) +ℤ net_paise r)
                  ix.settlement_net;
            settlement_date = date_settled sid r.settled_at ix.settlement_date;
          })
      else ix

  unfoldable pub index_report : ReconIndex → List ReconRow → ReconIndex
  index_report ix [] = ix
  index_report ix (r ∷ rs) = index_report (index_net (index_utr ix r) r) rs

  -- `ReconIndex(rows)`
  unfoldable pub recon_index : List ReconRow → ReconIndex
  unfolding index_report group_nets
  recon_index rows =
      let ix =
        index_report
          (record {
            settlement_utrs = [];
            utr_to_sid = [];
            settlement_net = [];
            settlement_date = [];
            net_to_settlements = [];
          })
          rows in
      record ix { net_to_settlements = group_nets [] ix.settlement_net }

  abbrev pub utr_exact : ReconIndex → String → Bool
  utr_exact ix token = contains (t.lower token) ix.settlement_utrs

  unfoldable pub utr_suffix_match : ReconIndex → String → Option String
  utr_suffix_match ix token =
      let tok = t.lower token in
      if ltb (count tok) 6 then none else only_one (filter (is_tail tok) ix.settlement_utrs)

  abbrev pub extract_utr_tokens : String → List String
  extract_utr_tokens s = t.utr_matches (t.normalize s)

  unfoldable pub scan_suffixes : ReconIndex → BankCreditLine → SuffixScan → List String → SuffixScan
  unfolding utr_suffix_match
  scan_suffixes ix line seen [] = seen
  scan_suffixes ix line seen (tok ∷ toks) = elim (utr_suffix_match ix tok) [
    | none ↦ scan_suffixes ix line seen toks
    | some u ↦
        let rest = scan_suffixes ix line (or_weak seen tok u) toks in
        if corroborated ix line u then strong tok u else rest
  ]

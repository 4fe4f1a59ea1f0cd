-- ===== src/Reconcile/Passes.antt =====
-- engine/reconcile.py: `reconcile`, its two passes and the classification of what is left.
use untangle.Base.{
  ℕ, suc, leb, String, Bool, ◌&&◌, ◌||◌, not, none, some, List, [], ◌∷◌, ◌++◌, map, filter,
  if◌then◌else◌,
}
use untangle.Base.Int.{◌-ℤ◌, ltb_ℤ, sum}
use untangle.Base.Keys.{Dict, ◌=?◌, lookup, insert, keys, add, contains, string_eq}
use untangle.Base.Flow.{Result, ok, ◌>>=◌}
use untangle.Models.{BankCreditLine, RailAttribution, ReconciliationResult, net_paise}
use untangle.Covered.{Row, Signature}
use untangle.Subsets.{ValueError}
use untangle.Reconcile.Index.{SettlementIndex, settlement_index, utr_sid, or_else}
use untangle.Reconcile.Defs.{Marks, no_marks, amount_or_setsum_sids, make_result}

-- An attribution of the slice, by its key, and the line `lines_by_key[a.line_key]`.
abbrev pub Claim : Type 0
Claim = String × BankCreditLine

-- `rzp`: the attributions to Razorpay that did not abstain and whose line exists, in order.
unfoldable pub razorpay_slice :
    {F : Type 0} → Dict String BankCreditLine → List (RailAttribution F) → List Claim
razorpay_slice lines_by_key [] = []
razorpay_slice lines_by_key (a ∷ rest_of) =
    let rest = razorpay_slice lines_by_key rest_of in
    if (a.rail =? "razorpay_settlement") && not a.abstained
    then elim (lookup a.line_key lines_by_key) [
      | none ↦ rest
      | some line ↦ (a.line_key, line) ∷ rest
    ]
    else rest

-- The variables `results`, `used_sids`, `resolved` and the sets of the index.
pub record Progress : Type 0 where
  pub results : List ReconciliationResult
  pub used_sids : List String
  pub resolved : List String
  pub marks : Marks

abbrev pub start : Progress
start = record { results = []; used_sids = []; resolved = []; marks = no_marks }

-- `xs.update(ys)` of a set
abbrev pub add_all : List String → List String → List String
add_all [] xs = xs
add_all (y ∷ ys) xs = add_all ys (add y xs)

-- `res = _make_result(...)` with the statements under `if res is not None`.
unfoldable pub settle : SettlementIndex → Claim → List String → Progress → Progress
unfolding make_result
settle s c sids p = elim (make_result c.1 sids s) [
  | none ↦ p
  | some res ↦ record p {
    results = p.results ++ res ∷ [];
    used_sids = add_all sids p.used_sids;
    resolved = add c.0 p.resolved;
  }
]

module _ (tokens : BankCreditLine → List String) (s : SettlementIndex) where
  -- `utr_claims`
  unfoldable pub group_claims : Dict String (List Claim) → List Claim → Dict String (List Claim)
  group_claims d [] = d
  group_claims d (c ∷ cs) = elim (utr_sid tokens s c.1) [
    | none ↦ group_claims d cs
    | some sid ↦ group_claims (insert sid (or_else [] (lookup sid d) ++ c ∷ []) d) cs
  ]

  -- The body of the loop over the groups: several claims on one settlement are all set aside.
  unfoldable pub pass_1_step : Progress → String × List Claim → Progress
  unfolding settle
  pass_1_step p (sid, []) = p
  pass_1_step p (sid, c ∷ []) = settle s c (sid ∷ []) p
  pass_1_step p (sid, c ∷ d ∷ ds) = record p {
    marks = record p.marks {
      duplicate_or_split_lines =
          add_all (map (λ (e : Claim). e.0) (c ∷ d ∷ ds)) p.marks.duplicate_or_split_lines;
    };
  }

  unfoldable pub pass_1 : Progress → Dict String (List Claim) → Progress
  unfolding pass_1_step
  pass_1 p [] = p
  pass_1 p (g ∷ gs) = pass_1 (pass_1_step p g) gs

  -- `if not sids: continue`
  unfoldable pub settle_found : Claim → Progress → Marks × List String → Progress
  unfolding settle
  settle_found c p (m, []) = record p { marks = m }
  settle_found c p (m, sid ∷ sids) = settle s c (sid ∷ sids) (record p { marks = m })

  unfoldable pub pass_2_step : Progress → Claim → Result ValueError Progress
  unfolding settle_found amount_or_setsum_sids
  pass_2_step p c =
      if contains c.0 p.resolved || contains c.0 p.marks.duplicate_or_split_lines
      then ok p
      else (do found ← amount_or_setsum_sids s c.1 p.used_sids p.marks; ok (settle_found c p found))

  unfoldable pub pass_2 : Progress → List Claim → Result ValueError Progress
  unfolding pass_2_step
  pass_2 p [] = ok p
  pass_2 p (c ∷ cs) = do p' ← pass_2_step p c; pass_2 p' cs

  -- Why a line that a UTR ties to a settlement is left over.
  unfoldable pub classify_known : Claim → List Row → Marks → Marks
  classify_known c rows m =
      let net = sum (map (λ (r : Row). net_paise r.row) rows) in
      if ltb_ℤ c.1.amount_paise net
      then record m { duplicate_or_split_lines = add c.0 m.duplicate_or_split_lines }
      else record m { unbalanced_lines = insert c.0 (c.1.amount_paise -ℤ net) m.unbalanced_lines }

  unfoldable pub classify_line : Marks → Claim → Marks
  unfolding classify_known
  classify_line m c = elim (utr_sid tokens s c.1) [
    | none ↦ m
    | some sid ↦
        if sid =? ""
        then m
        else elim (lookup sid s.rows_by_sid) [ none ↦ m | some rows ↦ classify_known c rows m ]
  ]

  unfoldable pub classify : Marks → List Claim → Marks
  unfolding classify_line
  classify m [] = m
  classify m (c ∷ cs) = classify (classify_line m c) cs

-- `{a.line_key: i for i, a in enumerate(rzp)}`
unfoldable pub order_of : ℕ → Dict String ℕ → List Claim → Dict String ℕ
order_of i d [] = d
order_of i d (c ∷ cs) = order_of (suc i) (insert c.0 i d) cs

-- `results.sort(key=lambda r: order.get(r.line_key, 0))`
module _ (order : Dict String ℕ) where
  abbrev pub place : ReconciliationResult → ℕ
  place r = or_else 0 (lookup r.line_key order)

  unfoldable pub insert_result :
      ReconciliationResult → List ReconciliationResult → List ReconciliationResult
  insert_result r [] = r ∷ []
  insert_result r (q ∷ qs) =
      let rest = insert_result r qs in if leb (place r) (place q) then r ∷ q ∷ qs else q ∷ rest

  unfoldable pub sort_results : List ReconciliationResult → List ReconciliationResult
  unfolding insert_result
  sort_results [] = []
  sort_results (r ∷ rs) = insert_result r (sort_results rs)

pub record Reconciled : Type 0 where
  pub results : List ReconciliationResult
  pub unresolved : List String
  pub index : SettlementIndex
  pub marks : Marks

abbrev pub is_left : List String → Claim → Bool
is_left resolved c = not (contains c.0 resolved)

module _ (tokens : BankCreditLine → List String) where
  -- What `reconcile` does after the two passes.
  unfoldable pub close : SettlementIndex → List Claim → Progress → Reconciled
  unfolding classify sort_results order_of
  close s rzp p =
      let left = filter (is_left p.resolved) rzp in
      record {
        results = sort_results (order_of 0 [] rzp) p.results;
        unresolved = map (λ (c : Claim). c.0) left;
        index = s;
        marks = record (classify tokens s p.marks left) {
          uncredited_sids = filter (λ sid. not (contains sid p.used_sids)) (keys s.rows_by_sid);
        };
      }

  unfoldable pub reconcile_slice : SettlementIndex → List Claim → Result ValueError Reconciled
  unfolding pass_1 pass_2 group_claims close
  reconcile_slice s rzp = do
    p ← pass_2 tokens s (pass_1 tokens s start (group_claims tokens s [] rzp)) rzp
    ok (close s rzp p)

  unfoldable pub reconcile :
      {F : Type 0}
      → (Signature → ℕ → String)
      → (String → String)
      → Dict String BankCreditLine
      → List (RailAttribution F)
      → List Row
      → Result ValueError Reconciled
  unfolding reconcile_slice settlement_index razorpay_slice
  reconcile fingerprint lower lines_by_key attributions recon_rows =
      reconcile_slice (settlement_index fingerprint lower recon_rows)
        (razorpay_slice lines_by_key attributions)

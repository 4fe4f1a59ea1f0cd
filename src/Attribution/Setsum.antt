-- ===== src/Attribution/Setsum.antt =====
-- engine/attribute.py: `_setsum_evidence`, a credit as the sum of several settlements. Its call of the
-- two searches is that of engine/reconcile.py, so `setsum_search` is used here too.
use untangle.Base.{
  ℕ, leb, ltb, ◌==◌, String, Bool, false, ◌&&◌, ◌||◌, not, Option, none, some, List, [], ◌∷◌, ◌++◌,
  map, filter, length, if◌then◌else◌,
}
use untangle.Base.Int.{pos, leb_ℤ}
use untangle.Base.Keys.{lookup, string_eq, int_eq}
use untangle.Base.Floats.{Floats}
use untangle.Base.Flow.{Result, ok, ◌>>=◌}
use untangle.Models.{BankCreditLine, EvidenceItem}
use untangle.Subsets.{Item, BoundedSubsetResult, ValueError, text_le}
use untangle.Reconcile.Index.{or_else, days_apart}
use untangle.Reconcile.{setsum_search}
use untangle.Attribution.Texts.{Texts, concat}
use untangle.Attribution.Evidence.{ReconIndex}
use untangle.Attribution.Signals.{item}

abbrev pub setsum_window : ℕ
setsum_window = 5

-- `d is not None and abs((line.value_date - d).days) <= 5`
abbrev pub dated_near : ReconIndex → BankCreditLine → String → Bool
dated_near ix line sid = elim (lookup sid ix.settlement_date) [
  | none ↦ false
  | some d ↦ leb (days_apart line.value_date d) setsum_window
]

-- `cands`
abbrev pub is_part : ReconIndex → BankCreditLine → Item → Bool
is_part ix line i = not (leb_ℤ i.1 (pos 0) || leb_ℤ line.amount_paise i.1) && dated_near ix line i.0

abbrev pub parts : ReconIndex → BankCreditLine → List Item
parts ix line = filter (is_part ix line) ix.settlement_net

abbrev pub singles : ReconIndex → BankCreditLine → List (List String)
singles ix line =
    map (λ sid. sid ∷ [])
      (filter (dated_near ix line) (or_else [] (lookup line.amount_paise ix.net_to_settlements)))

unfoldable pub insert_sid : String → List String → List String
insert_sid s [] = s ∷ []
insert_sid s (r ∷ rs) = let rest = insert_sid s rs in if text_le s r then s ∷ r ∷ rs else r ∷ rest

-- `sorted(subset)`
unfoldable pub sort_sids : List String → List String
unfolding insert_sid
sort_sids [] = []
sort_sids (s ∷ ss) = insert_sid s (sort_sids ss)

abbrev pub join : List String → List String
join [] = []
join (s ∷ []) = s ∷ []
join (s ∷ r ∷ rs) = s ∷ ", " ∷ join (r ∷ rs)

module _ (t : Texts) {F : Type 0} ⦃fl : Floats F⦄ where
  -- What is said of the subsets that add up to the credit.
  abbrev pub verdict_of : BankCreditLine → List (List String) → Option (List (EvidenceItem F))
  verdict_of line [] = none
  verdict_of line ((_ ∷ []) ∷ []) = none
  verdict_of line (subset ∷ []) = some (
      item "setsum"
        (concat (
          "credit equals net sum of "
          ∷ t.show (pos (length subset))
          ∷ " settlements ("
          ∷ concat (join subset)
          ∷ ")"
          ∷ []))
        5500
      ∷ [])
  verdict_of line (s ∷ r ∷ rs) = some (
      item "multiple_satisfying_subsets"
        (concat (
          "ambiguous set-sum: "
          ∷ t.show (pos (length (s ∷ r ∷ rs)))
          ∷ " distinct subsets sum to "
          ∷ t.show line.amount_paise
          ∷ " paise"
          ∷ []))
        0
      ∷ [])

  abbrev pub conclude :
      BankCreditLine
      → List Item
      → List (List String)
      → BoundedSubsetResult
      → Option (List (EvidenceItem F))
  conclude line cands single search =
      if search.exhausted
      then some (
          item "setsum_unenumerable"
            (concat (
              "bounded set-sum combination budget exceeded while checking "
              ∷ t.show (pos (length cands))
              ∷ " settlements"
              ∷ []))
            0
          ∷ [])
      else verdict_of line (single ++ map sort_sids search.subsets)

  unfoldable pub setsum_evidence :
      ReconIndex → BankCreditLine → Result ValueError (Option (List (EvidenceItem F)))
  unfolding setsum_search sort_sids
  setsum_evidence ix line =
      if not line.is_credit
      then ok none
      else if (length (parts ix line) == 0) || ltb 200 (length (parts ix line))
      then ok none
      else setsum_search (parts ix line) line.amount_paise >>= λ search.
          ok (conclude line (parts ix line) (singles ix line) search)

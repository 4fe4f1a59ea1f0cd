-- ===== src/Reconcile/Tests.antt =====
-- The theorems on reconciliation at concrete inputs.
use untangle.Models.{BankCreditLine, RailAttribution}
use untangle.Reconcile.Slice.{contested_set_aside}
use untangle.Base.{map, ℕ, String, In, ◌≡◌, refl, inl, inr, some, List, [], ◌∷◌}
use untangle.Base.Int.{ℤ, pos, ◌+ℤ◌, ◌-ℤ◌}
use untangle.Base.Keys.{=?_ne, Dict, string_eq}
use untangle.Base.Flow.{ok}
use untangle.Covered.{signature_eq}
use untangle.Reconcile.{no_marks, decide_subset, amount_or_setsum_sids}
use untangle.Subsets.Legacy.{find_legacy_subsets, legacy_search}
use untangle.Reconcile.Index.{SettlementIndex, settlement_index, within_window, utr_sid}
use untangle.Reconcile.IndexLaws.{IsConsistent, settlement_index-IsConsistent}
use untangle.Reconcile.Coverage.{Covers, amount_or_setsum_sids_sound}
use untangle.Reconcile.Passes.{Reconciled, razorpay_slice, reconcile}
use untangle.Reconcile.Outcome.{Contract, reconcile_contract}
use untangle.Fixtures.{twins, tallied, credit, proven, one_token, unchanged}

settlement_index-IsConsistent_example : IsConsistent (settlement_index tallied unchanged twins)
settlement_index-IsConsistent_example = settlement_index-IsConsistent tallied unchanged twins

-- The settlement of the twins is the only one with their net.
twins_found :
    amount_or_setsum_sids (settlement_index tallied unchanged twins) credit [] no_marks
    ≡ ok (no_marks, "setl_a" ∷ [])
unfolding amount_or_setsum_sids settlement_index within_window decide_subset ◌+ℤ◌ ◌-ℤ◌
twins_found = refl

amount_or_setsum_sids_sound_example :
    Covers (settlement_index tallied unchanged twins) credit [] ("setl_a" ∷ [])
amount_or_setsum_sids_sound_example =
    amount_or_setsum_sids_sound (settlement_index tallied unchanged twins)
      (settlement_index-IsConsistent tallied unchanged twins) credit [] no_marks no_marks "setl_a"
      [] twins_found

reconcile_contract_example :
    (out : Reconciled) × (reconcile one_token tallied unchanged
        (("line_1", credit) ∷ [])
        (proven ∷ [])
        twins
      ≡ ok out)
    × Contract (razorpay_slice (("line_1", credit) ∷ []) (proven ∷ [])) out
reconcile_contract_example =
    reconcile_contract tallied unchanged one_token (("line_1", credit) ∷ []) (proven ∷ []) twins

-- A second line whose text holds the same UTR.
abbrev two_lines : Dict String BankCreditLine
two_lines = ("line_1", credit) ∷ ("line_2", record credit { key = "line_2" }) ∷ []

abbrev both_proven : List (RailAttribution ℕ)
both_proven = proven ∷ record proven { line_key = "line_2" } ∷ []

contested_run :
    (out : Reconciled) × (reconcile one_token tallied unchanged two_lines both_proven twins
      ≡ ok out)
    × Contract (razorpay_slice two_lines both_proven) out
contested_run = reconcile_contract tallied unchanged one_token two_lines both_proven twins

tied_by_utr : utr_sid one_token (settlement_index tallied unchanged twins) credit ≡ some "setl_a"
unfolding utr_sid settlement_index
tied_by_utr = refl

contested_set_aside_example :
    In "line_1" contested_run.0.unresolved
    × In "line_1" contested_run.0.marks.duplicate_or_split_lines
unfolding razorpay_slice utr_sid
contested_set_aside_example =
    contested_set_aside tallied unchanged one_token two_lines both_proven twins contested_run.0
      ("line_1", credit) ("line_2", record credit { key = "line_2" }) "setl_a" contested_run.1
      (inl refl) (inr (inl refl)) (=?_ne "line_1" "line_2" refl) tied_by_utr tied_by_utr

-- Seventeen settlements near the day of the credit, in the order of the report: one with 10,000,000, one with 5,000,000
-- whose id comes before it, and fifteen small ones.
abbrev many_nets : Dict String ℤ
many_nets =
    ("setl_b", pos 10000000)
    ∷ ("setl_a", pos 5000000)
    ∷ ("t1", pos 1)
    ∷ ("t2", pos 2)
    ∷ ("t3", pos 3)
    ∷ ("t4", pos 4)
    ∷ ("t5", pos 5)
    ∷ ("t6", pos 6)
    ∷ ("t7", pos 7)
    ∷ ("t8", pos 8)
    ∷ ("t9", pos 9)
    ∷ ("u1", pos 11)
    ∷ ("u2", pos 12)
    ∷ ("u3", pos 13)
    ∷ ("u4", pos 14)
    ∷ ("u5", pos 15)
    ∷ ("u6", pos 16)
    ∷ []

abbrev many_settlements : SettlementIndex
many_settlements = record {
  rows_by_sid = [];
  utr_to_sid = [];
  net_by_sid = many_nets;
  date_by_sid = map (λ e. (e.0, 738000)) many_nets;
  row_ids = [];
  net_to_sids = [];
}

-- The credit of 25,000,000 counts the settlement of 10,000,000 twice.
counted_twice :
    amount_or_setsum_sids many_settlements
      (record credit { amount_paise = pos 25000000; value_date = 738000 })
      []
      no_marks
    ≡ ok (no_marks, "setl_b" ∷ "setl_a" ∷ "setl_b" ∷ [])
unfolding amount_or_setsum_sids within_window decide_subset ◌+ℤ◌ ◌-ℤ◌ find_legacy_subsets
    legacy_search
counted_twice = refl

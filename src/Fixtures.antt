-- ===== src/Fixtures.antt =====
-- Data for the tests: a bank credit and the rows of two small settlements, as engine/models.py has them.
use untangle.Base.{
  ℕ, zero, suc, ◌≡◌, refl, ap, sym, ◌∙◌, inl, inr, String, true, false, none, some, List, [], ◌∷◌,
  In, arith,
}
use untangle.Base.Int.{pos}
use untangle.Models.{BankCreditLine, ReconRow, RailAttribution, ReconciliationResult, Datetime}
use untangle.Covered.{Row, Signature, row_signature}
use untangle.Covered.Canonical.{Distinct, CollisionFree}

abbrev pub moment : Datetime
moment = record { day = 738000; microsecond = 0 }

-- A payment of 1,000 paise with a fee of 20 and 3 of GST in it, settled in `sid`.
abbrev pub payment : String → String → ReconRow
payment entity sid = record {
  entity_id = entity;
  kind = "payment";
  amount_paise = pos 1000;
  fee_paise = pos 20;
  tax_paise = pos 3;
  debit_paise = pos 0;
  credit_paise = pos 980;
  settlement_id = some sid;
  settlement_utr = some "1234567890abcdef";
  settled_at = some moment;
  created_at = some moment;
  on_hold = false;
  dispute_id = none;
  order_id = some "order_1";
  method = some "upi";
  description = none;
  row_id = none;
  authorized_amount_paise = none;
  captured_amount_paise = none;
}

abbrev pub row_at : ℕ → ReconRow → Row
row_at n r = record { ident = n; row = r }

-- Two physical rows with the same contents.
abbrev pub twins : List Row
twins = row_at 1 (payment "pay_1" "setl_a") ∷ row_at 2 (payment "pay_1" "setl_a") ∷ []

-- The occurrence in unary, for a digest that is the same for every row.
abbrev pub tally : ℕ → String
tally zero = ""
tally (suc n) = String.◌∷◌ "|" (tally n)

pub tally-injective : (m n : ℕ) → tally m ≡ tally n → m ≡ n
tally-injective zero zero e = refl
tally-injective zero (suc n) e = cc
tally-injective (suc m) zero e = cc
tally-injective (suc m) (suc n) e = ap suc (tally-injective m n (cc))

-- Digests for the twins: the occurrence alone tells their ids apart.
abbrev pub tallied : Signature → ℕ → String
tallied s n = tally n

signature_of_twin :
    (r : Row) → In r twins → row_signature r.row ≡ row_signature (payment "pay_1" "setl_a")
signature_of_twin r (inl e) = rw e
signature_of_twin r (inr (inl e)) = rw e
signature_of_twin r (inr (inr e)) = elim e [ ]

pub twins-CollisionFree : CollisionFree tallied twins
twins-CollisionFree r q m n i j e =
    (signature_of_twin r i ∙ sym (signature_of_twin q j), tally-injective m n e)

pub twins-Distinct : Distinct twins
twins-Distinct =
    (λ q m. elim m [ inl e ↦ rw e (omega arith) | inr e ↦ elim e [ ] ], (λ q m. elim m [ ], tt))

-- A reconciliation that covers both twins.
abbrev pub covering : ReconciliationResult
covering = record {
  line_key = "line_1";
  covered_entity_ids = ("payment", "pay_1") ∷ ("payment", "pay_1") ∷ [];
  covered_net_paise = pos 1960;
  credit_amount_paise = pos 1960;
  residual_paise = pos 0;
  balanced = true;
  covered_row_ids = "" ∷ "|" ∷ [];
}

-- A credit of 1,960 paise, dated on the day of the settlements.
abbrev pub credit : BankCreditLine
credit = record {
  key = "line_1";
  value_date = 738000;
  amount_paise = pos 1960;
  narration = "NEFT RAZORPAY 1234567890abcdef";
  bank_ref = none;
  is_credit = true;
}

-- An attribution of `credit` to Razorpay; a float is a number here.
abbrev pub proven : RailAttribution ℕ
proven = record {
  line_key = "line_1";
  rail = "razorpay_settlement";
  confidence = 99;
  tier = "A";
  evidence = [];
  abstained = false;
  llm_used = false;
  proof_margin = none;
  competing_explanation = none;
}

-- The lower-case UTR tokens of `credit`, given to every line.
abbrev pub one_token : BankCreditLine → List String
one_token line = "1234567890abcdef" ∷ []

abbrev pub no_tokens : BankCreditLine → List String
no_tokens line = []

abbrev pub unchanged : String → String
unchanged s = s

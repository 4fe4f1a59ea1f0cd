-- ===== src/Models.antt =====
-- engine/models.py: the records of the engine. Money is an integer number of paise. A float
-- (`confidence`, `weight`) is a value of a type `F`, a parameter of the records that hold one.
use untangle.Base.{
  ℕ, ◌==◌, ltb, ◌≡◌, ◌↔◌, String, Bool, true, false, ◌&&◌, not, Option, none, some, List, [], ◌∷◌,
  if◌then◌else◌, arith,
}
use untangle.Base.Int.{ℤ, ◌-ℤ◌}
use untangle.Base.Keys.{Eq, ◌=?◌, string_eq}

pub data Rail : Type 0 where
  razorpay_settlement other_gateway direct_upi cod_remittance unrelated unknown : Rail

-- `rail.value`
abbrev pub rail_value : Rail → String
rail_value razorpay_settlement = "razorpay_settlement"
rail_value other_gateway = "other_gateway"
rail_value direct_upi = "direct_upi"
rail_value cod_remittance = "cod_remittance"
rail_value unrelated = "unrelated"
rail_value unknown = "UNKNOWN"

-- The truth value of an optional text: `None` and "" are false.
abbrev pub truthy : Option String → Bool
truthy none = false
truthy (some s) = not (s =? "")

-- A naive `datetime`: the ordinal of its day, and the microsecond of the day.
pub record Datetime : Type 0 where
  pub day : ℕ
  pub microsecond : ℕ

abbrev pub datetime_beq : Datetime → Datetime → Bool
datetime_beq a b = (a.day == b.day) && (a.microsecond == b.microsecond)

pub datetime_beq_iff : (a b : Datetime) → (datetime_beq a b ≡ true) ↔ (a ≡ b)
datetime_beq_iff a b = (λ h. ground arith, λ h. ground arith)

instance abbrev pub datetime_eq : Eq Datetime
datetime_eq = record { beq = datetime_beq; beq_iff = datetime_beq_iff }

-- `a < b`
abbrev pub before : Datetime → Datetime → Bool
before a b = if a.day == b.day then ltb a.microsecond b.microsecond else ltb a.day b.day

-- `value_date` is the ordinal of a `date`.
pub record BankCreditLine : Type 0 where
  pub key : String
  pub value_date : ℕ
  pub amount_paise : ℤ
  pub narration : String
  pub bank_ref : Option String
  pub is_credit : Bool

-- `kind` is the source's field `type`.
pub record ReconRow : Type 0 where
  pub entity_id : String
  pub kind : String
  pub amount_paise : ℤ
  pub fee_paise : ℤ
  pub tax_paise : ℤ
  pub debit_paise : ℤ
  pub credit_paise : ℤ
  pub settlement_id : Option String
  pub settlement_utr : Option String
  pub settled_at : Option Datetime
  pub created_at : Option Datetime
  pub on_hold : Bool
  pub dispute_id : Option String
  pub order_id : Option String
  pub method : Option String
  pub description : Option String
  pub row_id : Option String
  pub authorized_amount_paise : Option ℤ
  pub captured_amount_paise : Option ℤ

abbrev pub net_paise : ReconRow → ℤ
net_paise r = r.credit_paise -ℤ r.debit_paise

pub record OrderLedgerEntry : Type 0 where
  pub order_id : Option String
  pub amount_paise : ℤ
  pub status : String
  pub created_at : Option Datetime

pub record EvidenceItem (F : Type 0) : Type 0 where
  pub signal : String
  pub detail : String
  pub weight : F

-- One of the challenger's counterfactual explanations (engine/challenger.py).
pub record CompetingExplanation (F : Type 0) : Type 0 where
  pub operator : String
  pub rail : String
  pub score : F
  pub detail : String
  pub removed_signals : List String

-- What the solver says of one assignment when two worlds compete (engine/solver.py).
pub record Contender (F : Type 0) : Type 0 where
  pub assignment_id : String
  pub target_id : String
  pub rail : String
  pub confidence : F

pub record Contest (F : Type 0) : Type 0 where
  pub chosen : Contender F
  pub competing : Contender F
  pub objective_gap : F
  pub margin_threshold : F

-- The two shapes of the dict `competing_explanation`.
pub data Explanation (F : Type 0) : Type 0 where
  challenged : CompetingExplanation F → Explanation F
  contested : Contest F → Explanation F

pub record RailAttribution (F : Type 0) : Type 0 where
  pub line_key : String
  pub rail : String
  pub confidence : F
  pub tier : String
  pub evidence : List (EvidenceItem F)
  pub abstained : Bool
  pub llm_used : Bool
  pub proof_margin : Option F
  pub competing_explanation : Option (Explanation F)

-- The values of `Tier`.
pub data Tier : Type 0 where
  tier_a tier_b tier_c llm rule no_tier : Tier

abbrev pub tier_value : Tier → String
tier_value Tier.tier_a = "A"
tier_value Tier.tier_b = "B"
tier_value Tier.tier_c = "C"
tier_value Tier.llm = "LLM"
tier_value Tier.rule = "rule_derived"
tier_value Tier.no_tier = "none"

module _ {F : Type 0} where
  unfoldable pub provenance_class : RailAttribution F → String
  provenance_class a =
      if not a.abstained
      then (if a.rail =? "razorpay_settlement" then "razorpay_proven" else "non_razorpay")
      else elim a.evidence [ [] ↦ "unattributed" | _ ∷ _ ↦ "ambiguous" ]

pub record ReconciliationResult : Type 0 where
  pub line_key : String
  pub covered_entity_ids : List (String × String)
  pub covered_net_paise : ℤ
  pub credit_amount_paise : ℤ
  pub residual_paise : ℤ
  pub balanced : Bool
  pub covered_row_ids : List String

pub record FeeGstRecovery : Type 0 where
  pub total_recoverable_paise : ℤ
  pub by_entity : List (String × ℤ)

pub record ExceptionRecord (F : Type 0) : Type 0 where
  pub line_key : String
  pub reason_code : String
  pub detail : String
  pub suggested_action : String
  pub amount_paise : Option ℤ
  pub evidence : List (EvidenceItem F)

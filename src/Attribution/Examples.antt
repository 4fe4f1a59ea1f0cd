-- ===== src/Attribution/Examples.antt =====
-- Data for the tests of the attribution: floats in ten-thousandths, an evidence pack, a credit with a UTR.
use Prim.Native.Nat.{◌*◌, ◌/◌}
use untangle.Base.{ℕ, String, true, false, none, List, [], ◌∷◌, if◌then◌else◌, arith}
use untangle.Base.Int.{ℤ, pos, ◌+ℤ◌, ◌-ℤ◌, leb_ℤ}
use untangle.Base.Floats.{Floats, IsOrder}
use untangle.Models.{Rail, BankCreditLine, ReconRow}
use untangle.Fixtures.{payment}
use untangle.Attribution.Texts.{Texts, occurs}
use untangle.Attribution.Evidence.{ReconIndex, recon_index}
use untangle.Attribution.Packs.{NarrationEvidencePack}
use untangle.Attribution.Line.{Engine, LineOptions}

abbrev times : ℤ → ℤ → ℤ
times (pos a) (pos b) = pos (a * b / 10000)
times _ _ = pos 0

instance abbrev pub decimals : Floats ℤ
decimals = record {
  decimal = pos;
  leq = leb_ℤ;
  plus = λ a b. a +ℤ b;
  minus = λ a b. a -ℤ b;
  times = times;
  round = λ n x. x;
}

pub decimals-IsOrder : IsOrder decimals.leq
decimals-IsOrder = record { total = λ a b h. ground arith; trans = λ a b c h k. ground arith }

abbrev pub utr : String
utr = "1234567890abcdef"

abbrev pub plain : Texts
plain = record {
  normalize = λ s. s;
  lower = λ s. s;
  strip = λ s. s;
  utr_matches = λ s. if occurs utr s then utr ∷ [] else [];
  alnum_matches = λ s. [];
  show = λ n. "";
  quote = λ s. s;
  show_list = λ ss. "";
  keyword_in = λ needle s. occurs needle s;
  utr_of_detail = λ s. utr;
}

abbrev pub small_pack : NarrationEvidencePack ℤ
small_pack = record {
  pack_id = "default";
  version = "1";
  schema_version = "1";
  description = "";
  rail_keywords = (Rail.other_gateway, "payu" ∷ []) ∷ [];
  decoy_markers = [];
  rzp_brand = "razorpay" ∷ [];
  rzp_context = "settl" ∷ [];
  rzp_ifsc = "ratn0000088";
  non_rzp_pattern_weight = pos 8000;
  rzp_brand_context_weight = pos 6000;
  rzp_brand_weak_weight = pos 3000;
  rzp_ifsc_weight = pos 6000;
  settlement_ref_weight = pos 2000;
}

abbrev pub engine : Engine ℤ
engine = record {
  texts = plain;
  pack = small_pack;
  margin_note = λ margin threshold operator. operator;
}

abbrev pub options : LineOptions ℤ
options = record { threshold = pos 5500; margin_threshold = pos 0; audit = false }

abbrev pub report_rows : List ReconRow
report_rows = payment "pay_1" "setl_a" ∷ payment "pay_2" "setl_a" ∷ []

abbrev pub small_index : ReconIndex
small_index = recon_index plain report_rows

abbrev pub utr_credit : BankCreditLine
utr_credit = record {
  key = "line_1";
  value_date = 738000;
  amount_paise = pos 1960;
  narration = "neft 1234567890abcdef";
  bank_ref = none;
  is_credit = true;
}

-- A credit that only the IFSC code says is Razorpay's.
abbrev pub leg : String → ℕ → BankCreditLine
leg key amount = record {
  key = key;
  value_date = 738001;
  amount_paise = pos amount;
  narration = "ratn0000088";
  bank_ref = none;
  is_credit = true;
}

abbrev pub two_legs : List BankCreditLine
two_legs = leg "line_1" 900 ∷ leg "line_2" 1060 ∷ []

-- ===== src/Attribution/Splits.antt =====
-- engine/attribute.py: `reconstruct_splits`, which recovers the legs of a settlement that was paid out
-- in several bank credits. The lines come zipped with their attributions.
use untangle.Base.{
  ℕ, leb, ltb, ◌==◌, String, Bool, true, false, ◌&&◌, ◌||◌, not, none, some, List, [], ◌∷◌, ◌++◌,
  map, filter, flat_map, any, length, if◌then◌else◌,
}
use untangle.Base.Int.{ℤ, pos, abs, sum, ◌-ℤ◌, leb_ℤ, ltb_ℤ}
use untangle.Base.Keys.{Dict, ◌=?◌, lookup, insert, keys, add, contains, to_set, string_eq, int_eq}
use untangle.Base.Floats.{Floats, less}
use untangle.Models.{Tier, BankCreditLine, EvidenceItem, RailAttribution}
use untangle.Subsets.Combinations.{combinations}
use untangle.Subsets.Legacy.{same_set}
use untangle.Reconcile.Index.{or_else}
use untangle.Attribution.Texts.{concat}
use untangle.Attribution.Evidence.{ReconIndex}
use untangle.Attribution.Packs.{evaluate_non_rzp_signals}
use untangle.Attribution.Signals.{item, razorpay_signals}
use untangle.Attribution.Setsum.{dated_near, sort_sids}
use untangle.Attribution.Line.{Engine, LineOptions, is_empty, finalize_razorpay}

abbrev pub leaning_signals : List String
leaning_signals =
    "narration_brand_rzp" ∷ "ifsc_ratn" ∷ "settlement_ref" ∷ "utr_suffix" ∷ "utr_suffix_weak" ∷ []

abbrev pub strong_signals : List String
strong_signals = "ifsc_ratn" ∷ "utr_suffix" ∷ []

abbrev pub meets : List String → List String → Bool
meets xs ys = any (λ x. contains x ys) xs

abbrev pub split_drift : ℕ
split_drift = 100

abbrev pub split_pool : ℕ
split_pool = 60

abbrev pub keys_of : List BankCreditLine → List String
keys_of = map (λ c. c.key)

abbrev pub amount_of : List BankCreditLine → ℤ
amount_of combo = sum (map (λ c. c.amount_paise) combo)

-- `abs(sum(...) - target) <= tol`
abbrev pub sums_to : ℤ → ℕ → List BankCreditLine → Bool
sums_to target tol combo = leb (abs (amount_of combo -ℤ target)) tol

-- One combination of the loop of `_all_sum_subsets`.
abbrev pub keep_combo :
    ℤ → ℕ → List (List BankCreditLine) → List BankCreditLine → List (List BankCreditLine)
keep_combo target tol out combo =
    if sums_to target tol combo && not (any (λ c. same_set (keys_of c) (keys_of combo)) out)
    then out ++ combo ∷ []
    else out

unfoldable pub keep_combos :
    ℤ → ℕ → List (List BankCreditLine) → List (List BankCreditLine) → List (List BankCreditLine)
keep_combos target tol out [] = out
keep_combos target tol out (c ∷ cs) = keep_combos target tol (keep_combo target tol out c) cs

-- `_all_sum_subsets(items, target, tol, 3)`
unfoldable pub all_sum_subsets : List BankCreditLine → ℤ → ℕ → List (List BankCreditLine)
unfolding keep_combos
all_sum_subsets items target tol =
    keep_combos target tol [] (combinations 2 items ++ combinations 3 items)

-- A match: a settlement with the credits that add up to its net.
abbrev pub Match : Type 0
Match = String × List BankCreditLine

-- The candidates with their signals, and the matches with the poisoned credits.
pub record Candidates : Type 0 where
  pub lines : List BankCreditLine
  pub sig_by_key : Dict String (List String)

pub record FoundMatches : Type 0 where
  pub matches : List Match
  pub poisoned : List String

abbrev pub add_all_keys : List String → List String → List String
add_all_keys [] acc = acc
add_all_keys (k ∷ ks) acc = add_all_keys ks (add k acc)

module _ (ix : ReconIndex) where
  abbrev pub is_leg : String → ℤ → BankCreditLine → Bool
  is_leg sid net c = ltb_ℤ c.amount_paise net && dated_near ix c sid

  abbrev pub is_dated : String → Bool
  is_dated sid = elim (lookup sid ix.settlement_date) [ none ↦ false | some _ ↦ true ]

module _ (ix : ReconIndex) (cands : List BankCreditLine) where
  abbrev pub eligible_legs : String → ℤ → List BankCreditLine
  eligible_legs sid net = filter (is_leg ix sid net) cands

  -- A settlement that Phase 1 passes over, and one with too many credits to try.
  abbrev pub is_skipped : String → Bool
  is_skipped sid =
      let net = or_else (pos 0) (lookup sid ix.settlement_net) in
      (leb_ℤ net (pos 0) || not (is_dated ix sid)) || ltb (length (eligible_legs sid net)) 2

  abbrev pub is_oversized : String → Bool
  is_oversized sid =
      ltb split_pool (length (eligible_legs sid (or_else (pos 0) (lookup sid ix.settlement_net))))

  -- One settlement of Phase 1.
  unfoldable pub match_settlement : FoundMatches → String → FoundMatches
  unfolding all_sum_subsets
  match_settlement ms sid =
      let net = or_else (pos 0) (lookup sid ix.settlement_net) in
      let elig = eligible_legs sid net in
      if is_skipped sid
      then ms
      else if is_oversized sid
      then record ms { poisoned = add_all_keys (keys_of elig) ms.poisoned }
      else record ms {
        matches = ms.matches ++ map (λ sub. (sid, sub)) (all_sum_subsets elig net split_drift);
      }

  unfoldable pub match_all : FoundMatches → List String → FoundMatches
  unfolding match_settlement
  match_all ms [] = ms
  match_all ms (sid ∷ sids) = match_all (match_settlement ms sid) sids

-- `per_settlement[sid]` and `per_key[key]`
unfoldable pub per_settlement : String → List Match → ℕ
per_settlement sid ms = length (filter (λ m. m.0 =? sid) ms)

unfoldable pub per_key : String → List Match → ℕ
per_key key ms = length (filter (λ k. k =? key) (flat_map (λ m. keys_of m.1) ms))

-- What `assigned` holds of a leg.
pub record Assigned : Type 0 where
  pub sid : String
  pub legs : ℕ
  pub residual : ℤ

abbrev pub is_strong : Candidates → BankCreditLine → Bool
is_strong c leg = meets strong_signals (or_else [] (lookup leg.key c.sig_by_key))

abbrev pub is_free : FoundMatches → BankCreditLine → Bool
is_free ms leg = (per_key leg.key ms.matches == 1) && not (contains leg.key ms.poisoned)

-- The three tests of Phase 2.
abbrev pub is_unique : Candidates → FoundMatches → Match → Bool
is_unique c ms m =
    (per_settlement m.0 ms.matches == 1)
    && (not (any (λ leg. not (is_free ms leg)) m.1) && any (is_strong c) m.1)

module _ (ix : ReconIndex) (c : Candidates) (ms : FoundMatches) where
  abbrev pub assign_legs : Match → List BankCreditLine → Dict String Assigned → Dict String Assigned
  assign_legs m [] d = d
  assign_legs m (leg ∷ legs) d = assign_legs m legs (
      insert leg.key
        (record {
          sid = m.0;
          legs = length m.1;
          residual = amount_of m.1 -ℤ or_else (pos 0) (lookup m.0 ix.settlement_net);
        })
        d)

  unfoldable pub assign_all : Dict String Assigned → List Match → Dict String Assigned
  unfolding per_settlement per_key
  assign_all d [] = d
  assign_all d (m ∷ rest) = assign_all (if is_unique c ms m then assign_legs m m.1 d else d) rest

module _ {F : Type 0} ⦃fl : Floats F⦄ (e : Engine F) (ix : ReconIndex) where
  abbrev pub signals_of : BankCreditLine → List String
  signals_of line = to_set (map (λ s. s.signal) (razorpay_signals e.texts ix line e.pack))

  abbrev pub is_candidate : BankCreditLine × RailAttribution F → Bool
  is_candidate (line, a) =
      ((a.abstained && line.is_credit) && ltb_ℤ (pos 0) line.amount_paise)
      && (is_empty (evaluate_non_rzp_signals e.texts e.pack line)
          && meets leaning_signals (signals_of line))

  abbrev pub collect_step : Candidates → BankCreditLine × RailAttribution F → Candidates
  collect_step c (line, a) =
      if is_candidate (line, a)
      then record {
        lines = c.lines ++ line ∷ [];
        sig_by_key = insert line.key (signals_of line) c.sig_by_key;
      }
      else c

  unfoldable pub collect : Candidates → List (BankCreditLine × RailAttribution F) → Candidates
  unfolding razorpay_signals evaluate_non_rzp_signals
  collect c [] = c
  collect c (pair ∷ pairs) = collect (collect_step c pair) pairs

module _ {F : Type 0} ⦃fl : Floats F⦄ (e : Engine F) where
  abbrev pub balance : ℤ → String
  balance residual =
      if residual =? pos 0
      then "exactly"
      else concat ("within " ∷ e.texts.show (pos (abs residual)) ∷ " paise of" ∷ [])

  abbrev pub leg_evidence : Assigned → List (EvidenceItem F)
  leg_evidence a =
      item "split_reconstruction"
        (concat (
          "1 of "
          ∷ e.texts.show (pos a.legs)
          ∷ " bank legs whose amounts uniquely sum to "
          ∷ balance a.residual
          ∷ " the settlement net for "
          ∷ a.sid
          ∷ []))
        9000
      ∷ []

module _ {F : Type 0} ⦃fl : Floats F⦄ (e : Engine F) (o : LineOptions F) (ix : ReconIndex) where
  abbrev pub lift_leg : BankCreditLine → Assigned → RailAttribution F
  lift_leg line a =
      finalize_razorpay e o line (evaluate_non_rzp_signals e.texts e.pack line) (leg_evidence e a)
        (fl.decimal 9000) Tier.tier_c

  unfoldable pub lift_all :
      Dict String Assigned → List (BankCreditLine × RailAttribution F) → List (RailAttribution F)
  unfolding finalize_razorpay evaluate_non_rzp_signals
  lift_all d [] = []
  lift_all d ((line, a) ∷ pairs) =
      elim (lookup line.key d) [ none ↦ a | some g ↦ lift_leg line g ] ∷ lift_all d pairs

  abbrev pub attrs_of : List (BankCreditLine × RailAttribution F) → List (RailAttribution F)
  attrs_of pairs = map (λ p. p.1) pairs

  abbrev pub assignments : List (BankCreditLine × RailAttribution F) → Dict String Assigned
  assignments pairs =
      let c = collect e ix (record { lines = []; sig_by_key = [] }) pairs in
      let ms =
        match_all ix c.lines (record { matches = []; poisoned = [] })
          (sort_sids (keys ix.settlement_net)) in
      if ltb (length c.lines) 2 then [] else assign_all ix c ms [] ms.matches

  -- Where nothing is assigned, `lift_all` gives the attributions back, as the early returns do.
  unfoldable pub reconstruct_splits :
      List (BankCreditLine × RailAttribution F) → List (RailAttribution F)
  unfolding collect match_all assign_all lift_all sort_sids
  reconstruct_splits pairs =
      if less (fl.decimal 9000) o.threshold
      then attrs_of pairs
      else lift_all (assignments pairs) pairs

-- ===== src/Attribution/Combine.antt =====
-- engine/attribute.py: `_combine`, the score of a list of evidence.
use text.Mathlib.Text.{starts_with}
use untangle.Base.{String, not, none, some, List, [], ◌∷◌, ◌++◌, filter, if◌then◌else◌}
use untangle.Base.Keys.{Dict, lookup, insert, string_eq}
use untangle.Base.Floats.{Floats, same, max_float, min_float}
use untangle.Models.{EvidenceItem}
use untangle.Reconcile.Index.{or_else}

abbrev pub signal_channels : Dict String String
signal_channels =
    ("utr_exact", "identifier")
    ∷ ("utr_suffix", "identifier")
    ∷ ("utr_suffix_weak", "identifier")
    ∷ ("settlement_ref", "identifier")
    ∷ ("narration_brand_rzp", "narration")
    ∷ ("ifsc_ratn", "narration")
    ∷ ("amount_corr", "amount_time")
    ∷ ("amount_corr_multi", "amount_time")
    ∷ ("value_date_proximity", "amount_time")
    ∷ ("setsum", "amount_time")
    ∷ []

abbrev pub channel_of : String → String
channel_of signal = elim (lookup signal signal_channels) [
  | some ch ↦ ch
  | none ↦ if starts_with signal "narration_pattern:" then "narration" else signal
]

module _ {F : Type 0} ⦃fl : Floats F⦄ where
  abbrev pub zero_float : F
  zero_float = fl.decimal 0

  abbrev pub one_float : F
  one_float = fl.decimal 10000

  -- `max(0.0, min(1.0, w))`
  abbrev pub clip : F → F
  clip w = max_float zero_float (min_float one_float w)

  -- `by_channel`
  unfoldable pub by_channel : Dict String (List F) → List (EvidenceItem F) → Dict String (List F)
  by_channel d [] = d
  by_channel d (e ∷ es) =
      let ch = channel_of e.signal in
      by_channel (insert ch (or_else [] (lookup ch d) ++ clip e.weight ∷ []) d) es

  abbrev pub maximum : F → List F → F
  maximum m [] = m
  maximum m (w ∷ ws) = maximum (max_float m w) ws

  abbrev pub sum_floats : F → List F → F
  sum_floats acc [] = acc
  sum_floats acc (w ∷ ws) = sum_floats (fl.plus acc w) ws

  abbrev pub tenth : F → F
  tenth w = fl.times w (fl.decimal 1000)

  abbrev pub tenths : List F → List F
  tenths [] = []
  tenths (w ∷ ws) = tenth w ∷ tenths ws

  -- The weight of one channel: its greatest, and a tenth of each other one.
  abbrev pub channel_weight : List F → F
  channel_weight [] = zero_float
  channel_weight (w ∷ []) = w
  channel_weight (w ∷ v ∷ ws) =
      let m = maximum w (v ∷ ws) in
      min_float (fl.decimal 9800)
        (fl.plus m (sum_floats zero_float (tenths (filter (λ x. not (same x m)) (w ∷ v ∷ ws)))))

  unfoldable pub remaining_doubt : F → Dict String (List F) → F
  remaining_doubt acc [] = acc
  remaining_doubt acc ((_, weights) ∷ channels) =
      remaining_doubt (fl.times acc (fl.minus one_float (channel_weight weights))) channels

  unfoldable pub combine : List (EvidenceItem F) → F
  unfolding by_channel remaining_doubt
  combine [] = zero_float
  combine (e ∷ es) =
      min_float (fl.decimal 9900)
        (fl.minus one_float (remaining_doubt one_float (by_channel [] (e ∷ es))))

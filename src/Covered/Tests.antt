-- ===== src/Covered/Tests.antt =====
-- The theorems on row identity at concrete inputs.
use untangle.Base.{◌≡◌, refl, ◌↔◌, inl, inr, some, [], ◌∷◌}
use untangle.Base.Keys.{lookup, Nodup, string_eq, nat_eq}
use untangle.Base.Flow.{ok, err}
use untangle.Covered.{
  duplicate_row_ids, row_signature, signature_eq, canonical_row_ids, id_of, rows_by_canonical_id,
  resolve_covered_rows_by_id,
}
use untangle.Covered.Resolve.{Resolved, resolve_covered_rows_by_id_iff}
use untangle.Covered.Canonical.{rows_by_canonical_id-id_of}
use untangle.Fixtures.{
  payment, row_at, twins, covering, tallied, twins-CollisionFree, twins-Distinct,
}

covering_resolves :
    resolve_covered_rows_by_id covering (rows_by_canonical_id tallied twins) ≡ ok twins
unfolding resolve_covered_rows_by_id rows_by_canonical_id signature_eq row_signature
covering_resolves = refl

-- An id that is used twice is refused.
used_twice :
    resolve_covered_rows_by_id
      (record covering { covered_row_ids = "|" ∷ "|" ∷ [] })
      (rows_by_canonical_id tallied twins)
    ≡ err duplicate_row_ids
unfolding resolve_covered_rows_by_id rows_by_canonical_id signature_eq row_signature
used_twice = refl

resolve_covered_rows_by_id_iff_example :
    (resolve_covered_rows_by_id covering (rows_by_canonical_id tallied twins) ≡ ok twins) ↔ (
      Nodup covering.covered_row_ids
      × Resolved
          (rows_by_canonical_id tallied twins)
          covering.covered_row_ids
          covering.covered_entity_ids
          twins)
resolve_covered_rows_by_id_iff_example =
    resolve_covered_rows_by_id_iff covering (rows_by_canonical_id tallied twins) twins

rows_by_canonical_id-id_of_example :
    lookup
      (id_of (canonical_row_ids tallied twins) (row_at 2 (payment "pay_1" "setl_a")))
      (rows_by_canonical_id tallied twins)
    ≡ some (row_at 2 (payment "pay_1" "setl_a"))
rows_by_canonical_id-id_of_example =
    rows_by_canonical_id-id_of tallied twins (row_at 2 (payment "pay_1" "setl_a")) twins-Distinct
      twins-CollisionFree (inr (inl refl))

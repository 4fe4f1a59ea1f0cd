-- ===== src/Covered/Defs.antt =====
-- engine/covered.py. A row of a report is an object: `ident` is its `id(...)`.
use untangle.Base.{
  ℕ, suc, ◌≡◌, ap, ◌↔◌, String, Bool, true, not, Option, none, some, List, [], ◌∷◌, length, ◌==◌,
  if◌then◌else◌,
}
use untangle.Base.Int.{ℤ}
use untangle.Base.Keys.{
  Eq, ◌=?◌, Dict, lookup, insert, to_set, pair_eq, string_eq, int_eq, bool_eq, nat_eq, option_eq,
}
use untangle.Base.Flow.{Result, ok, err, ◌>>=◌}
use untangle.Models.{Datetime, datetime_eq, ReconRow, ReconciliationResult}

pub record Row : Type 0 where
  pub ident : ℕ
  pub row : ReconRow

-- The tuple of `_row_signature`. `isoformat` tells two naive datetimes apart exactly when they
-- differ, so the datetime itself stands for its text.
abbrev pub Fields : Type 0
Fields =
    String
    × (String
        × (ℤ
            × (ℤ
                × (ℤ
                    × (ℤ
                        × (ℤ
                            × (Option String
                                × (Option String
                                    × (Option Datetime
                                        × (Option Datetime
                                            × (Bool
                                                × (Option String
                                                    × (Option String
                                                        × (Option String
                                                            × Option String))))))))))))))

pub record Signature : Type 0 where
  pub fields : Fields

pub fields_eq : Eq Fields
fields_eq = pair_eq

pub signature_beq : Signature → Signature → Bool
unfolding fields_eq
signature_beq s t = fields_eq.beq s.fields t.fields

pub signature_beq_iff : (s t : Signature) → (signature_beq s t ≡ true) ↔ (s ≡ t)
unfolding signature_beq
signature_beq_iff s t = (
  λ h. ap (λ f. record { fields = f }) ((fields_eq.beq_iff s.fields t.fields).0 h),
  λ h. (fields_eq.beq_iff s.fields t.fields).1 (ap (λ (u : Signature). u.fields) h),
)

instance unfoldable pub signature_eq : Eq Signature
unfolding signature_beq
signature_eq = record { beq = signature_beq; beq_iff = signature_beq_iff }

unfoldable pub row_signature : ReconRow → Signature
row_signature r = record {
  fields = (
    r.kind,
    (
      r.entity_id,
      (
        r.amount_paise,
        (
          r.fee_paise,
          (
            r.tax_paise,
            (
              r.debit_paise,
              (
                r.credit_paise,
                (
                  r.settlement_id,
                  (
                    r.settlement_utr,
                    (
                      r.settled_at,
                      (
                        r.created_at,
                        (r.on_hold, (r.dispute_id, (r.order_id, (r.method, r.description)))),
                      ),
                    ),
                  ),
                ),
              ),
            ),
          ),
        ),
      ),
    ),
  );
}

abbrev pub or_zero : Option ℕ → ℕ
or_zero none = 0
or_zero (some n) = n

-- `seen[sig]` of a `defaultdict(int)`.
abbrev pub times_seen : Signature → Dict Signature ℕ → ℕ
times_seen sig seen = or_zero (lookup sig seen)

-- The text `f"row_{digest}_{occ}"`: `fingerprint sig occ`, with the digest of `hashlib` in it, is a
-- parameter of all that follows.
module _ (fingerprint : Signature → ℕ → String) where
  unfoldable pub canonical_ids_from : Dict Signature ℕ → Dict ℕ String → List Row → Dict ℕ String
  canonical_ids_from seen out [] = out
  canonical_ids_from seen out (r ∷ rs) =
      let sig = row_signature r.row in
      let occ = times_seen sig seen in
      canonical_ids_from (insert sig (suc occ) seen) (insert r.ident (fingerprint sig occ) out) rs

  unfoldable pub canonical_row_ids : List Row → Dict ℕ String
  unfolding canonical_ids_from
  canonical_row_ids = canonical_ids_from [] []

-- `ids[id(r)]`; every row of the report has an entry.
abbrev pub or_missing : Option String → String
or_missing none = ""
or_missing (some s) = s

abbrev pub id_of : Dict ℕ String → Row → String
id_of ids r = or_missing (lookup r.ident ids)

-- `{ids[id(r)]: r for r in recon_rows}`
unfoldable pub index_rows : Dict ℕ String → Dict String Row → List Row → Dict String Row
index_rows ids d [] = d
index_rows ids d (r ∷ rs) = index_rows ids (insert (id_of ids r) r d) rs

unfoldable pub rows_by_canonical_id : (Signature → ℕ → String) → List Row → Dict String Row
unfolding canonical_row_ids index_rows
rows_by_canonical_id fingerprint rows = index_rows (canonical_row_ids fingerprint rows) [] rows

-- The messages of the `ValueError`s of `resolve_covered_rows_by_id`.
pub data CoverageError : Type 0 where
  count_mismatch duplicate_row_ids row_missing identity_mismatch : CoverageError

-- `(row.type, row.entity_id)`
abbrev pub entity_key : Row → String × String
entity_key r = (r.row.kind, r.row.entity_id)

-- The loop over positions: the id and the covered entity of a position stand at the heads.
unfoldable pub resolve_rows :
    Dict String Row → List String → List (String × String) → Result CoverageError (List Row)
resolve_rows rows_by_id [] entities = ok []
resolve_rows rows_by_id (rid ∷ rids) [] = err count_mismatch
resolve_rows rows_by_id (rid ∷ rids) (expected ∷ entities) =
    let rest = resolve_rows rows_by_id rids entities in
    elim (lookup rid rows_by_id) [
      | none ↦ err row_missing
      | some row ↦
          if entity_key row =? expected
          then (do rows ← rest; ok (row ∷ rows))
          else err identity_mismatch
    ]

unfoldable pub resolve_covered_rows_by_id :
    ReconciliationResult → Dict String Row → Result CoverageError (List Row)
unfolding resolve_rows
resolve_covered_rows_by_id rec rows_by_id =
    if not (length rec.covered_row_ids == length rec.covered_entity_ids)
    then err count_mismatch
    else if not (length (to_set rec.covered_row_ids) == length rec.covered_row_ids)
    then err duplicate_row_ids
    else resolve_rows rows_by_id rec.covered_row_ids rec.covered_entity_ids

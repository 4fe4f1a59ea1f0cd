-- ===== src/Covered/Resolve.antt =====
-- `resolve_covered_rows_by_id` returns exactly when the four checks of its description hold.
use untangle.Base.{suc, ◌≡◌, refl, ap, ◌↔◌, String, some, List, [], ◌∷◌, length, arith}
use untangle.Base.Keys.{
  =?_eq, =?_refl, Dict, lookup, to_set, Nodup, Nodup-of_to_set, length-to_set, pair_eq, string_eq,
}
use untangle.Base.Flow.{ok}
use untangle.Models.{ReconciliationResult}
use untangle.Covered.Defs.{Row, entity_key, resolve_rows, resolve_covered_rows_by_id}

-- Position by position: the id is a key of the index, and the row under it is the covered entity's.
abbrev pub Resolved : Dict String Row → List String → List (String × String) → List Row → Type 0
Resolved d [] [] [] = Unit
Resolved d (rid ∷ rids) (e ∷ es) (r ∷ rs) =
    (lookup rid d ≡ some r) × (entity_key r ≡ e) × Resolved d rids es rs
Resolved d _ _ _ = ⊥

module _ (d : Dict String Row) where
  resolve_rows_sound :
      (rids : List String) (es : List (String × String)) (rows : List Row)
      → length rids ≡ length es
      → resolve_rows d rids es ≡ ok rows
      → Resolved d rids es rows
  unfolding resolve_rows
  resolve_rows_sound [] [] [] len h = tt
  resolve_rows_sound [] [] (r ∷ rs) len h = cc
  resolve_rows_sound [] (e ∷ es) rows len h = absurd (omega arith)
  resolve_rows_sound (rid ∷ rids) [] rows len h = absurd (omega arith)
  resolve_rows_sound (rid ∷ rids) (e ∷ es) [] len h = ground arith
  resolve_rows_sound (rid ∷ rids) (e ∷ es) (r ∷ rs) len h =
      ground (arith, resolve_rows_sound rids es rs, =?_eq (entity_key r) e)

  resolve_rows_complete :
      (rids : List String) (es : List (String × String)) (rows : List Row)
      → Resolved d rids es rows
      → resolve_rows d rids es ≡ ok rows
  unfolding resolve_rows
  resolve_rows_complete [] [] [] h = refl
  resolve_rows_complete [] [] (r ∷ rs) h = elim h [ ]
  resolve_rows_complete [] (e ∷ es) rows h = elim h [ ]
  resolve_rows_complete (rid ∷ rids) [] rows h = elim h [ ]
  resolve_rows_complete (rid ∷ rids) (e ∷ es) [] h = elim h [ ]
  resolve_rows_complete (rid ∷ rids) (e ∷ es) (r ∷ rs) h =
      ground (arith, =?_refl e, resolve_rows_complete rids es rs h.2)

Resolved-length :
    (d : Dict String Row) (rids : List String) (es : List (String × String)) (rows : List Row)
    → Resolved d rids es rows
    → length rids ≡ length es
Resolved-length d [] [] [] h = refl
Resolved-length d [] [] (r ∷ rs) h = elim h [ ]
Resolved-length d [] (e ∷ es) rows h = elim h [ ]
Resolved-length d (rid ∷ rids) [] rows h = elim h [ ]
Resolved-length d (rid ∷ rids) (e ∷ es) [] h = elim h [ ]
Resolved-length d (rid ∷ rids) (e ∷ es) (r ∷ rs) h = ap suc (Resolved-length d rids es rs h.2)

resolve-guards :
    (rec : ReconciliationResult) (d : Dict String Row) (rows : List Row)
    → resolve_covered_rows_by_id rec d ≡ ok rows
    → (length rec.covered_row_ids ≡ length rec.covered_entity_ids)
      × (length (to_set rec.covered_row_ids) ≡ length rec.covered_row_ids)
      × (resolve_rows d rec.covered_row_ids rec.covered_entity_ids ≡ ok rows)
unfolding resolve_covered_rows_by_id
resolve-guards rec d rows h = ground arith

resolve-of_guards :
    (rec : ReconciliationResult) (d : Dict String Row) (rows : List Row)
    → length rec.covered_row_ids ≡ length rec.covered_entity_ids
    → length (to_set rec.covered_row_ids) ≡ length rec.covered_row_ids
    → resolve_rows d rec.covered_row_ids rec.covered_entity_ids ≡ ok rows
    → resolve_covered_rows_by_id rec d ≡ ok rows
unfolding resolve_covered_rows_by_id
resolve-of_guards rec d rows len set_len loop = ground arith

-- The resolution returns rows exactly when no row id is used twice and, position by position, the id
-- is known and its row is that of the covered entity; it then returns those rows in that order.
pub resolve_covered_rows_by_id_iff :
    (rec : ReconciliationResult) (d : Dict String Row) (rows : List Row)
    → (resolve_covered_rows_by_id rec d ≡ ok rows)
      ↔ (Nodup rec.covered_row_ids × Resolved d rec.covered_row_ids rec.covered_entity_ids rows)
unfolding resolve_covered_rows_by_id
resolve_covered_rows_by_id_iff rec d rows = (
  λ h.
      let (len, set_len, loop) = resolve-guards rec d rows h in
      (Nodup-of_to_set rec.covered_row_ids set_len, resolve_rows_sound d _ _ rows len loop),
  λ (nodup, res).
      resolve-of_guards rec d rows (Resolved-length d _ _ rows res)
        (length-to_set rec.covered_row_ids nodup) (resolve_rows_complete d _ _ rows res),
)

-- ===== src/Covered/Canonical.antt =====
-- Canonical row ids: distinct rows get distinct ids, and the inverse view finds the row of an id.
use native.Mathlib.Nat.{le_refl, le_trans}
use untangle.Base.{
  ℕ, suc, ◌≤◌, ◌≡◌, refl, ap, sym, ◌∙◌, ◌≢◌, inl, inr, String, some, Bool-cases, List, [], ◌∷◌, In,
  if◌then◌else◌, arith,
}
use untangle.Base.Keys.{
  ◌=?◌, =?_eq, =?_refl, Dict, lookup, insert, lookup-insert, string_eq, nat_eq,
}
use untangle.Models.{datetime_eq}
use untangle.Covered.Defs.{
  Row, Signature, signature_eq, row_signature, or_zero, times_seen, canonical_ids_from,
  canonical_row_ids, id_of, or_missing, index_rows, rows_by_canonical_id,
}

abbrev sig : Row → Signature
sig r = row_signature r.row

-- The rows are different objects.
abbrev pub Distinct : List Row → Type 0
Distinct [] = Unit
Distinct (r ∷ rs) = ((q : Row) → In q rs → r.ident ≢ q.ident) × Distinct rs

-- No two of the rows' signatures share a digest, and the text keeps digest and occurrence apart.
abbrev pub CollisionFree : (Signature → ℕ → String) → List Row → Type 0
CollisionFree fingerprint rows =
    (r q : Row) (m n : ℕ)
    → In r rows
    → In q rows
    → fingerprint (row_signature r.row) m ≡ fingerprint (row_signature q.row) n
    → (row_signature r.row ≡ row_signature q.row) × (m ≡ n)

lookup-insert_self : (k : ℕ) (v : String) (d : Dict ℕ String) → lookup k (insert k v d) ≡ some v
lookup-insert_self k v d = rw (lookup-insert k k v d, =?_refl k)

lookup-insert_ne :
    (j k : ℕ) (v : String) (d : Dict ℕ String) → j ≢ k → lookup j (insert k v d) ≡ lookup j d
lookup-insert_ne j k v d h = ground (arith, lookup-insert j k v d)

times_seen-insert :
    (s t : Signature) (n : ℕ) (d : Dict Signature ℕ)
    → times_seen s (insert t n d) ≡ (if s =? t then n else times_seen s d)
times_seen-insert s t n d =
    ap or_zero (lookup-insert s t n d)
    ∙ elim (Bool-cases (s =? t)) [ inl e ↦ rw e refl | inr e ↦ rw e refl ]

times_seen_grows :
    (s t : Signature) (d : Dict Signature ℕ)
    → times_seen s d ≤ times_seen s (insert t (suc (times_seen t d)) d)
times_seen_grows s t d = elim (Bool-cases (s =? t)) [
  | inl e ↦
      let p : s ≡ t = =?_eq s t e in
      rw (times_seen-insert s t (suc (times_seen t d)) d, e, p) (omega arith)
  | inr e ↦ rw (times_seen-insert s t (suc (times_seen t d)) d, e) (omega arith)
]

-- The id of each row differs from the ids of the rows behind it.
abbrev pub DistinctIds : Dict ℕ String → List Row → Type 0
DistinctIds ids [] = Unit
DistinctIds ids (r ∷ rs) = ((q : Row) → In q rs → id_of ids r ≢ id_of ids q) × DistinctIds ids rs

module _ (fingerprint : Signature → ℕ → String) where
  canonical_ids-keeps :
      (seen : Dict Signature ℕ) (out : Dict ℕ String) (k : ℕ) (rs : List Row)
      → ((q : Row) → In q rs → k ≢ q.ident)
      → lookup k (canonical_ids_from fingerprint seen out rs) ≡ lookup k out
  unfolding canonical_ids_from
  canonical_ids-keeps seen out k [] h = refl
  canonical_ids-keeps seen out k (r ∷ rs) h =
      canonical_ids-keeps (insert (sig r) (suc (times_seen (sig r) seen)) seen)
        (insert r.ident (fingerprint (sig r) (times_seen (sig r) seen)) out) k rs
        (λ q m. h q (inr m))
      ∙ lookup-insert_ne k r.ident (fingerprint (sig r) (times_seen (sig r) seen)) out
          (h r (inl refl))

  -- The first row keeps the id that it is given at once.
  canonical_ids-first :
      (seen : Dict Signature ℕ) (out : Dict ℕ String) (r : Row) (rs : List Row)
      → Distinct (r ∷ rs)
      → id_of (canonical_ids_from fingerprint seen out (r ∷ rs)) r
        ≡ fingerprint (sig r) (times_seen (sig r) seen)
  unfolding canonical_ids_from
  canonical_ids-first seen out r rs d = ap or_missing (
      canonical_ids-keeps (insert (sig r) (suc (times_seen (sig r) seen)) seen)
        (insert r.ident (fingerprint (sig r) (times_seen (sig r) seen)) out) r.ident rs d.0
      ∙ lookup-insert_self r.ident (fingerprint (sig r) (times_seen (sig r) seen)) out)

  -- Every row is numbered at or above the times its signature was seen before.
  canonical_ids-number :
      (seen : Dict Signature ℕ) (out : Dict ℕ String) (rs : List Row) (q : Row)
      → Distinct rs
      → In q rs
      → (n : ℕ) × (times_seen (sig q) seen ≤ n)
        × (id_of (canonical_ids_from fingerprint seen out rs) q ≡ fingerprint (sig q) n)
  unfolding canonical_ids_from
  canonical_ids-number seen out [] q d m = elim m [ ]
  canonical_ids-number seen out (r ∷ rs) q d (inl e) =
      rw e (times_seen (sig r) seen, le_refl _, canonical_ids-first seen out r rs d)
  canonical_ids-number seen out (r ∷ rs) q d (inr m) =
      let (n, above, id) =
        canonical_ids-number (insert (sig r) (suc (times_seen (sig r) seen)) seen)
          (insert r.ident (fingerprint (sig r) (times_seen (sig r) seen)) out) rs q d.1 m in
      (n, le_trans (times_seen_grows (sig q) (sig r) seen) above, id)

  canonical_ids-DistinctIds :
      (rows : List Row) (free : CollisionFree fingerprint rows) (seen : Dict Signature ℕ)
      (out : Dict ℕ String) (rs : List Row)
      → ((q : Row) → In q rs → In q rows)
      → Distinct rs
      → DistinctIds (canonical_ids_from fingerprint seen out rs) rs
  unfolding canonical_ids_from
  canonical_ids-DistinctIds rows free seen out [] sub d = tt
  canonical_ids-DistinctIds rows free seen out (r ∷ rs) sub d = (
    λ q m same.
        let seen' = insert (sig r) (suc (times_seen (sig r) seen)) seen in
        let (n, above, id) =
          canonical_ids-number seen'
            (insert r.ident (fingerprint (sig r) (times_seen (sig r) seen)) out) rs q d.1 m in
        let (sigs, number) =
          free r q (times_seen (sig r) seen) n (sub r (inl refl)) (sub q (inr m))
            (sym (canonical_ids-first seen out r rs d) ∙ same ∙ id) in
        let step : times_seen (sig q) seen' ≡ suc (times_seen (sig r) seen) =
          times_seen-insert (sig q) (sig r) (suc (times_seen (sig r) seen)) seen
          ∙ rw (← sigs, =?_refl (sig r)) refl in
        absurd (omega arith),
    canonical_ids-DistinctIds rows free (insert (sig r) (suc (times_seen (sig r) seen)) seen)
        (insert r.ident (fingerprint (sig r) (times_seen (sig r) seen)) out) rs
        (λ q m. sub q (inr m)) d.1,
  )

lookup-insert_row :
    (j k : String) (v : Row) (d : Dict String Row)
    → lookup j (insert k v d) ≡ (if j =? k then some v else lookup j d)
lookup-insert_row j k v d = lookup-insert j k v d

index_rows-keeps :
    (ids : Dict ℕ String) (k : String) (rs : List Row) (d : Dict String Row)
    → ((q : Row) → In q rs → k ≢ id_of ids q)
    → lookup k (index_rows ids d rs) ≡ lookup k d
unfolding index_rows
index_rows-keeps ids k [] d h = refl
index_rows-keeps ids k (r ∷ rs) d h =
    index_rows-keeps ids k rs (insert (id_of ids r) r d) (λ q m. h q (inr m))
    ∙ elim (Bool-cases (k =? id_of ids r)) [
      | inl e ↦ absurd (h r (inl refl) (=?_eq k (id_of ids r) e))
      | inr e ↦ lookup-insert_row k (id_of ids r) r d ∙ rw e refl
    ]

index_rows-finds :
    (ids : Dict ℕ String) (rs : List Row) (d : Dict String Row) (q : Row)
    → DistinctIds ids rs
    → In q rs
    → lookup (id_of ids q) (index_rows ids d rs) ≡ some q
unfolding index_rows
index_rows-finds ids [] d q h m = elim m [ ]
index_rows-finds ids (r ∷ rs) d q h (inl e) = rw e (
    index_rows-keeps ids (id_of ids r) rs (insert (id_of ids r) r d) h.0
    ∙ lookup-insert_row (id_of ids r) (id_of ids r) r d
    ∙ rw (=?_refl (id_of ids r)) refl)
index_rows-finds ids (r ∷ rs) d q h (inr m) =
    index_rows-finds ids rs (insert (id_of ids r) r d) q h.1 m

-- For distinct row objects and digests that do not collide, the inverse view gives, under the
-- canonical id of a row of the report, that very row.
pub rows_by_canonical_id-id_of :
    (fingerprint : Signature → ℕ → String) (rows : List Row) (q : Row)
    → Distinct rows
    → CollisionFree fingerprint rows
    → In q rows
    → lookup (id_of (canonical_row_ids fingerprint rows) q) (rows_by_canonical_id fingerprint rows)
      ≡ some q
unfolding rows_by_canonical_id
rows_by_canonical_id-id_of fingerprint rows q d free m =
    index_rows-finds (canonical_row_ids fingerprint rows) rows [] q
      (canonical_ids-DistinctIds fingerprint rows free [] [] rows (λ r n. n) d) m

pub canonical_row_ids-DistinctIds :
    (fingerprint : Signature → ℕ → String) (rows : List Row)
    → Distinct rows
    → CollisionFree fingerprint rows
    → DistinctIds (canonical_row_ids fingerprint rows) rows
unfolding canonical_row_ids
canonical_row_ids-DistinctIds fingerprint rows d free =
    canonical_ids-DistinctIds fingerprint rows free [] [] rows (λ r n. n) d

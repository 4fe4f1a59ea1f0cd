-- ===== src/Ledger/Classes.antt =====
-- What the exceptions of the ledger check say: whom they name, and whom they must name.
use mathlib.Core.Path.{subst}
use mathlib.Core.Bool.{false≢true}
use untangle.Base.{
  ◌≡◌, refl, ap, sym, ◌∙◌, inl, inr, ◌⊎◌, ◌↔◌, String, Bool, true, false, some, Bool-cases,
  Option-cases, List, [], ◌∷◌, In, if◌then◌else◌, arith,
}
use untangle.Base.Keys.{add, pair_eq, string_eq}
use untangle.Base.Dicts.{In-add, In-of_add}
use untangle.Models.{ReconRow, ReconciliationResult}
use untangle.Ledger.Defs.{
  Key, rows_at, only, row_by_te, add_keys, covered_keys, covered_rows_of, order_of_row, is_payment,
  settled_ids,
}

pub if_true {ℓ} : {A : Type ℓ} (b : Bool) (x y : A) → b ≡ true → (if b then x else y) ≡ x
if_true b x y h = rw h refl

pub if_false {ℓ} : {A : Type ℓ} (b : Bool) (x y : A) → b ≡ false → (if b then x else y) ≡ y
if_false b x y h = rw h refl

In-add_keys : (k : Key) (ks acc : List Key) → In k (add_keys ks acc) ↔ (In k acc ⊎ In k ks)
In-add_keys k [] acc = (λ m. inl m, λ h. elim h [ inl m ↦ m | inr z ↦ absurd z ])
In-add_keys k (j ∷ js) acc = (
  λ m. elim ((In-add_keys k js (add j acc)).0 m) [
    | inl l ↦ elim (In-of_add k j acc l) [ inl old ↦ inl old | inr e ↦ inr (inl e) ]
    | inr r ↦ inr (inr r)
  ],
  λ h. (In-add_keys k js (add j acc)).1 (elim h [
    | inl l ↦ inl (In-add k j acc (inl l))
    | inr r ↦ elim r [ inl e ↦ inl (In-add k j acc (inr e)) | inr m ↦ inr m ]
  ]),
)

-- The key belongs to a reconciliation that balanced.
abbrev pub Covered : List ReconciliationResult → Key → Type 0
Covered recs k =
    (rec : ReconciliationResult) × In rec recs × (rec.balanced ≡ true) × In k rec.covered_entity_ids

Covered-cons :
    (rec : ReconciliationResult) (recs : List ReconciliationResult) (k : Key)
    → Covered recs k
    → Covered (rec ∷ recs) k
Covered-cons rec recs k (r, m, b, i) = (r, inr m, b, i)

pub covered_keys_iff :
    (k : Key) (acc : List Key) (recs : List ReconciliationResult)
    → In k (covered_keys acc recs) ↔ (In k acc ⊎ Covered recs k)
unfolding covered_keys
covered_keys_iff k acc [] = (λ m. inl m, λ h. elim h [ inl m ↦ m | inr (rec, m, b, i) ↦ absurd m ])
covered_keys_iff k acc (rec ∷ recs) = elim (Bool-cases rec.balanced) [
  | inl t ↦
      let next = add_keys rec.covered_entity_ids acc in
      let ih = covered_keys_iff k next recs in
      let here = In-add_keys k rec.covered_entity_ids acc in
      let same = ap (λ a. covered_keys a recs) (if_true rec.balanced next acc t) in
      (
        λ m. elim (ih.0 (subst (λ l. In k l) same m)) [
          | inl l ↦ elim (here.0 l) [ inl old ↦ inl old | inr n ↦ inr (rec, inl refl, t, n) ]
          | inr c ↦ inr (Covered-cons rec recs k c)
        ],
        λ h.
            subst (λ l. In k l) (sym same)
              (ih.1 (elim h [
                | inl old ↦ inl (here.1 (inl old))
                | inr (r, m, b, i) ↦ elim m [
                  | inl e ↦ inl (
                      here.1
                        (inr (subst (λ (q : ReconciliationResult). In k q.covered_entity_ids) e i)))
                  | inr n ↦ inr (r, n, b, i)
                ]
              ])),
      )
  | inr f ↦
      let ih = covered_keys_iff k acc recs in
      let same =
        ap (λ a. covered_keys a recs)
          (if_false rec.balanced (add_keys rec.covered_entity_ids acc) acc f) in
      (
        λ m. elim (ih.0 (subst (λ l. In k l) same m)) [
          | inl l ↦ inl l
          | inr c ↦ inr (Covered-cons rec recs k c)
        ],
        λ h.
            subst (λ l. In k l) (sym same)
              (ih.1 (elim h [
                | inl old ↦ inl old
                | inr (r, m, b, i) ↦ elim m [
                  | inl e ↦ absurd (
                      not_both rec.balanced f
                        (sym (ap (λ (q : ReconciliationResult). q.balanced) e) ∙ b))
                  | inr n ↦ inr (r, n, b, i)
                ]
              ])),
      )
]
  where
    not_both : (b : Bool) → b ≡ false → b ≡ true → ⊥
    not_both b f t = false≢true (sym f ∙ t)

only-some : (rows : List ReconRow) (r : ReconRow) → only rows ≡ some r → rows ≡ r ∷ []
only-some [] r h = cc
only-some (q ∷ []) r h = ground arith
only-some (p ∷ q ∷ rs) r h = cc

pub covered_rows_of_iff :
    (rows : List ReconRow) (ks : List Key) (r : ReconRow)
    → In r (covered_rows_of rows ks) ↔ ((k : Key) × In k ks × (rows_at k rows ≡ r ∷ []))
unfolding covered_rows_of row_by_te
covered_rows_of_iff rows [] r = (λ m. absurd m, λ (k, m, e). absurd m)
covered_rows_of_iff rows (k ∷ ks) r = elim (Option-cases (only (rows_at k rows))) [
  | inl e ↦
      rw (e, covered_rows_of, row_by_te)
        (
          λ m. let (j, n, q) = (covered_rows_of_iff rows ks r).0 m in (j, inr n, q),
          λ (j, m, q). elim m [
            | inl p ↦ cc (rw (← p, q) at e)
            | inr n ↦ (covered_rows_of_iff rows ks r).1 (j, n, q)
          ],
        )
  | inr (x, e) ↦
      rw (e, covered_rows_of, row_by_te)
        (
          λ m. elim m [
            | inl p ↦ (k, inl refl, rw p (only-some (rows_at k rows) x e))
            | inr n ↦ let (j, i, q) = (covered_rows_of_iff rows ks r).0 n in (j, inr i, q)
          ],
          λ (j, m, q). elim m [
            | inl p ↦ inl (same r x (ap only (rw p at q)) e)
            | inr n ↦ inr ((covered_rows_of_iff rows ks r).1 (j, n, q))
          ],
        )
]
  where
    same :
        (r x : ReconRow) → only (rows_at k rows) ≡ some r → only (rows_at k rows) ≡ some x → r ≡ x
    same r x p q = ground arith

-- `oid` is in a set that is filled with the orders of chosen rows.
pub settled_ids_iff :
    (oid : String) (acc : List String) (rs : List ReconRow)
    → In oid (settled_ids acc rs)
      ↔ (In oid acc ⊎ ((r : ReconRow) × In r rs × (is_payment r ≡ true) × (order_of_row r ≡ oid)))
unfolding settled_ids
settled_ids_iff oid acc [] = (λ m. inl m, λ h. elim h [ inl m ↦ m | inr (r, m, p, e) ↦ absurd m ])
settled_ids_iff oid acc (q ∷ qs) = elim (Bool-cases (is_payment q)) [
  | inl t ↦
      let ih = settled_ids_iff oid (add (order_of_row q) acc) qs in
      rw t (
        λ m. elim (ih.0 m) [
          | inl l ↦ elim (In-of_add oid (order_of_row q) acc l) [
            | inl old ↦ inl old
            | inr e ↦ inr (q, inl refl, t, sym e)
          ]
          | inr (r, n, p, e) ↦ inr (r, inr n, p, e)
        ],
        λ h. ih.1 (elim h [
          | inl old ↦ inl (In-add oid (order_of_row q) acc (inl old))
          | inr (r, m, p, e) ↦ elim m [
            | inl w ↦ inl (In-add oid (order_of_row q) acc (inr (sym e ∙ ap order_of_row w)))
            | inr n ↦ inr (r, n, p, e)
          ]
        ]),
      )
  | inr f ↦
      let ih = settled_ids_iff oid acc qs in
      rw f (
        λ m. elim (ih.0 m) [ inl l ↦ inl l | inr (r, n, p, e) ↦ inr (r, inr n, p, e) ],
        λ h. ih.1 (elim h [
          | inl old ↦ inl old
          | inr (r, m, p, e) ↦ elim m [ inl w ↦ cc (p, f, w) | inr n ↦ inr (r, n, p, e) ]
        ]),
      )
]

-- ===== src/Idempotency/Uniqueness.antt =====
-- The unique constraint of the table over a save, and what a save leaves alone.
use mathlib.Core.List.{append-nil}
use untangle.Base.{
  one_same, ℕ, ◌≤◌, ◌==◌, ◌≡◌, refl, ap, sym, ◌∙◌, inl, inr, String, Bool, true, false, not,
  Bool-cases, &&-left, &&-right, ◌⊎◌, none, Option-cases, List, [], ◌∷◌, ◌++◌, filter, length, In,
  In-filter, In-of_filter, find-In, none_chosen, arith,
}
use untangle.Base.Int.{ℤ, pos, leb_ℤ}
use untangle.Base.Keys.{◌=?◌, =?_refl, string_eq, int_eq}
use untangle.Base.Flow.{ok}
use untangle.Access.{TenantContext}
use untangle.Idempotency.{
  IdempotencyRecord, Request, has_slot, is_expired, scoped_record, drop_expired, new_record,
  insert_row, replay, insert_or_replay, save_idempotency_record,
}
use untangle.Idempotency.Replay.{with_key-ok, same_result}

module _ {A : Type 0} where
  abbrev pub AtMostOne : (A → Bool) → List A → Type 0
  AtMostOne p xs = length (filter p xs) ≤ 1

  pub AtMostOne-same :
      (p : A → Bool) (xs : List A) (a b : A)
      → AtMostOne p xs
      → In a xs
      → In b xs
      → p a ≡ true
      → p b ≡ true
      → a ≡ b
  AtMostOne-same p xs a b h m n s t =
      one_same (filter p xs) a b h (In-filter p a xs m s) (In-filter p b xs n t)

  -- A filter that keeps what the other wants changes nothing for it.
  filter_kept :
      (p q : A → Bool) (xs : List A)
      → ((x : A) → In x xs → p x ≡ true → q x ≡ true)
      → filter p (filter q xs) ≡ filter p xs
  filter_kept p q [] h = refl
  filter_kept p q (x ∷ xs) h =
      ground (arith, h x (inl refl), filter_kept p q xs (λ y m. h y (inr m)))

  AtMostOne-filter :
      (p q : A → Bool) (xs : List A) → length (filter p (filter q xs)) ≤ length (filter p xs)
  AtMostOne-filter p q [] = omega arith
  AtMostOne-filter p q (x ∷ xs) = ground (arith, AtMostOne-filter p q xs)

  filter-append : (p : A → Bool) (xs ys : List A) → filter p (xs ++ ys) ≡ filter p xs ++ filter p ys
  filter-append p [] ys = refl
  filter-append p (x ∷ xs) ys = ground (arith, filter-append p xs ys)

  filter_none : (p : A → Bool) (xs : List A) → ((x : A) → In x xs → p x ≡ false) → filter p xs ≡ []
  filter_none p [] h = refl
  filter_none p (x ∷ xs) h = ground (arith, h x (inl refl), filter_none p xs (λ y m. h y (inr m)))

  AtMostOne-snoc :
      (p : A → Bool) (xs : List A) (x : A)
      → (p x ≡ true → (y : A) → In y xs → p y ≡ false)
      → AtMostOne p xs
      → AtMostOne p (xs ++ x ∷ [])
  AtMostOne-snoc p xs x h once = elim (Bool-cases (p x)) [
    | inl t ↦ rw (filter-append p xs (x ∷ []), filter_none p xs (h t), t) (omega arith)
    | inr f ↦ rw (filter-append p xs (x ∷ []), f, append-nil (filter p xs)) once
  ]

abbrev pub has_id : {J : Type 0} → ℕ → IdempotencyRecord J → Bool
has_id i r = r.id == i

-- The primary key and the unique constraint: no id and no key of an organisation occurs twice.
pub record IsKeyed {J : Type 0} (table : List (IdempotencyRecord J)) : Type 0 where
  pub ids : (i : ℕ) → AtMostOne (has_id i) table
  pub slots : (organisation : ℤ) (key : String) → AtMostOne (has_slot organisation key) table

module _ {J : Type 0} (context : TenantContext) where
  -- The rows of another key or organisation stay when the expired record of this one is dropped.
  drop_expired-others :
      (key : String) (now : ℕ) (table : List (IdempotencyRecord J)) (p : IdempotencyRecord J → Bool)
      → IsKeyed table
      → ((r : IdempotencyRecord J) → has_slot context.organisation_id key r ≡ true → p r ≡ false)
      → filter p (drop_expired context key now table) ≡ filter p table
  unfolding drop_expired
  drop_expired-others key now table p keyed apart =
      elim (Option-cases (scoped_record context key table)) [
        | inl e ↦ rw (drop_expired, e) refl
        | inr (old, e) ↦ elim (Bool-cases (is_expired now old)) [
          | inl t ↦
              rw (drop_expired, e, t)
                (filter_kept p (λ r. not (r.id == old.id)) table
                  (λ r m s. elim (Bool-cases (r.id == old.id)) [
                    | inl same ↦
                        let (n, slot) =
                          find-In (has_slot context.organisation_id key) table old e in
                        let q : r ≡ old =
                          AtMostOne-same (has_id old.id) table r old (keyed.ids old.id) m n same
                            (ground arith) in
                        cc (rw q at s, apart old slot)
                    | inr f ↦ ap not f
                  ]))
          | inr f ↦ rw (drop_expired, e, f) refl
        ]
      ]

  drop_expired-IsKeyed :
      (key : String) (now : ℕ) (table : List (IdempotencyRecord J))
      → IsKeyed table
      → IsKeyed (drop_expired context key now table)
  unfolding drop_expired
  drop_expired-IsKeyed key now table keyed = elim (Option-cases (scoped_record context key table)) [
    | inl e ↦ rw (drop_expired, e) keyed
    | inr (old, e) ↦ elim (Bool-cases (is_expired now old)) [
      | inl t ↦
          let q : IdempotencyRecord J → Bool = λ r. not (r.id == old.id) in
          rw (drop_expired, e, t)
            (record {
              ids = λ i. omega (arith, AtMostOne-filter (has_id i) q table, keyed.ids i);
              slots =
                  λ o k. omega (arith, AtMostOne-filter (has_slot o k) q table, keyed.slots o k);
            })
      | inr f ↦ rw (drop_expired, e, f) keyed
    ]
  ]

  drop_expired-In :
      (key : String) (now : ℕ) (table : List (IdempotencyRecord J)) (r : IdempotencyRecord J)
      → In r (drop_expired context key now table)
      → In r table
  unfolding drop_expired
  drop_expired-In key now table r m = elim (Option-cases (scoped_record context key table)) [
    | inl e ↦ rw (drop_expired, e) at m
    | inr (old, e) ↦ elim (Bool-cases (is_expired now old)) [
      | inl t ↦ (In-of_filter (λ x. not (x.id == old.id)) r table (rw (drop_expired, e, t) at m)).0
      | inr f ↦ rw (drop_expired, e, f) at m
    ]
  ]

  -- What a successful save has done to the table after the expired record was dropped.
  Added : (q : Request J) (id now : ℕ) (table table' : List (IdempotencyRecord J)) → Type 0
  Added q id now table table' =
      (table' ≡ table)
      ⊎ ((scoped_record context q.idempotency_key table ≡ none)
          × (table' ≡ table ++ new_record context q id now ∷ []))

  insert_or_replay-Added :
      (admits : IdempotencyRecord J → Bool) (q : Request J) (id now : ℕ)
      (table table' : List (IdempotencyRecord J)) (r : IdempotencyRecord J)
      → insert_or_replay admits context q id now table ≡ ok (table', r)
      → Added q id now table table'
  unfolding insert_or_replay insert_row replay Added
  insert_or_replay-Added admits q id now table table' r e =
      elim (Option-cases (scoped_record context q.idempotency_key table)) [
        | inl none_there ↦ elim (Bool-cases (admits (new_record context q id now))) [
          | inl t ↦ inr (
            none_there,
            ap (λ x. x.0)
                (sym (same_result _ _ (rw (insert_or_replay, insert_row, none_there, t) at e))),
          )
          | inr f ↦ cc (rw (insert_or_replay, insert_row, none_there, f, replay, none_there) at e)
        ]
        | inr (winner, there) ↦ elim (Bool-cases (winner.request_hash =? q.request_hash)) [
          | inl t ↦ inl (
              ap (λ x. x.0)
                (sym (
                  same_result _ _
                    (rw (insert_or_replay, insert_row, there, replay, there, t) at e))))
          | inr f ↦ cc (rw (insert_or_replay, insert_row, there, replay, there, f) at e)
        ]
      ]

  Added-IsKeyed :
      (q : Request J) (id now : ℕ) (table table' : List (IdempotencyRecord J))
      → Added q id now table table'
      → ((r : IdempotencyRecord J) → In r table → has_id id r ≡ false)
      → IsKeyed table
      → IsKeyed table'
  unfolding Added
  Added-IsKeyed q id now table table' (inl e) fresh keyed = rw e keyed
  Added-IsKeyed q id now table table' (inr (free, e)) fresh keyed = rw e (record {
    ids = λ i.
        AtMostOne-snoc (has_id i) table (new_record context q id now)
          (λ t r m. ground (arith, fresh r m)) (keyed.ids i);
    slots = λ o k.
        AtMostOne-snoc (has_slot o k) table (new_record context q id now)
          (λ t r m.
            other_slot o k r t
              (none_chosen (has_slot context.organisation_id q.idempotency_key) table free r m))
          (keyed.slots o k);
  })
    where
      other_slot :
          (o : ℤ) (k : String) (r : IdempotencyRecord J)
          → has_slot o k (new_record context q id now) ≡ true
          → has_slot context.organisation_id q.idempotency_key r ≡ false
          → has_slot o k r ≡ false
      other_slot o k r t f =
          let organisation : context.organisation_id ≡ o =
            (int_eq.beq_iff context.organisation_id o).0
              (&&-left (context.organisation_id =? o) (q.idempotency_key =? k) t) in
          let text : q.idempotency_key ≡ k =
            (string_eq.beq_iff q.idempotency_key k).0
              (&&-right (context.organisation_id =? o) (q.idempotency_key =? k) t) in
          rw (← organisation, ← text) f

  Added-others :
      (q : Request J) (id now : ℕ) (table table' : List (IdempotencyRecord J))
      (p : IdempotencyRecord J → Bool)
      → Added q id now table table'
      → ((r : IdempotencyRecord J)
          → has_slot context.organisation_id q.idempotency_key r ≡ true
          → p r ≡ false)
      → filter p table' ≡ filter p table
  unfolding Added
  Added-others q id now table table' p (inl e) apart = ap (filter p) e
  Added-others q id now table table' p (inr (free, e)) apart =
      let mine : p (new_record context q id now) ≡ false =
        apart (new_record context q id now)
          (ground (arith, =?_refl context.organisation_id, =?_refl q.idempotency_key)) in
      rw
        (
          e,
          filter-append p table (new_record context q id now ∷ []),
          mine,
          append-nil (filter p table),
        )
        refl

  save-Added :
      (admits : IdempotencyRecord J → Bool) (q : Request J) (id now : ℕ)
      (table table' : List (IdempotencyRecord J)) (r : IdempotencyRecord J)
      → save_idempotency_record admits context q id now table ≡ ok (table', r)
      → Added q id now (drop_expired context q.idempotency_key now table) table'
  unfolding save_idempotency_record
  save-Added admits q id now table table' r e =
      let (inner, _) = with_key-ok {B = ℕ} q.idempotency_key _ (table', r) e in
      elim (Bool-cases (leb_ℤ q.ttl_hours (pos 0))) [
        | inl t ↦ cc (rw t at inner)
        | inr f ↦
            insert_or_replay-Added admits q id now
              (drop_expired context q.idempotency_key now table) table' r (rw f at inner)
      ]

  -- A save that returns keeps the ids and the keys of every organisation unique, if the id that the
  -- database draws is new.
  pub save_idempotency_record-IsKeyed :
      (admits : IdempotencyRecord J → Bool) (q : Request J) (id now : ℕ)
      (table table' : List (IdempotencyRecord J)) (r : IdempotencyRecord J)
      → save_idempotency_record admits context q id now table ≡ ok (table', r)
      → IsKeyed table
      → ((x : IdempotencyRecord J) → In x table → has_id id x ≡ false)
      → IsKeyed table'
  save_idempotency_record-IsKeyed admits q id now table table' r e keyed fresh =
      Added-IsKeyed q id now (drop_expired context q.idempotency_key now table) table'
        (save-Added admits q id now table table' r e)
        (λ x m. fresh x (drop_expired-In q.idempotency_key now table x m))
        (drop_expired-IsKeyed q.idempotency_key now table keyed)

  -- A save that returns leaves the rows of other keys and organisations as they are, and in their
  -- order: what a query selects that never selects this organisation's key is the same before and
  -- after. The table is one without a repeated id or key.
  pub save_keeps_others :
      (admits : IdempotencyRecord J → Bool) (q : Request J) (id now : ℕ)
      (table table' : List (IdempotencyRecord J)) (r : IdempotencyRecord J)
      (p : IdempotencyRecord J → Bool)
      → save_idempotency_record admits context q id now table ≡ ok (table', r)
      → IsKeyed table
      → ((x : IdempotencyRecord J)
          → has_slot context.organisation_id q.idempotency_key x ≡ true
          → p x ≡ false)
      → filter p table' ≡ filter p table
  save_keeps_others admits q id now table table' r p e keyed apart =
      Added-others q id now (drop_expired context q.idempotency_key now table) table' p
        (save-Added admits q id now table table' r e) apart
      ∙ drop_expired-others q.idempotency_key now table p keyed apart

-- ===== src/Idempotency/Outcome.antt =====
-- persistence/repositories/idempotency.py: the two ways in which `save_idempotency_record` returns.
use untangle.Base.{
  ℕ, ◌==◌, ◌≡◌, refl, ap, sym, ◌∙◌, inl, inr, String, Bool, true, false, not, Bool-cases, none,
  some, Option-cases, List, [], ◌∷◌, ◌++◌, filter, find, In, In-of_filter, find-In, none_chosen,
  if◌then◌else◌, arith,
}
use untangle.Base.Int.{pos, leb_ℤ}
use untangle.Base.Keys.{◌=?◌, =?_eq, string_eq, int_eq}
use untangle.Base.Flow.{Result, ok, err}
use untangle.Access.{TenantContext}
use untangle.Idempotency.{
  IdempotencyRecord, IdempotencyError, Request, has_slot, is_expired, scoped_record, drop_expired,
  delete_row, new_record, insert_row, replay, insert_or_replay, save_idempotency_record,
}
use untangle.Idempotency.Replay.{with_key-ok, same_result, replay_found, drop_expired-live}
use untangle.Idempotency.Uniqueness.{IsKeyed, AtMostOne-same, has_id}

module _ {A : Type 0} where
  filter_ext :
      (p q : A → Bool) (xs : List A) → ((x : A) → In x xs → p x ≡ q x) → filter p xs ≡ filter q xs
  filter_ext p q [] h = refl
  filter_ext p q (x ∷ xs) h = ground (arith, h x (inl refl), filter_ext p q xs (λ y m. h y (inr m)))

  filter_all : (p : A → Bool) (xs : List A) → ((x : A) → In x xs → p x ≡ true) → filter p xs ≡ xs
  filter_all p [] h = refl
  filter_all p (x ∷ xs) h = ground (arith, h x (inl refl), filter_all p xs (λ y m. h y (inr m)))

  find-none : (p : A → Bool) (xs : List A) → ((x : A) → In x xs → p x ≡ false) → find p xs ≡ none
  unfolding find
  find-none p [] h = refl
  find-none p (x ∷ xs) h = ground (arith, h x (inl refl), find-none p xs (λ y m. h y (inr m)))

module _ {J : Type 0} (context : TenantContext) where
  -- The rows of the table that do not have the slot of this key.
  abbrev pub other_rows : String → List (IdempotencyRecord J) → List (IdempotencyRecord J)
  other_rows key = filter (λ r. not (has_slot context.organisation_id key r))

  -- The save replays a live record of the key, or it replaces what is expired by a new record.
  pub data Outcome (q : Request J) (id now : ℕ) (table table' : List (IdempotencyRecord J))
      (r : IdempotencyRecord J) : Type 0 where
    replayed :
        In r table
        → has_slot context.organisation_id q.idempotency_key r ≡ true
        → is_expired now r ≡ false
        → r.request_hash ≡ q.request_hash
        → table' ≡ table
        → Outcome q id now table table' r
    stored :
        r ≡ new_record context q id now
        → ((x : IdempotencyRecord J)
            → In x table
            → has_slot context.organisation_id q.idempotency_key x ≡ true
            → is_expired now x ≡ true)
        → table' ≡ other_rows q.idempotency_key table ++ r ∷ []
        → Outcome q id now table table' r

  -- Where no row has the slot, a save that returns appends its record.
  insert_new :
      (admits : IdempotencyRecord J → Bool) (q : Request J) (id now : ℕ)
      (table table' : List (IdempotencyRecord J)) (r : IdempotencyRecord J)
      → scoped_record context q.idempotency_key table ≡ none
      → insert_or_replay admits context q id now table ≡ ok (table', r)
      → (table' ≡ table ++ r ∷ []) × (r ≡ new_record context q id now)
  unfolding insert_or_replay insert_row replay
  insert_new admits q id now table table' r free e =
      elim (Bool-cases (admits (new_record context q id now))) [
        | inr f ↦ cc (rw (insert_or_replay, insert_row, free, f, replay, free) at e)
        | inl t ↦
            let same = sym (same_result _ _ (rw (insert_or_replay, insert_row, free, t) at e)) in
            let mine : r ≡ new_record context q id now = ap (λ x. x.1) same in
            (rw mine (ap (λ x. x.0) same), mine)
      ]

  -- In a table with unique keys and ids, deleting the record of a key leaves the other rows.
  delete_row-others :
      (key : String) (table : List (IdempotencyRecord J)) (old : IdempotencyRecord J)
      → IsKeyed table
      → scoped_record context key table ≡ some old
      → delete_row old table ≡ other_rows key table
  delete_row-others key table old keyed e =
      filter_ext (λ r. not (r.id == old.id)) (λ r. not (has_slot context.organisation_id key r))
        table
        (λ r m. elim (Bool-cases (r.id == old.id)) [
          | inl same ↦
              let q : r ≡ old =
                AtMostOne-same (has_id old.id) table r old (keyed.ids old.id) m found.0 same
                  (ground arith) in
              rw (same, q, found.1) refl
          | inr f ↦ elim (Bool-cases (has_slot context.organisation_id key r)) [
            | inr g ↦ rw (f, g) refl
            | inl slot ↦
                let q : r ≡ old =
                  AtMostOne-same (has_slot context.organisation_id key) table r old
                    (keyed.slots context.organisation_id key) m found.0 slot found.1 in
                absurd (ground (arith, f, ap (λ (x : IdempotencyRecord J). x.id) q))
          ]
        ])
    where
      found : In old table × (has_slot context.organisation_id key old ≡ true)
      found = find-In (has_slot context.organisation_id key) table old e

  other_rows-free :
      (key : String) (table : List (IdempotencyRecord J))
      → scoped_record context key (other_rows key table) ≡ none
  other_rows-free key table =
      find-none (has_slot context.organisation_id key) (other_rows key table) (λ x m.
        let (_, h) = In-of_filter (λ r. not (has_slot context.organisation_id key r)) x table m in
        ground arith)

  save-insert :
      (admits : IdempotencyRecord J → Bool) (q : Request J) (id now : ℕ)
      (table table' : List (IdempotencyRecord J)) (r : IdempotencyRecord J)
      → save_idempotency_record admits context q id now table ≡ ok (table', r)
      → insert_or_replay admits context q id now (drop_expired context q.idempotency_key now table)
        ≡ ok (table', r)
  unfolding save_idempotency_record
  save-insert admits q id now table table' r e =
      let (inner, _) = with_key-ok {B = ℕ} q.idempotency_key _ (table', r) e in
      elim (Bool-cases (leb_ℤ q.ttl_hours (pos 0))) [
        | inl t ↦ cc (rw t at inner)
        | inr f ↦ rw f at inner
      ]

  -- A save that returns does one of two things, in a table without a repeated id or key. Either its
  -- record is one of the table, under the key and organisation of the request, that has not expired and
  -- has the request's hash, and the table stays as it is; or its record is the new one of the request,
  -- every row of the table under that key and organisation has expired, and the table becomes its other
  -- rows, in their order, with the new record behind them.
  pub save-Outcome :
      (admits : IdempotencyRecord J → Bool) (q : Request J) (id now : ℕ)
      (table table' : List (IdempotencyRecord J)) (r : IdempotencyRecord J)
      → save_idempotency_record admits context q id now table ≡ ok (table', r)
      → IsKeyed table
      → Outcome q id now table table' r
  unfolding drop_expired
  save-Outcome admits q id now table table' r e keyed =
      let mine = has_slot context.organisation_id q.idempotency_key in
      let inner = save-insert admits q id now table table' r e in
      elim (Option-cases (scoped_record context q.idempotency_key table)) [
        | inl free ↦
            let none_there = none_chosen mine table free in
            let (same, new) =
              insert_new admits q id now table table' r free (rw (drop_expired, free) at inner) in
            let kept : other_rows q.idempotency_key table ≡ table =
              filter_all _ table (λ x m. ap not (none_there x m)) in
            stored new (λ x m slot. cc (none_there x m)) (rw kept same)
        | inr (old, there) ↦
            let (listed, slot) = find-In mine table old there in
            elim (Bool-cases (is_expired now old)) [
              | inl t ↦
                  let others = delete_row-others q.idempotency_key table old keyed there in
                  let (same, new) =
                    insert_new admits q id now (other_rows q.idempotency_key table) table' r
                      (other_rows-free q.idempotency_key table)
                      (rw (drop_expired, there, t, others) at inner) in
                  stored new
                    (λ x m s.
                      rw
                        (AtMostOne-same mine table x old
                          (keyed.slots context.organisation_id q.idempotency_key) m listed s slot)
                        t)
                    same
              | inr f ↦
                  let live =
                    rw (drop_expired-live context q.idempotency_key now table old there f) at
                      inner in
                  live_outcome old listed slot f
                    (sym (replay_found context admits q id now table old there) ∙ live)
            ]
      ]
    where
      live_outcome :
          (old : IdempotencyRecord J)
          → In old table
          → has_slot context.organisation_id q.idempotency_key old ≡ true
          → is_expired now old ≡ false
          → ◌≡◌ {A = Result IdempotencyError (List (IdempotencyRecord J) × IdempotencyRecord J)}
              (if old.request_hash =? q.request_hash
                then ok (table, old)
                else err IdempotencyError.collision)
              (ok (table', r))
          → Outcome q id now table table' r
      live_outcome old listed slot f h = elim (Bool-cases (old.request_hash =? q.request_hash)) [
        | inr g ↦ cc (rw g at h)
        | inl g ↦
            let same = sym (same_result _ _ (rw g at h)) in
            let mine : r ≡ old = ap (λ x. x.1) same in
            rw mine (
              replayed listed slot f (=?_eq old.request_hash q.request_hash g) (ap (λ x. x.0) same))
      ]

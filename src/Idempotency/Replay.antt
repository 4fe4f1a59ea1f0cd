-- ===== src/Idempotency/Replay.antt =====
-- What a saved record promises: it is found again, and a repeated request gets its answer.
use Prim.Native.String.{count}
use untangle.Base.{
  ℕ, ◌≤◌, ltb, ◌≡◌, refl, ap, sym, ◌∙◌, inl, inr, String, Bool, false, Bool-cases, Option, none,
  some, Option-cases, List, [], ◌∷◌, ◌++◌, find-append, if◌then◌else◌, arith,
}
use untangle.Base.Int.{pos, leb_ℤ}
use untangle.Base.Keys.{◌=?◌, =?_refl, string_eq, int_eq}
use untangle.Base.Flow.{Result, ok, err}
use untangle.Access.{TenantContext}
use untangle.Idempotency.{
  IdempotencyRecord, IdempotencyError, Request, with_key, has_slot, is_expired, scoped_record,
  unexpired, get_idempotency_record, drop_expired, new_record, insert_row, replay, insert_or_replay,
  save_idempotency_record,
}

-- A key that passes its tests for one computation passes them for every other.
pub with_key-ok :
    {A B : Type 0} (key : String) (x : Result IdempotencyError A) (a : A)
    → with_key key x ≡ ok a
    → (x ≡ ok a) × ((y : Result IdempotencyError B) → with_key key y ≡ y)
unfolding with_key
with_key-ok key x a e = elim (Bool-cases (key =? "")) [
  | inl t ↦ cc (rw t at e)
  | inr f ↦ elim (Bool-cases (ltb 64 (count key))) [
    | inl t ↦ cc (rw (f, t) at e)
    | inr g ↦ (rw (f, g) at e, λ y. rw (f, g) refl)
  ]
]

pub same_result : {A : Type 0} (a b : A) → ◌≡◌ {A = Result IdempotencyError A} (ok a) (ok b) → a ≡ b
same_result a b e = ground arith

module _ {J : Type 0} (context : TenantContext) where
  unexpired-some :
      (now : ℕ) (found : Option (IdempotencyRecord J)) (r : IdempotencyRecord J)
      → unexpired now found ≡ some r
      → (found ≡ some r) × (is_expired now r ≡ false)
  unexpired-some now none r e = cc
  unexpired-some now (some x) r e = elim (Bool-cases (is_expired now x)) [
    | inl t ↦ cc (rw t at e)
    | inr f ↦ let q : some x ≡ some r = rw f at e in (q, ground (arith, f, q))
  ]

  get-some :
      (key : String) (now : ℕ) (table : List (IdempotencyRecord J)) (r : IdempotencyRecord J)
      → get_idempotency_record context key now table ≡ ok (some r)
      → (scoped_record context key table ≡ some r) × (is_expired now r ≡ false)
  unfolding get_idempotency_record
  get-some key now table r e =
      let (q, _) =
        with_key-ok {B = ℕ} key (ok (unexpired now (scoped_record context key table))) (some r) e in
      unexpired-some now (scoped_record context key table) r (ground (arith, q))

  get_again :
      {B : Type 0} (key : String) (x : Result IdempotencyError B) (b : B) (now : ℕ)
      (table : List (IdempotencyRecord J)) (r : IdempotencyRecord J)
      → with_key key x ≡ ok b
      → scoped_record context key table ≡ some r
      → now ≤ r.expires_at
      → get_idempotency_record context key now table ≡ ok (some r)
  unfolding get_idempotency_record
  get_again key x b now table r e found h =
      let alive : is_expired now r ≡ false = ground arith in
      (with_key-ok key x b e).1 _ ∙ rw (found, alive) refl

  pub drop_expired-live :
      (key : String) (now : ℕ) (table : List (IdempotencyRecord J)) (old : IdempotencyRecord J)
      → scoped_record context key table ≡ some old
      → is_expired now old ≡ false
      → drop_expired context key now table ≡ table
  unfolding drop_expired
  drop_expired-live key now table old found alive = rw (drop_expired, found, alive) refl

  pub replay_found :
      (admits : IdempotencyRecord J → Bool) (q : Request J) (id now : ℕ)
      (table : List (IdempotencyRecord J)) (old : IdempotencyRecord J)
      → scoped_record context q.idempotency_key table ≡ some old
      → insert_or_replay admits context q id now table ≡ (
          if old.request_hash =? q.request_hash
          then ok (table, old)
          else err IdempotencyError.collision)
  unfolding insert_or_replay insert_row replay
  replay_found admits q id now table old found =
      rw (insert_or_replay, insert_row, found, replay, found) refl

  -- A key that is in use by a live record: a request with a time to live above zero and the same hash
  -- gets that record and leaves the table as it is, and one with another hash is refused as a
  -- collision.
  pub live_key_replays :
      (admits : IdempotencyRecord J → Bool) (q : Request J) (id now : ℕ)
      (table : List (IdempotencyRecord J)) (old : IdempotencyRecord J)
      → get_idempotency_record context q.idempotency_key now table ≡ ok (some old)
      → leb_ℤ q.ttl_hours (pos 0) ≡ false
      → save_idempotency_record admits context q id now table ≡ (
          if old.request_hash =? q.request_hash
          then ok (table, old)
          else err IdempotencyError.collision)
  unfolding save_idempotency_record get_idempotency_record
  live_key_replays admits q id now table old e ttl =
      let (found, alive) = get-some q.idempotency_key now table old e in
      (with_key-ok q.idempotency_key _ (some old) e).1 _
      ∙ rw (ttl, drop_expired-live q.idempotency_key now table old found alive)
          (replay_found admits q id now table old found)

  inserted_found :
      (admits : IdempotencyRecord J → Bool) (q : Request J) (id now : ℕ)
      (table table' : List (IdempotencyRecord J)) (r : IdempotencyRecord J)
      → insert_or_replay admits context q id now table ≡ ok (table', r)
      → scoped_record context q.idempotency_key table' ≡ some r
  unfolding insert_or_replay insert_row replay
  inserted_found admits q id now table table' r e =
      elim (Option-cases (scoped_record context q.idempotency_key table)) [
        | inl none_there ↦ elim (Bool-cases (admits (new_record context q id now))) [
          | inl t ↦
              let p : (table ++ new_record context q id now ∷ [], new_record context q id now)
                  ≡ (table', r) =
                same_result _ _ (rw (insert_or_replay, insert_row, none_there, t) at e) in
              ap (λ x. scoped_record context q.idempotency_key x.0) (sym p)
              ∙ (find-append (has_slot context.organisation_id q.idempotency_key) table _ none_there
                    (ground (arith, =?_refl context.organisation_id, =?_refl q.idempotency_key))
                  ∙ ap (λ x. some x.1) p)
          | inr f ↦ cc (rw (insert_or_replay, insert_row, none_there, f, replay, none_there) at e)
        ]
        | inr (winner, there) ↦ elim (Bool-cases (winner.request_hash =? q.request_hash)) [
          | inl t ↦
              let p : (table, winner) ≡ (table', r) =
                same_result _ _ (rw (insert_or_replay, insert_row, there, replay, there, t) at e) in
              ap (λ x. scoped_record context q.idempotency_key x.0) (sym p)
              ∙ (there ∙ ap (λ x. some x.1) p)
          | inr f ↦ cc (rw (insert_or_replay, insert_row, there, replay, there, f) at e)
        ]
      ]

  -- After a save has returned a record, a lookup of the key finds that record until it expires.
  pub saved_key_found :
      (admits : IdempotencyRecord J → Bool) (q : Request J) (id now later : ℕ)
      (table table' : List (IdempotencyRecord J)) (r : IdempotencyRecord J)
      → save_idempotency_record admits context q id now table ≡ ok (table', r)
      → later ≤ r.expires_at
      → get_idempotency_record context q.idempotency_key later table' ≡ ok (some r)
  unfolding save_idempotency_record
  saved_key_found admits q id now later table table' r e h =
      let (inner, _) = with_key-ok {B = ℕ} q.idempotency_key _ (table', r) e in
      elim (Bool-cases (leb_ℤ q.ttl_hours (pos 0))) [
        | inl t ↦ cc (rw t at inner)
        | inr f ↦
            get_again q.idempotency_key _ (table', r) later table' r e
              (inserted_found admits q id now (drop_expired context q.idempotency_key now table)
                table' r (rw f at inner))
              h
      ]

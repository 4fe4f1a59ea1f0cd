-- ===== src/Idempotency.antt =====
-- persistence/repositories/idempotency.py: the records that let a repeated request be answered again.
-- The table is a list of rows. An instant is a number of seconds; the answer's JSON is a type `J`. The
-- constraints of the table other than that of a unique key (the form of the hash, the foreign keys)
-- are a parameter `admits`. A function that raises leaves its transaction to be rolled back.
use Prim.Native.String.{count}
use untangle.Base.{
  ℕ, ◌+◌, ◌*◌, ltb, ◌==◌, String, Bool, true, false, ◌&&◌, not, Option, none, some, List, [], ◌∷◌,
  ◌++◌, filter, find, if◌then◌else◌,
}
use untangle.Base.Int.{ℤ, pos, leb_ℤ}
use untangle.Base.Keys.{◌=?◌, string_eq, int_eq}
use untangle.Base.Flow.{Result, ok, err}
use untangle.Access.{TenantContext}
pub mod Outcome
pub mod Replay
pub mod Uniqueness
mod Tests

pub record IdempotencyRecord (J : Type 0) : Type 0 where
  pub id : ℕ
  pub organisation_id : ℤ
  pub idempotency_key : String
  pub request_hash : String
  pub job_id : ℕ
  pub run_id : ℕ
  pub response_status_code : ℤ
  pub response_json : J
  pub created_at : ℕ
  pub expires_at : ℕ

pub data IdempotencyError : Type 0 where
  empty_key long_key bad_ttl collision integrity : IdempotencyError

-- The arguments of a save besides the session and the context.
pub record Request (J : Type 0) : Type 0 where
  pub idempotency_key : String
  pub request_hash : String
  pub job_id : ℕ
  pub run_id : ℕ
  pub response_status_code : ℤ
  pub response_json : J
  pub ttl_hours : ℤ

abbrev pub hour : ℕ
hour = 3600

-- The tests of a key that both functions begin with.
unfoldable pub with_key {ℓ} :
    {A : Type ℓ} → String → Result IdempotencyError A → Result IdempotencyError A
with_key key rest =
    if key =? "" then err empty_key else if ltb 64 (count key) then err long_key else rest

-- A positive number of hours, in seconds.
abbrev pub ttl_seconds : ℤ → ℕ
ttl_seconds (pos n) = n * hour
ttl_seconds _ = 0

module _ {J : Type 0} where
  -- The WHERE clause on the organisation and the key.
  abbrev pub has_slot : ℤ → String → IdempotencyRecord J → Bool
  has_slot organisation key r = (r.organisation_id =? organisation) && (r.idempotency_key =? key)

  abbrev pub is_expired : ℕ → IdempotencyRecord J → Bool
  is_expired now r = ltb r.expires_at now

  abbrev pub scoped_record :
      TenantContext → String → List (IdempotencyRecord J) → Option (IdempotencyRecord J)
  scoped_record context key table = find (has_slot context.organisation_id key) table

  -- The record that was found, unless it has expired.
  abbrev pub unexpired : ℕ → Option (IdempotencyRecord J) → Option (IdempotencyRecord J)
  unexpired now none = none
  unexpired now (some r) = if is_expired now r then none else some r

  unfoldable pub get_idempotency_record :
      TenantContext
      → String
      → ℕ
      → List (IdempotencyRecord J)
      → Result IdempotencyError (Option (IdempotencyRecord J))
  get_idempotency_record context key now table =
      with_key key (ok (unexpired now (scoped_record context key table)))

  abbrev pub delete_row :
      IdempotencyRecord J → List (IdempotencyRecord J) → List (IdempotencyRecord J)
  delete_row old table = filter (λ r. not (r.id == old.id)) table

  -- `session.delete(old)` for an old record that has expired.
  unfoldable pub drop_expired :
      TenantContext → String → ℕ → List (IdempotencyRecord J) → List (IdempotencyRecord J)
  drop_expired context key now table = elim (scoped_record context key table) [
    | none ↦ table
    | some old ↦ if is_expired now old then delete_row old table else table
  ]

  abbrev pub new_record : TenantContext → Request J → (id now : ℕ) → IdempotencyRecord J
  new_record context q id now = record {
    id = id;
    organisation_id = context.organisation_id;
    idempotency_key = q.idempotency_key;
    request_hash = q.request_hash;
    job_id = q.job_id;
    run_id = q.run_id;
    response_status_code = q.response_status_code;
    response_json = q.response_json;
    created_at = now;
    expires_at = now + ttl_seconds q.ttl_hours;
  }

  abbrev pub is_some : Option (IdempotencyRecord J) → Bool
  is_some none = false
  is_some (some _) = true

  -- The INSERT in its savepoint: nothing when a constraint of the table refuses the row.
  unfoldable pub insert_row :
      (IdempotencyRecord J → Bool)
      → IdempotencyRecord J
      → List (IdempotencyRecord J)
      → Option (List (IdempotencyRecord J))
  insert_row admits r table =
      if is_some (find (has_slot r.organisation_id r.idempotency_key) table)
      then none
      else if admits r
      then some (table ++ r ∷ [])
      else none

  -- The handler of the IntegrityError.
  unfoldable pub replay :
      TenantContext
      → Request J
      → List (IdempotencyRecord J)
      → Result IdempotencyError (List (IdempotencyRecord J) × IdempotencyRecord J)
  replay context q table = elim (scoped_record context q.idempotency_key table) [
    | none ↦ err integrity
    | some winner ↦
        if winner.request_hash =? q.request_hash then ok (table, winner) else err collision
  ]

  unfoldable pub insert_or_replay :
      (IdempotencyRecord J → Bool)
      → TenantContext
      → Request J
      → (id now : ℕ) → List (IdempotencyRecord J)
      → Result IdempotencyError (List (IdempotencyRecord J) × IdempotencyRecord J)
  unfolding insert_row replay
  insert_or_replay admits context q id now table =
      let rec = new_record context q id now in
      elim (insert_row admits rec table) [
        | none ↦ replay context q table
        | some table' ↦ ok (table', rec)
      ]

  -- `id` is the number that the database gives to the row.
  unfoldable pub save_idempotency_record :
      (IdempotencyRecord J → Bool)
      → TenantContext
      → Request J
      → (id now : ℕ) → List (IdempotencyRecord J)
      → Result IdempotencyError (List (IdempotencyRecord J) × IdempotencyRecord J)
  unfolding drop_expired insert_or_replay
  save_idempotency_record admits context q id now table = with_key q.idempotency_key (
      if leb_ℤ q.ttl_hours (pos 0)
      then err bad_ttl
      else insert_or_replay admits context q id now
          (drop_expired context q.idempotency_key now table))

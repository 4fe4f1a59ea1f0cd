-- ===== src/Idempotency/Tests.antt =====
-- The idempotency records at one request that is repeated.
use untangle.Base.{
  ap, &&-left, false, ℕ, ◌≡◌, refl, String, Bool, true, none, some, [], ◌∷◌, find, arith,
}
use untangle.Base.Int.{pos}
use untangle.Base.Keys.{◌=?◌, string_eq, int_eq}
use untangle.Base.Flow.{ok, err}
use untangle.Access.{TenantContext, Role}
use untangle.Idempotency.{
  IdempotencyRecord, IdempotencyError, Request, has_slot, with_key, new_record,
  get_idempotency_record, drop_expired, insert_row, insert_or_replay, save_idempotency_record,
}
use untangle.Idempotency.Uniqueness.{IsKeyed, save_idempotency_record-IsKeyed}
use untangle.Idempotency.Outcome.{Outcome, save-Outcome}
use untangle.Idempotency.Replay.{live_key_replays, saved_key_found}

abbrev context : TenantContext
context = record {
  organisation_id = pos 1;
  principal_id = pos 2;
  role = Role.owner;
  request_id = "r";
}

abbrev request : String → Request ℕ
request hash = record {
  idempotency_key = "k1";
  request_hash = hash;
  job_id = 1;
  run_id = 1;
  response_status_code = pos 202;
  response_json = 0;
  ttl_hours = pos 24;
}

abbrev admits_all : IdempotencyRecord ℕ → Bool
admits_all r = true

abbrev saved : IdempotencyRecord ℕ
saved = new_record context (request "h1") 7 100

saved_first :
    save_idempotency_record admits_all context (request "h1") 7 100 [] ≡ ok (saved ∷ [], saved)
unfolding save_idempotency_record with_key drop_expired insert_or_replay insert_row find
saved_first = refl

found_later : get_idempotency_record context "k1" 200 (saved ∷ []) ≡ ok (some saved)
unfolding get_idempotency_record with_key find
found_later = refl

expired_at_last : get_idempotency_record context "k1" 86501 (saved ∷ []) ≡ ok none
unfolding get_idempotency_record with_key find
expired_at_last = refl

saved_key_found_example : get_idempotency_record context "k1" 200 (saved ∷ []) ≡ ok (some saved)
saved_key_found_example =
    saved_key_found context admits_all (request "h1") 7 100 200 [] (saved ∷ []) saved saved_first
      (omega arith)

live_key_replays_example :
    save_idempotency_record admits_all context (request "h2") 8 200 (saved ∷ [])
    ≡ err IdempotencyError.collision
live_key_replays_example =
    live_key_replays context admits_all (request "h2") 8 200 (saved ∷ []) saved found_later refl

no_rows-IsKeyed : IsKeyed {J = ℕ} []
no_rows-IsKeyed = record { ids = λ i. omega arith; slots = λ o k. omega arith }

-- The record of another organisation under the same key.
abbrev foreign : IdempotencyRecord ℕ
foreign = new_record (record context { organisation_id = pos 2 }) (request "h3") 6 50

foreign-IsKeyed : IsKeyed (foreign ∷ [])
foreign-IsKeyed = record { ids = λ i. ground arith; slots = λ o k. ground arith }

saved_beside :
    save_idempotency_record admits_all context (request "h1") 7 100 (foreign ∷ [])
    ≡ ok (foreign ∷ saved ∷ [], saved)
unfolding save_idempotency_record with_key drop_expired insert_or_replay insert_row find
saved_beside = refl

abbrev of_second : IdempotencyRecord ℕ → Bool
of_second r = r.organisation_id =? pos 2

not_of_second : (x : IdempotencyRecord ℕ) → has_slot (pos 1) "k1" x ≡ true → of_second x ≡ false
not_of_second x h =
    let e : x.organisation_id ≡ pos 1 =
      (int_eq.beq_iff x.organisation_id (pos 1)).0
        (&&-left (x.organisation_id =? pos 1) (x.idempotency_key =? "k1") h) in
    ap (λ o. o =? pos 2) e

both-IsKeyed : IsKeyed (foreign ∷ saved ∷ [])
both-IsKeyed =
    save_idempotency_record-IsKeyed context admits_all (request "h1") 7 100 (foreign ∷ [])
      (foreign ∷ saved ∷ []) saved saved_beside foreign-IsKeyed (λ x m. ground arith)

-- The record of the key has expired, and another request takes its place.
abbrev second : IdempotencyRecord ℕ
second = new_record context (request "h2") 8 86501

replaced :
    save_idempotency_record admits_all context (request "h2") 8 86501 (foreign ∷ saved ∷ [])
    ≡ ok (foreign ∷ second ∷ [], second)
unfolding save_idempotency_record with_key drop_expired insert_or_replay insert_row find
replaced = refl

save-Outcome_example :
    Outcome context (request "h2") 8 86501 (foreign ∷ saved ∷ []) (foreign ∷ second ∷ []) second
save-Outcome_example =
    save-Outcome context admits_all (request "h2") 8 86501 (foreign ∷ saved ∷ [])
      (foreign ∷ second ∷ []) second replaced both-IsKeyed

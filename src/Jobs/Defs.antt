-- ===== src/Jobs/Defs.antt =====
-- The tables of persistence/models.py that the job repository writes, and their CHECK constraints.
-- An instant is a number; a table is a list of rows in the order of their insertion.
use untangle.Base.{
  ℕ, leb, ◌==◌, String, Bool, true, false, ◌&&◌, not, Option, none, some, List, [], ◌∷◌, all,
  if◌then◌else◌,
}
use untangle.Base.Int.{ℤ}
use untangle.Base.Keys.{◌=?◌, string_eq, nat_eq, int_eq, option_eq}
use untangle.Base.Flow.{Result, ok, err}
use untangle.Access.{ContextError}

pub data JobStatus : Type 0 where
  queued running completed failed cancelled : JobStatus

pub data JobStage : Type 0 where
  queued ingesting attributing reconciling investigating persisting completed : JobStage

pub data RunStatus : Type 0 where
  initiated running completed failed : RunStatus

pub record Job : Type 0 where
  pub id : ℕ
  pub public_id : String
  pub organisation_id : ℤ
  pub run_id : ℕ
  pub created_by_principal_id : ℤ
  pub status : JobStatus
  pub stage : JobStage
  pub worker_id : Option String
  pub attempt_token : Option String
  pub lease_generation : ℕ
  pub attempt_count : ℕ
  pub max_attempts : ℕ
  pub lease_expires_at : Option ℕ
  pub last_heartbeat_at : Option ℕ
  pub scheduled_at : ℕ
  pub started_at : Option ℕ
  pub completed_at : Option ℕ
  pub failed_at : Option ℕ
  pub error_code : Option String
  pub error_summary : Option String
  pub is_cancelled : Bool
  pub cancelled_at : Option ℕ
  pub cancelled_by_principal_id : Option ℤ
  pub updated_at : ℕ

-- The columns of a run that the job repository reads or writes.
pub record Run : Type 0 where
  pub id : ℕ
  pub organisation_id : ℤ
  pub status : RunStatus
  pub error_code : Option String
  pub error_summary : Option String
  pub failed_at : Option ℕ

-- A membership, with whether its status is 'active' and the code of its role.
pub record Membership : Type 0 where
  pub organisation_id : ℤ
  pub principal_id : ℤ
  pub active : Bool
  pub role_code : String

pub record Database : Type 0 where
  pub jobs : List Job
  pub runs : List Run
  pub memberships : List Membership

-- `check_violation` is the database's `IntegrityError`.
pub data JobError : Type 0 where
  denied : ContextError → JobError
  not_found fencing check_violation : JobError

abbrev pub is_none {ℓ} : {A : Type ℓ} → Option A → Bool
is_none none = true
is_none (some a) = false

-- `a >= b` of two columns, which is not true when one is NULL.
abbrev pub at_least : Option ℕ → Option ℕ → Bool
at_least (some a) (some b) = leb b a
at_least none b = false
at_least (some a) none = false

-- chk_jobs_lifecycle_state_machine
abbrev pub lifecycle_of : JobStatus → Job → Bool
lifecycle_of JobStatus.queued j =
    is_none j.started_at
    && (is_none j.completed_at && (is_none j.failed_at && is_none j.attempt_token))
lifecycle_of JobStatus.running j =
    not (is_none j.started_at)
    && (is_none j.completed_at
        && (is_none j.failed_at
            && (not (is_none j.attempt_token) && not (is_none j.lease_expires_at))))
lifecycle_of JobStatus.completed j =
    at_least j.completed_at j.started_at && (is_none j.failed_at && is_none j.error_code)
lifecycle_of JobStatus.failed j =
    at_least j.failed_at j.started_at && (is_none j.completed_at && not (is_none j.error_code))
lifecycle_of JobStatus.cancelled j = not (is_none j.cancelled_at) && is_none j.completed_at

abbrev pub lifecycle_ok : Job → Bool
lifecycle_ok j = lifecycle_of j.status j

-- All CHECK constraints of the table that a row of this type can violate. The lengths of the VARCHAR
-- columns are not modelled.
abbrev pub constraints_ok : Job → Bool
constraints_ok j = lifecycle_ok j && leb j.attempt_count j.max_attempts

-- The database takes a change of the jobs only if every row meets its constraints.
unfoldable pub commit {ℓ} : {A : Type ℓ} → Database → A → Result JobError (Database × A)
commit db a = if all constraints_ok db.jobs then ok (db, a) else err check_violation

-- `UPDATE table SET change WHERE chosen`
module _ {A : Type 0} where
  unfoldable pub update_where : (A → Bool) → (A → A) → List A → List A
  update_where chosen change [] = []
  update_where chosen change (x ∷ xs) =
      (if chosen x then change x else x) ∷ update_where chosen change xs

abbrev pub is_running : JobStatus → Bool
is_running JobStatus.running = true
is_running _ = false

abbrev pub is_queued : JobStatus → Bool
is_queued JobStatus.queued = true
is_queued _ = false

abbrev pub run_is_initiated : RunStatus → Bool
run_is_initiated RunStatus.initiated = true
run_is_initiated _ = false

-- `run.status in ("initiated", "running")`
abbrev pub run_is_open : RunStatus → Bool
run_is_open RunStatus.initiated = true
run_is_open RunStatus.running = true
run_is_open _ = false

-- `WHERE id = :job_id AND attempt_token = :attempt_token AND lease_generation = :lease_generation`
abbrev pub holds_fence : ℕ → String → ℕ → Job → Bool
holds_fence job_id token generation j =
    (j.id == job_id) && ((j.attempt_token =? some token) && (j.lease_generation == generation))

-- The fence, and `AND status = 'running'`.
abbrev pub holds_lease : ℕ → String → ℕ → Job → Bool
holds_lease job_id token generation j = holds_fence job_id token generation j && is_running j.status

-- A stage by its text; another text violates chk_jobs_stage_allowed.
abbrev pub parse_stage : String → Option JobStage
parse_stage s =
    if s =? "queued"
    then some JobStage.queued
    else if s =? "ingesting"
    then some JobStage.ingesting
    else if s =? "attributing"
    then some JobStage.attributing
    else if s =? "reconciling"
    then some JobStage.reconciling
    else if s =? "investigating"
    then some JobStage.investigating
    else if s =? "persisting"
    then some JobStage.persisting
    else if s =? "completed"
    then some JobStage.completed
    else none

-- ===== src/Jobs/Repository.antt =====
-- persistence/repositories/job.py: the operations of the repository. Where the code branches on the
-- dialect of the database this is the SQLite side; Jobs/Functions has the other.
use untangle.Base.{
  find, ℕ, suc, ◌+◌, ltb, leb, ◌==◌, String, Bool, true, false, ◌&&◌, ◌||◌, not, Option, none, some,
  List, [], ◌∷◌, ◌++◌, any, filter, if◌then◌else◌,
}
use untangle.Base.Keys.{◌=?◌, string_eq, nat_eq, int_eq, option_eq}
use untangle.Base.Flow.{Result, ok, err, ◌>>=◌}
use untangle.Access.{TenantContext, require_run_mutation}
use untangle.Jobs.Defs.{
  JobStatus, JobStage, RunStatus, Job, Run, Membership, Database, JobError, denied, not_found,
  fencing, check_violation, commit, update_where, is_running, is_queued, run_is_initiated,
  run_is_open, holds_fence, holds_lease, parse_stage,
}

-- `context.require_run_mutation(action)`
unfoldable pub require_mutation {ℓ} :
    {A : Type ℓ} → TenantContext → String → Result JobError A → Result JobError A
unfolding require_run_mutation
require_mutation context action rest = elim (require_run_mutation context action) [
  | ok _ ↦ rest
  | err e ↦ err (denied e)
]

unfoldable pub new_job : TenantContext → ℕ → String → ℕ → ℕ → ℕ → ℕ → Job
new_job context id public_id run_id max_attempts scheduled_at now = record {
  id = id;
  public_id = public_id;
  organisation_id = context.organisation_id;
  run_id = run_id;
  created_by_principal_id = context.principal_id;
  status = JobStatus.queued;
  stage = JobStage.queued;
  worker_id = none;
  attempt_token = none;
  lease_generation = 0;
  attempt_count = 0;
  max_attempts = max_attempts;
  lease_expires_at = none;
  last_heartbeat_at = none;
  scheduled_at = scheduled_at;
  started_at = none;
  completed_at = none;
  failed_at = none;
  error_code = none;
  error_summary = none;
  is_cancelled = false;
  cancelled_at = none;
  cancelled_by_principal_id = none;
  updated_at = now;
}

-- `id` and `public_id` are what the database and the generator of public ids give a new row.
unfoldable pub create_reconciliation_job :
    TenantContext
    → (id : ℕ) → (public_id : String) → (run_id max_attempts scheduled_at now : ℕ) → Database
    → Result JobError (Database × Job)
unfolding require_mutation new_job commit
create_reconciliation_job context id public_id run_id max_attempts scheduled_at now db =
    require_mutation context "create" (
      let job = new_job context id public_id run_id max_attempts scheduled_at now in
      commit (record db { jobs = db.jobs ++ job ∷ [] }) job)

abbrev pub in_tenant : TenantContext → String → Job → Bool
in_tenant context public_id j =
    (j.organisation_id =? context.organisation_id) && (j.public_id =? public_id)

unfoldable pub get_job_by_public_id : TenantContext → String → Database → Option Job
get_job_by_public_id context public_id db = find (in_tenant context public_id) db.jobs

-- The assignments to the run of a job that is over.
abbrev pub fail_run : String → String → ℕ → Run → Run
fail_run code summary now r = record r {
  status = RunStatus.failed;
  error_code = some code;
  error_summary = some summary;
  failed_at = some now;
}

unfoldable pub mark_cancelled : TenantContext → ℕ → Job → Job
mark_cancelled context now j = record j {
  is_cancelled = true;
  cancelled_at = some now;
  cancelled_by_principal_id = some context.principal_id;
}

-- `job.status in ("completed", "failed", "cancelled")`
abbrev pub is_over : JobStatus → Bool
is_over JobStatus.queued = false
is_over JobStatus.running = false
is_over _ = true

abbrev pub this_job : Job → Job → Bool
this_job job j = j.id == job.id

unfoldable pub cancel_found : TenantContext → ℕ → Database → Job → Result JobError (Database × Job)
unfolding mark_cancelled commit
cancel_found context now db job =
    if is_over job.status
    then ok (db, job)
    else (let marked = mark_cancelled context now job in
        if is_queued job.status
        then (let done = record marked {
          status = JobStatus.cancelled;
          stage = JobStage.completed;
        } in
            commit
              (record db {
                jobs = update_where (this_job job) (λ _. done) db.jobs;
                runs =
                    update_where
                      (λ (r : Run).
                        ((r.organisation_id =? context.organisation_id) && (r.id == job.run_id))
                        && run_is_initiated r.status)
                      (fail_run "job_cancelled"
                        "Reconciliation job was cancelled by user before execution" now)
                      db.runs;
              })
              done)
        else commit (record db { jobs = update_where (this_job job) (λ _. marked) db.jobs }) marked)

unfoldable pub request_job_cancellation :
    TenantContext → String → ℕ → Database → Result JobError (Database × Job)
unfolding cancel_found require_mutation get_job_by_public_id
request_job_cancellation context public_id now db =
    require_mutation context "cancel" (elim (get_job_by_public_id context public_id db) [
      | none ↦ err not_found
      | some job ↦ cancel_found context now db job
    ])

-- The WHERE clause of `complete_job_fenced`.
abbrev pub may_complete : TenantContext → ℕ → String → ℕ → Job → Bool
may_complete context job_id token generation j =
    holds_lease job_id token generation j && (j.organisation_id =? context.organisation_id)

unfoldable pub complete : ℕ → Job → Job
complete now j = record j {
  status = JobStatus.completed;
  stage = JobStage.completed;
  completed_at = some now;
  updated_at = now;
}

-- An UPDATE with its rowcount: whether it met a row.
unfoldable pub update_jobs :
    (Job → Bool) → (Job → Job) → Database → Result JobError (Database × Bool)
unfolding commit update_where
update_jobs chosen change db =
    commit (record db { jobs = update_where chosen change db.jobs }) (any chosen db.jobs)

unfoldable pub complete_job_fenced :
    TenantContext → ℕ → String → ℕ → ℕ → Database → Result JobError Database
unfolding complete update_jobs
complete_job_fenced context job_id token generation now db = do
  done ← update_jobs (may_complete context job_id token generation) (complete now) db
  if done.1 then ok done.0 else err fencing

-- `lease_expires_at < now`, which is not true of NULL.
abbrev pub expired : ℕ → Option ℕ → Bool
expired now none = false
expired now (some t) = ltb t now

-- The WHERE clauses of `claim_next_job`.
abbrev pub claimable : ℕ → Job → Bool
claimable now j =
    (is_queued j.status
      || (is_running j.status
          && (expired now j.lease_expires_at && ltb j.attempt_count j.max_attempts)))
    && not j.is_cancelled

-- `ORDER BY scheduled_at ASC LIMIT 1`; of equals, the first.
unfoldable pub earliest : List Job → Option Job
earliest [] = none
earliest (j ∷ js) = elim (earliest js) [
  | none ↦ some j
  | some k ↦ if leb j.scheduled_at k.scheduled_at then some j else some k
]

abbrev pub or_now : ℕ → Option ℕ → Option ℕ
or_now now none = some now
or_now now (some t) = some t

unfoldable pub start_attempt : String → String → ℕ → ℕ → Job → Job
start_attempt worker token now lease_seconds j = record j {
  worker_id = some worker;
  attempt_token = some token;
  lease_generation = suc j.lease_generation;
  attempt_count = suc j.attempt_count;
  status = JobStatus.running;
  stage = JobStage.ingesting;
  started_at = or_now now j.started_at;
  last_heartbeat_at = some now;
  lease_expires_at = some (now + lease_seconds);
  updated_at = now;
}

-- The writes to the candidate, if there is one.
unfoldable pub claim_candidate :
    (worker token : String)
    → (now lease_seconds : ℕ) → Database
    → Option Job
    → Result JobError (Database × Option Job)
claim_candidate worker token now lease_seconds db none = ok (db, none)
claim_candidate worker token now lease_seconds db (some candidate) =
    let claimed = start_attempt worker token now lease_seconds candidate in
    commit (record db { jobs = update_where (this_job candidate) (λ _. claimed) db.jobs })
      (some claimed)

-- `token` is what `secrets.token_hex` gives.
unfoldable pub claim_next_job :
    (worker token : String)
    → (now lease_seconds : ℕ) → Database
    → Result JobError (Database × Option Job)
claim_next_job worker token now lease_seconds db =
    claim_candidate worker token now lease_seconds db (earliest (filter (claimable now) db.jobs))

-- The lease, and `AND worker_id = :worker_id`.
abbrev pub holds_lease_as : String → ℕ → String → ℕ → Job → Bool
holds_lease_as worker job_id token generation j =
    holds_lease job_id token generation j && (j.worker_id =? some worker)

unfoldable pub beat : ℕ → ℕ → Job → Job
beat now lease_seconds j = record j {
  last_heartbeat_at = some now;
  lease_expires_at = some (now + lease_seconds);
  updated_at = now;
}

unfoldable pub heartbeat_job :
    (job_id : ℕ)
    → (worker token : String) → (generation now lease_seconds : ℕ) → Database
    → Result JobError (Database × Bool)
unfolding beat update_jobs
heartbeat_job job_id worker token generation now lease_seconds =
    update_jobs (holds_lease_as worker job_id token generation) (beat now lease_seconds)

abbrev pub cancelled_flag : Option Job → Bool
cancelled_flag none = false
cancelled_flag (some j) = j.is_cancelled

-- `bool` of the scalar that the SELECT gives.
unfoldable pub check_job_cancellation : ℕ → String → ℕ → Database → Bool
unfolding find
check_job_cancellation job_id token generation db =
    cancelled_flag (find (holds_fence job_id token generation) db.jobs)

unfoldable pub enter_stage : JobStage → ℕ → Job → Job
enter_stage stage now j = record j { stage = stage; updated_at = now }

-- A stage that the table does not allow is refused when the UPDATE meets a row.
unfoldable pub update_stage :
    (Job → Bool) → String → ℕ → Database → Result JobError (Database × Bool)
unfolding enter_stage update_jobs
update_stage chosen new_stage now db = elim (parse_stage new_stage) [
  | none ↦ if any chosen db.jobs then err check_violation else ok (db, false)
  | some stage ↦ update_jobs chosen (enter_stage stage now) db
]

unfoldable pub transition_job_stage :
    (job_id : ℕ)
    → (worker token : String) → (generation : ℕ) → (new_stage : String) → (now : ℕ) → Database
    → Result JobError (Database × Bool)
unfolding update_stage
transition_job_stage job_id worker token generation new_stage =
    update_stage (holds_lease_as worker job_id token generation) new_stage

-- The dict that `fail_job` returns; `failed`, `queued` and `stale` are the three new statuses.
pub data FailStatus : Type 0 where
  failed queued stale : FailStatus

pub record FailReport : Type 0 where
  pub is_permanent_failure : Bool
  pub new_status : FailStatus
  pub new_attempt_count : ℕ

unfoldable pub fail_for_good : String → String → ℕ → Job → Job
fail_for_good code summary now j = record j {
  status = JobStatus.failed;
  error_code = some code;
  error_summary = some summary;
  updated_at = now;
  failed_at = some now;
  stage = JobStage.completed;
}

unfoldable pub requeue : ℕ → Job → Job
requeue now j = record j {
  status = JobStatus.queued;
  updated_at = now;
  attempt_token = none;
  worker_id = none;
  lease_expires_at = none;
  started_at = none;
  completed_at = none;
  failed_at = none;
  error_code = none;
  error_summary = none;
  stage = JobStage.queued;
}

-- `session.get(ReconciliationJob, job_id)`
abbrev pub get_job : ℕ → Database → Option Job
get_job job_id db = find (λ j. j.id == job_id) db.jobs

-- The UPDATE of the run of a job that has failed or was cancelled.
unfoldable pub close_run : String → String → ℕ → Job → List Run → List Run
close_run code summary now job =
    update_where (λ (r : Run). (r.id == job.run_id) && run_is_open r.status)
      (fail_run code summary now)

-- `is_perm`
abbrev pub is_permanent : Bool → Job → Bool
is_permanent retryable j = not retryable || leb j.max_attempts j.attempt_count

unfoldable pub fail_found :
    (code summary : String)
    → (retryable : Bool) → (now : ℕ) → Database
    → Job
    → Result JobError (Database × FailReport)
unfolding fail_for_good requeue close_run commit update_where
fail_found code summary retryable now db job =
    if is_permanent retryable job
    then commit
        (record db {
          jobs = update_where (this_job job) (λ _. fail_for_good code summary now job) db.jobs;
          runs = close_run code summary now job db.runs;
        })
        (record {
          is_permanent_failure = true;
          new_status = FailStatus.failed;
          new_attempt_count = job.attempt_count;
        })
    else commit (record db { jobs = update_where (this_job job) (λ _. requeue now job) db.jobs })
        (record {
          is_permanent_failure = false;
          new_status = FailStatus.queued;
          new_attempt_count = job.attempt_count;
        })

abbrev pub stale_report : FailReport
stale_report = record {
  is_permanent_failure = false;
  new_status = FailStatus.stale;
  new_attempt_count = 0;
}

-- `summary` is `error_summary[:255]`.
unfoldable pub fail_job :
    (job_id : ℕ)
    → (token : String) → (generation : ℕ) → (code summary : String) → (retryable : Bool) → (now : ℕ)
    → Database
    → Result JobError (Database × FailReport)
unfolding fail_found find
fail_job job_id token generation code summary retryable now db = elim (get_job job_id db) [
  | none ↦ ok (db, stale_report)
  | some job ↦
      if holds_fence job_id token generation job
      then fail_found code summary retryable now db job
      else ok (db, stale_report)
]

unfoldable pub acknowledge : ℕ → Job → Job
acknowledge now j = record j {
  status = JobStatus.cancelled;
  stage = JobStage.completed;
  updated_at = now;
}

unfoldable pub cancel_ack_job :
    (job_id : ℕ)
    → (token : String) → (generation now : ℕ) → Database
    → Result JobError (Database × Bool)
unfolding acknowledge close_run commit find update_where
cancel_ack_job job_id token generation now db = elim (get_job job_id db) [
  | none ↦ ok (db, false)
  | some job ↦
      if holds_fence job_id token generation job
      then commit
          (record db {
            jobs = update_where (this_job job) (λ _. acknowledge now job) db.jobs;
            runs = close_run "job_cancelled" "Reconciliation job was cancelled" now job db.runs;
          })
          true
      else ok (db, false)
]

abbrev pub active_member : Job → Membership → Bool
active_member job m =
    (m.organisation_id =? job.organisation_id)
    && ((m.principal_id =? job.created_by_principal_id) && m.active)

unfoldable pub revalidate_job_creator : ℕ → String → ℕ → Database → Bool
unfolding find
revalidate_job_creator job_id token generation db = elim (get_job job_id db) [
  | none ↦ false
  | some job ↦
      if holds_fence job_id token generation job
      then any (active_member job) db.memberships
      else false
]

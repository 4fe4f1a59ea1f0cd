-- ===== src/Jobs/Functions.antt =====
-- migrations/versions/0003_reconciliation_jobs_and_storage.py: the functions that a worker calls on
-- PostgreSQL. `now` is `clock_timestamp()`.
use untangle.Base.{
  find, ℕ, ltb, String, Bool, false, ◌&&◌, ◌||◌, not, Option, none, some, [], ◌∷◌, any, filter,
  if◌then◌else◌,
}
use untangle.Base.Keys.{contains, string_eq, int_eq}
use untangle.Base.Flow.{Result}
use untangle.Jobs.Defs.{
  JobStatus, Job, Membership, Database, JobError, is_running, is_queued, holds_lease,
}
use untangle.Jobs.Repository.{
  update_jobs, update_stage, expired, earliest, claim_candidate, beat, cancelled_flag,
  fail_for_good, requeue, active_member, complete,
}

-- The WHERE clause of the common table expression.
abbrev pub eligible : ℕ → Job → Bool
eligible now j =
    (is_queued j.status || (is_running j.status && expired now j.lease_expires_at))
    && (ltb j.attempt_count j.max_attempts && not j.is_cancelled)

unfoldable pub fn_job_claim_next :
    (worker token : String)
    → (now lease_seconds : ℕ) → Database
    → Result JobError (Database × Option Job)
fn_job_claim_next worker token now lease_seconds db =
    claim_candidate worker token now lease_seconds db (earliest (filter (eligible now) db.jobs))

module _ (job_id : ℕ) (token : String) (generation : ℕ) where
  unfoldable pub fn_job_heartbeat :
      (now lease_seconds : ℕ) → Database → Result JobError (Database × Bool)
  unfolding beat update_jobs
  fn_job_heartbeat now lease_seconds =
      update_jobs (holds_lease job_id token generation) (beat now lease_seconds)

  unfoldable pub fn_job_check_cancellation : Database → Bool
  unfolding find
  fn_job_check_cancellation db = cancelled_flag (find (holds_lease job_id token generation) db.jobs)

  unfoldable pub fn_job_transition_stage :
      (stage : String) → (now : ℕ) → Database → Result JobError (Database × Bool)
  unfolding update_stage
  fn_job_transition_stage stage = update_stage (holds_lease job_id token generation) stage

  -- The CASE expressions all have the condition `p_retryable AND attempt_count < max_attempts`.
  unfoldable pub fail_row : (code summary : String) → (retryable : Bool) → (now : ℕ) → Job → Job
  unfolding fail_for_good requeue
  fail_row code summary retryable now j =
      if retryable && ltb j.attempt_count j.max_attempts
      then requeue now j
      else fail_for_good code summary now j

  unfoldable pub fn_job_fail :
      (code summary : String)
      → (retryable : Bool) → (now : ℕ) → Database
      → Result JobError (Database × Bool)
  unfolding fail_row update_jobs
  fn_job_fail code summary retryable now =
      update_jobs (holds_lease job_id token generation) (fail_row code summary retryable now)

  abbrev pub or_instant : ℕ → Option ℕ → Option ℕ
  or_instant now none = some now
  or_instant now (some t) = some t

  unfoldable pub ack_row : ℕ → Job → Job
  ack_row now j = record j {
    status = JobStatus.cancelled;
    cancelled_at = or_instant now j.cancelled_at;
    updated_at = now;
  }

  unfoldable pub fn_job_cancel_ack : (now : ℕ) → Database → Result JobError (Database × Bool)
  unfolding ack_row update_jobs
  fn_job_cancel_ack now = update_jobs (holds_lease job_id token generation) (ack_row now)

  abbrev pub may_prepare : Job → Membership → Bool
  may_prepare job m =
      active_member job m && contains m.role_code ("owner" ∷ "admin" ∷ "operator" ∷ [])

  unfoldable pub fn_job_revalidate_creator : Database → Bool
  unfolding find
  fn_job_revalidate_creator db = elim (find (holds_lease job_id token generation) db.jobs) [
    | none ↦ false
    | some job ↦ any (may_prepare job) db.memberships
  ]

  -- fn_job_complete has no tenant of its own.
  unfoldable pub fn_job_complete : (now : ℕ) → Database → Result JobError (Database × Bool)
  unfolding complete update_jobs
  fn_job_complete now = update_jobs (holds_lease job_id token generation) (complete now)

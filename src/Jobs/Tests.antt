-- ===== src/Jobs/Tests.antt =====
-- A jobs table with a queued, a running and a completed job, and the theorems at it.
use untangle.Base.{find, ◌≡◌, refl, inl, inr, String, true, false, none, some, [], ◌∷◌, In, arith}
use untangle.Base.Int.{pos}
use untangle.Base.Keys.{string_eq, nat_eq}
use untangle.Base.Flow.{ok, err}
use untangle.Access.{owner, TenantContext}
use untangle.Jobs.Defs.{
  JobStatus, JobStage, Job, Database, fencing, commit, update_where, holds_fence,
}
use untangle.Jobs.Repository.{
  start_attempt, earliest, claim_candidate, this_job, get_job, requeue, FailReport, FailStatus,
  stale_report, fail_job, complete_job_fenced,
}
use untangle.Jobs.Functions.{
  eligible, fn_job_claim_next, fn_job_heartbeat, fn_job_check_cancellation, fn_job_transition_stage,
  fn_job_fail, fn_job_cancel_ack,
}
use untangle.Jobs.Health.{IsHealthy}
use untangle.Jobs.Commits.{Commits}
use untangle.Jobs.Fencing.{stale_worker_changes_nothing, claim_preempts}
use untangle.Jobs.Final.{Keeps, finished_is_final}
use untangle.Jobs.Emulation.{fail_job-fn_job_fail, fail_job_revives}

abbrev waiting : Job
waiting = record {
  id = 1;
  public_id = "job_1";
  organisation_id = pos 7;
  run_id = 1;
  created_by_principal_id = pos 3;
  status = JobStatus.queued;
  stage = JobStage.queued;
  worker_id = none;
  attempt_token = none;
  lease_generation = 0;
  attempt_count = 0;
  max_attempts = 3;
  lease_expires_at = none;
  last_heartbeat_at = none;
  scheduled_at = 10;
  started_at = none;
  completed_at = none;
  failed_at = none;
  error_code = none;
  error_summary = none;
  is_cancelled = false;
  cancelled_at = none;
  cancelled_by_principal_id = none;
  updated_at = 10;
}

abbrev at_work : Job
at_work = record waiting {
  id = 2;
  status = JobStatus.running;
  stage = JobStage.ingesting;
  worker_id = some "worker_1";
  attempt_token = some "token_2";
  lease_generation = 1;
  attempt_count = 1;
  lease_expires_at = some 80;
  started_at = some 20;
}

abbrev done : Job
done = record waiting {
  id = 3;
  status = JobStatus.completed;
  stage = JobStage.completed;
  attempt_token = some "token_3";
  lease_generation = 1;
  attempt_count = 1;
  started_at = some 20;
  completed_at = some 30;
}

abbrev table : Database
table = record { jobs = waiting ∷ at_work ∷ done ∷ []; runs = []; memberships = [] }

table-IsHealthy : IsHealthy 50 table
table-IsHealthy = record {
  sound = (
    record {
      checked = refl;
      attempt_left = λ h. omega arith;
      past = omega arith;
      clean = λ h. refl;
    },
    (
      record { checked = refl; attempt_left = λ h. cc; past = omega arith; clean = λ h. refl },
      (record { checked = refl; attempt_left = λ h. cc; past = omega arith; clean = λ h. cc }, tt),
    ),
  );
  ids = (refl, (refl, (refl, tt)));
}

abbrev context : TenantContext
context = record {
  organisation_id = pos 7;
  principal_id = pos 3;
  role = owner;
  request_id = "req_1";
}

-- The token of the running job, with the generation before its claim.
none_stale : (j : Job) → In j table.jobs → holds_fence 2 "token_2" 0 j ≡ false
none_stale j (inl e) = rw e refl
none_stale j (inr (inl e)) = rw e refl
none_stale j (inr (inr (inl e))) = rw e refl
none_stale j (inr (inr (inr m))) = elim m [ ]

stale_worker_changes_nothing_example :
    (fn_job_heartbeat 2 "token_2" 0 50 60 table ≡ ok (table, false))
    × (fn_job_transition_stage 2 "token_2" 0 "persisting" 50 table ≡ ok (table, false))
    × (fn_job_fail 2 "token_2" 0 "crash" "worker lost" true 50 table ≡ ok (table, false))
    × (fn_job_cancel_ack 2 "token_2" 0 50 table ≡ ok (table, false))
    × (fn_job_check_cancellation 2 "token_2" 0 table ≡ false)
    × (complete_job_fenced context 2 "token_2" 0 50 table ≡ err fencing)
    × (fail_job 2 "token_2" 0 "crash" "worker lost" true 50 table ≡ ok (table, stale_report))
stale_worker_changes_nothing_example =
    stale_worker_changes_nothing 50 table table-IsHealthy 2 "token_2" 0 none_stale context "crash"
      "worker lost" "persisting" true 60

finished_is_final_example :
    Keeps done (fn_job_claim_next "worker_2" "token_3" 50 60 table)
    × Keeps done (fn_job_heartbeat 3 "token_3" 1 50 60 table)
    × Keeps done (fn_job_transition_stage 3 "token_3" 1 "persisting" 50 table)
    × Keeps done (fn_job_fail 3 "token_3" 1 "crash" "worker lost" true 50 table)
    × Keeps done (fn_job_cancel_ack 3 "token_3" 1 50 table)
    × ((c : TenantContext) (after : Database)
        → complete_job_fenced c 3 "token_3" 1 50 table ≡ ok after
        → In done after.jobs)
finished_is_final_example =
    finished_is_final 50 table table-IsHealthy done (inr (inr (inl refl))) refl 3 1 60 "worker_2"
      "token_3" "crash" "worker lost" "persisting" true

-- The waiting job after a claim.
abbrev claimed : Job
claimed = record waiting {
  worker_id = some "worker_2";
  attempt_token = some "token_9";
  lease_generation = 1;
  attempt_count = 1;
  status = JobStatus.running;
  stage = JobStage.ingesting;
  started_at = some 50;
  last_heartbeat_at = some 50;
  lease_expires_at = some 110;
  updated_at = 50;
}

waiting_claimed :
    fn_job_claim_next "worker_2" "token_9" 50 60 table
    ≡ ok (record table { jobs = claimed ∷ at_work ∷ done ∷ [] }, some claimed)
unfolding fn_job_claim_next claim_candidate commit update_where earliest start_attempt
waiting_claimed = refl

claim_preempts_example :
    (old : Job) × In old table.jobs
    × (eligible 50 old ≡ true)
    × (old.is_cancelled ≡ false)
    × (claimed ≡ start_attempt "worker_2" "token_9" 50 60 old)
    × In claimed (claimed ∷ at_work ∷ done ∷ [])
    × ((stale : String) (j : Job)
        → In j (claimed ∷ at_work ∷ done ∷ [])
        → holds_fence old.id stale old.lease_generation j ≡ false)
claim_preempts_example =
    claim_preempts 50 table table-IsHealthy "worker_2" "token_9" 60
      (record table { jobs = claimed ∷ at_work ∷ done ∷ [] }) claimed waiting_claimed

at_work_found : get_job 2 table ≡ some at_work
unfolding find
at_work_found = refl

-- Both sides of a failure that is not retried.
abbrev crashed : Job
crashed = record at_work {
  status = JobStatus.failed;
  error_code = some "crash";
  error_summary = some "worker lost";
  updated_at = 50;
  failed_at = some 50;
  stage = JobStage.completed;
}

abbrev after_crash : Database
after_crash = record table { jobs = waiting ∷ crashed ∷ done ∷ [] }

abbrev crash_report : FailReport
crash_report = record {
  is_permanent_failure = true;
  new_status = FailStatus.failed;
  new_attempt_count = 1;
}

crash_emulated :
    fail_job 2 "token_2" 1 "crash" "worker lost" false 50 table ≡ ok (after_crash, crash_report)
unfolding fail_job
crash_emulated = refl

crash_in_database :
    fn_job_fail 2 "token_2" 1 "crash" "worker lost" false 50 table ≡ ok (after_crash, true)
unfolding fn_job_fail
crash_in_database = refl

fail_job-fn_job_fail_example : after_crash.jobs ≡ after_crash.jobs
fail_job-fn_job_fail_example =
    fail_job-fn_job_fail 50 table table-IsHealthy 2 1 "token_2" "crash" "worker lost" at_work
      at_work_found refl false (after_crash, crash_report) (after_crash, true) refl crash_emulated
      crash_in_database

done_found : get_job 3 table ≡ some done
unfolding find
done_found = refl

fail_job_revives_example :
    (fail_job 3 "token_3" 1 "crash" "worker lost" true 50 table
      ≡ ok (
        record table { jobs = update_where (this_job done) (λ _. requeue 50 done) table.jobs },
        record {
          is_permanent_failure = false;
          new_status = FailStatus.queued;
          new_attempt_count = 1;
        },
      ))
    × (fn_job_fail 3 "token_3" 1 "crash" "worker lost" true 50 table ≡ ok (table, false))
fail_job_revives_example =
    fail_job_revives 50 table table-IsHealthy 3 1 "token_3" "crash" "worker lost" done done_found
      refl refl (omega arith)

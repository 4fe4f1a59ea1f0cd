-- ===== src/Jobs/Fencing.antt =====
-- Fencing: a worker whose lease is not the current one changes nothing, and a claim ends every lease
-- before it.
use untangle.Base.{
  find-none, find-In, Option-cases, ℕ, ◌==◌, ◌≡◌, refl, ap, sym, inl, inr, String, Bool, true,
  false, Option, none, some, Option-cases, List, [], ◌∷◌, In, In-of_filter, arith,
}
use mathlib.Core.Path.{subst}
use untangle.Base.Keys.{string_eq, int_eq, nat_eq, option_eq}
use untangle.Base.Flow.{ok, err}
use untangle.Access.{TenantContext}
use untangle.Jobs.Defs.{
  Job, Database, fencing, commit, update_where, holds_fence, holds_lease, parse_stage,
}
use untangle.Jobs.Repository.{
  claim_candidate, update_jobs, update_stage, start_attempt, this_job, beat, enter_stage, complete,
  may_complete, complete_job_fenced, get_job, stale_report, fail_job, cancelled_flag,
}
use untangle.Jobs.Functions.{
  eligible, fn_job_claim_next, fn_job_heartbeat, fn_job_check_cancellation, fn_job_transition_stage,
  fail_row, fn_job_fail, ack_row, fn_job_cancel_ack,
}
use untangle.Jobs.Health.{IsHealthy, commit_sound, update_where_none, In-of_update_where}
use untangle.Jobs.Commits.{earliest-In}

commit_returns :
    (next db' : Database) (claimed job : Job)
    → commit next (some claimed) ≡ ok (db', some job)
    → (db'.jobs ≡ next.jobs) × (job ≡ claimed)
unfolding commit
commit_returns next db' claimed job e = (ground arith, ground arith)

eligible-live : (now : ℕ) (j : Job) → eligible now j ≡ true → j.is_cancelled ≡ false
eligible-live now j h = ground arith

claim_inversion :
    (worker token : String) (now seconds : ℕ) (db db' : Database) (candidate : Option Job)
    (job : Job)
    → claim_candidate worker token now seconds db candidate ≡ ok (db', some job)
    → (old : Job) × (candidate ≡ some old)
      × (db'.jobs
          ≡ update_where (this_job old) (λ _. start_attempt worker token now seconds old) db.jobs)
      × (job ≡ start_attempt worker token now seconds old)
unfolding claim_candidate
claim_inversion worker token now seconds db db' none job e = cc
claim_inversion worker token now seconds db db' (some old) job e =
    let (jobs_eq, job_eq) = commit_returns _ db' _ job e in (old, refl, jobs_eq, job_eq)

-- The new row stands in the table.
written :
    (old claimed : Job) (jobs : List Job)
    → In old jobs
    → In claimed (update_where (this_job old) (λ _. claimed) jobs)
unfolding update_where
written old claimed [] m = elim m [ ]
written old claimed (j ∷ js) (inl e) =
    let t : this_job old j ≡ true = ground arith in inl (rw t refl)
written old claimed (j ∷ js) (inr m) = inr (written old claimed js m)

-- No row of the table after a claim has the fence from before it.
behind :
    (worker token : String) (now seconds : ℕ) (old : Job) (jobs : List Job) (stale : String)
    (j : Job)
    → In j (update_where (this_job old) (λ _. start_attempt worker token now seconds old) jobs)
    → holds_fence old.id stale old.lease_generation j ≡ false
unfolding start_attempt
behind worker token now seconds old jobs stale j m =
    let (x, n, r) =
      In-of_update_where (this_job old) (λ _. start_attempt worker token now seconds old) j jobs
        m in
    elim r [ inl (t, e) ↦ rw e (ground arith) | inr (f, e) ↦ rw e (ground arith) ]

module _ (now : ℕ) (db : Database) (h : IsHealthy now db) where
  pub update_jobs-none :
      (chosen : Job → Bool) (change : Job → Job)
      → ((j : Job) → In j db.jobs → chosen j ≡ false)
      → update_jobs chosen change db ≡ ok (db, false)
  unfolding update_jobs
  update_jobs-none chosen change none_chosen =
      let (same, none_there) = update_where_none chosen change db.jobs none_chosen in
      rw (same, none_there) (commit_sound now db false h.sound)

  module _ (job_id : ℕ) (token : String) (generation : ℕ)
      (stale : (j : Job) → In j db.jobs → holds_fence job_id token generation j ≡ false) where
    no_lease : (j : Job) → In j db.jobs → holds_lease job_id token generation j ≡ false
    no_lease j m = ground (arith, stale j m)

    no_stage :
        (stage : String)
        → fn_job_transition_stage job_id token generation stage now db ≡ ok (db, false)
    unfolding fn_job_transition_stage update_stage
    no_stage stage = elim (Option-cases (parse_stage stage)) [
      | inl e ↦
          let (_, none_there) =
            update_where_none (holds_lease job_id token generation) (λ j. j) db.jobs no_lease in
          rw (e, fn_job_transition_stage, update_stage, none_there) refl
      | inr (known, e) ↦
          rw (e, fn_job_transition_stage, update_stage)
            (update_jobs-none (holds_lease job_id token generation) (enter_stage known now)
              no_lease)
    ]

    no_completion :
        (context : TenantContext)
        → complete_job_fenced context job_id token generation now db ≡ err fencing
    unfolding complete_job_fenced
    no_completion context =
        rw
          (update_jobs-none (may_complete context job_id token generation) (complete now)
            (λ j m. ground (arith, no_lease j m)))
          refl

    no_failure :
        (code summary : String) (retryable : Bool)
        → fail_job job_id token generation code summary retryable now db ≡ ok (db, stale_report)
    unfolding fail_job
    no_failure code summary retryable = elim (Option-cases (get_job job_id db)) [
      | inl e ↦ rw (e, fail_job) refl
      | inr (j, e) ↦ rw (e, fail_job, stale j (find-In (λ k. k.id == job_id) db.jobs j e).0) refl
    ]

    -- A worker whose job, token and generation are not those of any row is fenced out: no function
    -- that it calls changes the database, none reports success, and it cannot complete the job.
    pub stale_worker_changes_nothing :
        (context : TenantContext) (code summary stage : String) (retryable : Bool) (seconds : ℕ)
        → (fn_job_heartbeat job_id token generation now seconds db ≡ ok (db, false))
          × (fn_job_transition_stage job_id token generation stage now db ≡ ok (db, false))
          × (fn_job_fail job_id token generation code summary retryable now db ≡ ok (db, false))
          × (fn_job_cancel_ack job_id token generation now db ≡ ok (db, false))
          × (fn_job_check_cancellation job_id token generation db ≡ false)
          × (complete_job_fenced context job_id token generation now db ≡ err fencing)
          × (fail_job job_id token generation code summary retryable now db ≡ ok (db, stale_report))
    unfolding fn_job_heartbeat fn_job_fail fn_job_cancel_ack fn_job_check_cancellation
    stale_worker_changes_nothing context code summary stage retryable seconds =
        let lease = holds_lease job_id token generation in
        (
          update_jobs-none lease (beat now seconds) no_lease,
          no_stage stage,
          update_jobs-none lease (fail_row job_id token generation code summary retryable now)
              no_lease,
          update_jobs-none lease (ack_row job_id token generation now) no_lease,
          ap cancelled_flag (find-none lease db.jobs no_lease),
          no_completion context,
          no_failure code summary retryable,
        )

  -- A claim takes an eligible row that is not cancelled, and after it no token with the generation
  -- before the claim holds the fence of that job any more.
  pub claim_preempts :
      (worker token : String) (seconds : ℕ) (db' : Database) (job : Job)
      → fn_job_claim_next worker token now seconds db ≡ ok (db', some job)
      → (old : Job) × In old db.jobs
        × (eligible now old ≡ true)
        × (old.is_cancelled ≡ false)
        × (job ≡ start_attempt worker token now seconds old)
        × In job db'.jobs
        × ((stale : String) (j : Job)
            → In j db'.jobs
            → holds_fence old.id stale old.lease_generation j ≡ false)
  unfolding fn_job_claim_next
  claim_preempts worker token seconds db' job e =
      let (old, q, jobs_eq, job_eq) = claim_inversion worker token now seconds db db' _ job e in
      let (m, fit) = In-of_filter (eligible now) old db.jobs (earliest-In _ old q) in
      (
        old,
        m,
        fit,
        eligible-live now old fit,
        job_eq,
        subst (λ t. In job t) (sym jobs_eq)
            (subst
              (λ t. In t (
                update_where (this_job old) (λ _. start_attempt worker token now seconds old)
                  db.jobs))
              (sym job_eq) (written old (start_attempt worker token now seconds old) db.jobs m)),
        λ stale j n.
            behind worker token now seconds old db.jobs stale j (subst (λ t. In j t) jobs_eq n),
      )

-- ===== src/Jobs/Final.antt =====
-- persistence/repositories/job.py and the job functions of the database: proofs about jobs that are
-- over.
use untangle.Base.{
  ℕ, ◌≡◌, refl, inl, inr, String, Bool, true, false, Option, none, some, Bool-cases, Option-cases,
  any, all, In, In-of_filter, if◌then◌else◌, arith,
}
use untangle.Base.Keys.{string_eq, int_eq, nat_eq, option_eq}
use untangle.Base.Flow.{Result, ok, err, bind_returned}
use untangle.Access.{TenantContext}
use untangle.Jobs.Defs.{
  constraints_ok, JobStatus, Job, Database, JobError, fencing, check_violation, commit,
  update_where, is_queued, is_running, holds_lease, parse_stage,
}
use untangle.Jobs.Repository.{
  update_jobs, update_stage, claim_candidate, this_job, enter_stage, complete, is_over,
  may_complete, complete_job_fenced,
}
use untangle.Jobs.Functions.{
  eligible, fn_job_claim_next, fn_job_heartbeat, fn_job_transition_stage, fn_job_fail,
  fn_job_cancel_ack,
}
use untangle.Jobs.Health.{IsHealthy, same_row, In-update_where}
use untangle.Jobs.Commits.{earliest-In}

-- If the operation is committed, the row is in the table that it leaves.
abbrev pub Keeps {ℓ} : {A : Type ℓ} → Job → Result JobError (Database × A) → Type ℓ
Keeps {A} j r = (out : Database × A) → r ≡ ok out → In j out.0.jobs

commit-Keeps {ℓ} :
    {A : Type ℓ} (j : Job) (db : Database) (a : A) → In j db.jobs → Keeps j (commit db a)
unfolding commit
commit-Keeps j db a m out e = elim (Bool-cases (all constraints_ok db.jobs)) [
  | inl t ↦ let same : db ≡ out.0 = ground (arith, rw (t, commit) at e) in rw (← same) m
  | inr f ↦ cc (rw (f, commit) at e)
]

same_database {ℓ} :
    {A : Type ℓ} (r out : Database × A)
    → ◌≡◌ {A = Result JobError (Database × A)} (ok r) (ok out)
    → r.0 ≡ out.0
same_database r out e = ground arith

pub over_not_running : (s : JobStatus) → is_over s ≡ true → is_running s ≡ false
over_not_running JobStatus.queued h = cc
over_not_running JobStatus.running h = cc
over_not_running JobStatus.completed h = refl
over_not_running JobStatus.failed h = refl
over_not_running JobStatus.cancelled h = refl

over_not_queued : (s : JobStatus) → is_over s ≡ true → is_queued s ≡ false
over_not_queued JobStatus.queued h = cc
over_not_queued JobStatus.running h = cc
over_not_queued JobStatus.completed h = refl
over_not_queued JobStatus.failed h = refl
over_not_queued JobStatus.cancelled h = refl

module _ (now : ℕ) (db : Database) (h : IsHealthy now db) (j : Job) (m : In j db.jobs)
    (over : is_over j.status ≡ true) where
  update_jobs-Keeps :
      (chosen : Job → Bool) (change : Job → Job)
      → chosen j ≡ false
      → Keeps j (update_jobs chosen change db)
  unfolding update_jobs
  update_jobs-Keeps chosen change free =
      commit-Keeps j (record db { jobs = update_where chosen change db.jobs }) (any chosen db.jobs)
        (In-update_where chosen change j db.jobs m free)

  lease_over :
      (job_id : ℕ) (token : String) (generation : ℕ) → holds_lease job_id token generation j ≡ false
  lease_over job_id token generation = ground (arith, over_not_running j.status over)

  claim_candidate-Keeps :
      (worker token : String) (seconds : ℕ) (o : Option Job)
      → ((c : Job) → o ≡ some c → this_job c j ≡ false)
      → Keeps j (claim_candidate worker token now seconds db o)
  unfolding claim_candidate
  claim_candidate-Keeps worker token seconds none free out e =
      rw (← same_database (db, none) out e) m
  claim_candidate-Keeps worker token seconds (some c) free out e =
      commit-Keeps j _ _ (In-update_where (this_job c) _ j db.jobs m (free c refl)) out e

  other_id : (c : Job) → In c db.jobs → eligible now c ≡ true → this_job c j ≡ false
  other_id c n fit = elim (Bool-cases (this_job c j)) [
    | inl t ↦
        let same : j ≡ c = same_row db.jobs j c h.ids m n (ground arith) in
        not_eligible (rw (← same) at fit)
    | inr f ↦ f
  ]
    where
      not_eligible : eligible now j ≡ true → this_job c j ≡ false
      not_eligible fit =
          ground (arith, over_not_running j.status over, over_not_queued j.status over)

  stage-Keeps :
      (job_id generation : ℕ) (token stage : String)
      → Keeps j (fn_job_transition_stage job_id token generation stage now db)
  unfolding fn_job_transition_stage update_stage
  stage-Keeps job_id generation token stage = elim (Option-cases (parse_stage stage)) [
    | inl e ↦
        rw (e, fn_job_transition_stage, update_stage)
          (unknown (any (holds_lease job_id token generation) db.jobs))
    | inr (known, e) ↦
        rw (e, fn_job_transition_stage, update_stage)
          (update_jobs-Keeps (holds_lease job_id token generation) (enter_stage known now)
            (lease_over job_id token generation))
  ]
    where
      unknown : (b : Bool) → Keeps j (if b then err check_violation else ok (db, false))
      unknown true out e = cc
      unknown false out e = rw (← same_database (db, false) out e) m

  -- In a database that is healthy, a job that is completed, failed or cancelled keeps its row when one
  -- of the database's functions fn_job_claim_next, fn_job_heartbeat, fn_job_transition_stage,
  -- fn_job_fail and fn_job_cancel_ack or the repository's complete_job_fenced is called, with whatever
  -- job, token and generation. The repository's emulations of the functions for SQLite are not part of
  -- this.
  pub finished_is_final :
      (job_id generation seconds : ℕ) (worker token code summary stage : String) (retryable : Bool)
      → Keeps j (fn_job_claim_next worker token now seconds db)
        × Keeps j (fn_job_heartbeat job_id token generation now seconds db)
        × Keeps j (fn_job_transition_stage job_id token generation stage now db)
        × Keeps j (fn_job_fail job_id token generation code summary retryable now db)
        × Keeps j (fn_job_cancel_ack job_id token generation now db)
        × ((context : TenantContext) (done : Database)
            → complete_job_fenced context job_id token generation now db ≡ ok done
            → In j done.jobs)
  unfolding fn_job_claim_next fn_job_heartbeat fn_job_fail fn_job_cancel_ack complete_job_fenced
  finished_is_final job_id generation seconds worker token code summary stage retryable =
      let free = lease_over job_id token generation in
      (
        claim_candidate-Keeps worker token seconds _ (λ c e.
            let (n, fit) = In-of_filter (eligible now) c db.jobs (earliest-In _ c e) in
            other_id c n fit),
        update_jobs-Keeps (holds_lease job_id token generation) _ free,
        stage-Keeps job_id generation token stage,
        update_jobs-Keeps (holds_lease job_id token generation) _ free,
        update_jobs-Keeps (holds_lease job_id token generation) _ free,
        λ context done e.
            let (r, updated, rest) =
              bind_returned
                (update_jobs (may_complete context job_id token generation) (complete now) db) _
                e in
            let kept =
              update_jobs-Keeps (may_complete context job_id token generation) (complete now)
                (ground arith) r updated in
            finish r done rest kept,
      )
    where
      finish :
          (r : Database × Bool) (done : Database)
          → (if r.1 then ok r.0 else err fencing) ≡ ok done
          → In j r.0.jobs
          → In j done.jobs
      finish r done e k = elim (Bool-cases r.1) [
        | inl t ↦ let same : r.0 ≡ done = ground (arith, rw t at e) in rw (← same) k
        | inr f ↦ cc (rw f at e)
      ]

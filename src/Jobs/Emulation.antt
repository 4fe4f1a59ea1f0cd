-- ===== src/Jobs/Emulation.antt =====
-- The SQLite side of fail_job against the PostgreSQL function: equal on a running job, and not on a
-- job that is over, since the SQLite side does not look at the status.
use untangle.Base.{
  find-In, ℕ, ◌<◌, ltb, ◌==◌, ◌≡◌, refl, ap, sym, ◌∙◌, inl, inr, String, Bool, true, false, ◌&&◌,
  some, Bool-cases, List, [], ◌∷◌, all, In, All-In, if◌then◌else◌, arith,
}
use untangle.Base.Keys.{string_eq, nat_eq, option_eq}
use untangle.Base.Flow.{ok}
use untangle.Jobs.Defs.{
  Job, Database, constraints_ok, commit, update_where, is_running, holds_fence, holds_lease,
}
use untangle.Jobs.Repository.{
  update_jobs, this_job, fail_for_good, requeue, get_job, is_over, is_permanent, FailReport,
  FailStatus, fail_found, fail_job,
}
use untangle.Jobs.Functions.{fail_row, fn_job_fail}
use untangle.Jobs.Health.{IsSound, IsHealthy, same_row, commit_sound, All-update_where}
use untangle.Jobs.Rows.{requeue-IsSound}
use untangle.Jobs.Final.{over_not_running}
use untangle.Jobs.Fencing.{update_jobs-none}

committed_jobs {ℓ} :
    {A : Type ℓ} (next : Database) (value : A) (out : Database × A)
    → commit next value ≡ ok out
    → out.0.jobs ≡ next.jobs
unfolding commit
committed_jobs next value out e = elim (Bool-cases (all constraints_ok next.jobs)) [
  | inl t ↦ ground (arith, rw (t, commit) at e)
  | inr f ↦ cc (rw (f, commit) at e)
]

-- Two UPDATEs that do the same to every row are the same.
update_where-ext :
    {A : Type 0} (c d : A → Bool) (f g : A → A) (xs : List A)
    → ((x : A) → In x xs → (if c x then f x else x) ≡ (if d x then g x else x))
    → update_where c f xs ≡ update_where d g xs
unfolding update_where
update_where-ext c d f g [] h = refl
update_where-ext c d f g (x ∷ xs) h =
    rw (h x (inl refl), update_where-ext c d f g xs (λ y m. h y (inr m))) refl

module _ (now : ℕ) (db : Database) (h : IsHealthy now db) (job_id generation : ℕ)
    (token code summary : String) (job : Job) (found : get_job job_id db ≡ some job)
    (fence : holds_fence job_id token generation job ≡ true) where
  abbrev lease : Job → Bool
  lease = holds_lease job_id token generation

  -- Only the row that `session.get` gives has the fence.
  one_row :
      (change : Job → Job) (new : Job)
      → is_running job.status ≡ true
      → change job ≡ new
      → update_where lease change db.jobs ≡ update_where (this_job job) (λ _. new) db.jobs
  one_row change new r e =
      let (m, _) = find-In (λ k. k.id == job_id) db.jobs job found in
      update_where-ext lease (this_job job) change (λ _. new) db.jobs
        (λ x n. elim (Bool-cases (this_job job x)) [
          | inl t ↦
              let same : x ≡ job = same_row db.jobs x job h.ids n m (ground arith) in
              let leased : lease x ≡ true = rw same (ground arith) in
              rw (t, leased) (ap change same ∙ e)
          | inr f ↦ let free : lease x ≡ false = ground arith in rw (f, free) refl
        ])

  -- On a running job the SQLite side of fail_job and the PostgreSQL function leave the same jobs.
  pub fail_job-fn_job_fail :
      (retryable : Bool) (a : Database × FailReport) (b : Database × Bool)
      → is_running job.status ≡ true
      → fail_job job_id token generation code summary retryable now db ≡ ok a
      → fn_job_fail job_id token generation code summary retryable now db ≡ ok b
      → a.0.jobs ≡ b.0.jobs
  unfolding fail_job fn_job_fail update_jobs fail_found
  fail_job-fn_job_fail retryable a b r ea eb =
      let same =
        one_row (fail_row job_id token generation code summary retryable now)
          (fail_row job_id token generation code summary retryable now job) r refl in
      elim (Bool-cases (is_permanent retryable job)) [
        | inl t ↦
            let row : fail_row job_id token generation code summary retryable now job
                ≡ fail_for_good code summary now job =
              permanent_row retryable t in
            committed_jobs _ _ a (rw (found, fence, t, fail_job, fail_found) at ea)
            ∙ ap (λ (n : Job). update_where (this_job job) (λ _. n) db.jobs) (sym row)
            ∙ sym same
            ∙ sym (committed_jobs _ _ b eb)
        | inr f ↦
            let row : fail_row job_id token generation code summary retryable now job
                ≡ requeue now job =
              requeued_row retryable f in
            committed_jobs _ _ a (rw (found, fence, f, fail_job, fail_found) at ea)
            ∙ ap (λ (n : Job). update_where (this_job job) (λ _. n) db.jobs) (sym row)
            ∙ sym same
            ∙ sym (committed_jobs _ _ b eb)
      ]
    where
      permanent_row :
          (retryable : Bool)
          → is_permanent retryable job ≡ true
          → fail_row job_id token generation code summary retryable now job
            ≡ fail_for_good code summary now job
      permanent_row retryable t =
          let no : (retryable && ltb job.attempt_count job.max_attempts) ≡ false = ground arith in
          rw (no, fail_row) refl

      requeued_row :
          (retryable : Bool)
          → is_permanent retryable job ≡ false
          → fail_row job_id token generation code summary retryable now job ≡ requeue now job
      requeued_row retryable f =
          let yes : (retryable && ltb job.attempt_count job.max_attempts) ≡ true = ground arith in
          rw (yes, fail_row) refl

  not_leased : is_over job.status ≡ true → (x : Job) → In x db.jobs → lease x ≡ false
  not_leased over x n = elim (Bool-cases (this_job job x)) [
    | inl t ↦
        let (m, _) = find-In (λ k. k.id == job_id) db.jobs job found in
        let same : x ≡ job = same_row db.jobs x job h.ids n m (ground arith) in
        rw same (ground (arith, over_not_running job.status over))
    | inr f ↦ ground arith
  ]

  -- A retryable failure that arrives for a job that is over and had an attempt left puts the job back
  -- into the queue on the SQLite side, while the PostgreSQL function changes nothing.
  pub fail_job_revives :
      is_over job.status ≡ true
      → job.attempt_count < job.max_attempts
      → (fail_job job_id token generation code summary true now db
          ≡ ok (
            record db { jobs = update_where (this_job job) (λ _. requeue now job) db.jobs },
            record {
              is_permanent_failure = false;
              new_status = FailStatus.queued;
              new_attempt_count = job.attempt_count;
            },
          ))
        × (fn_job_fail job_id token generation code summary true now db ≡ ok (db, false))
  unfolding fail_job fn_job_fail fail_found
  fail_job_revives over more =
      let (m, _) = find-In (λ k. k.id == job_id) db.jobs job found in
      let sound = All-In (IsSound now) job db.jobs h.sound m in
      let again : is_permanent true job ≡ false = ground arith in
      (
        rw (found, fence, again, fail_job, fail_found)
            (commit_sound now
              (record db { jobs = update_where (this_job job) (λ _. requeue now job) db.jobs }) _
              (All-update_where (this_job job) (λ _. requeue now job) (IsSound now) db.jobs
                (λ _ _ _ _. requeue-IsSound now job sound more) h.sound)),
        update_jobs-none now db h lease _ (not_leased over),
      )

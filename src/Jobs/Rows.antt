-- ===== src/Jobs/Rows.antt =====
-- The changes that the operations make to one row keep it sound.
use untangle.Base.{ℕ, ◌<◌, ◌≡◌, refl, inl, inr, ◌⊎◌, String, true, arith}
use untangle.Base.Keys.{string_eq, nat_eq}
use untangle.Access.{TenantContext}
use untangle.Jobs.Defs.{JobStatus, JobStage, Job, is_queued, is_running, holds_lease}
use untangle.Jobs.Repository.{
  beat, enter_stage, complete, start_attempt, fail_for_good, requeue, mark_cancelled,
}
use untangle.Jobs.Functions.{ack_row}
use untangle.Jobs.Health.{IsSound, is_open}

pub running_of : (s : JobStatus) → is_running s ≡ true → s ≡ JobStatus.running
running_of JobStatus.running h = refl
running_of JobStatus.queued h = cc
running_of JobStatus.completed h = cc
running_of JobStatus.failed h = cc
running_of JobStatus.cancelled h = cc

pub queued_of : (s : JobStatus) → is_queued s ≡ true → s ≡ JobStatus.queued
queued_of JobStatus.queued h = refl
queued_of JobStatus.running h = cc
queued_of JobStatus.completed h = cc
queued_of JobStatus.failed h = cc
queued_of JobStatus.cancelled h = cc

open_cases : (s : JobStatus) → is_open s ≡ true → (s ≡ JobStatus.queued) ⊎ (s ≡ JobStatus.running)
open_cases JobStatus.queued h = inl refl
open_cases JobStatus.running h = inr refl
open_cases JobStatus.completed h = cc
open_cases JobStatus.failed h = cc
open_cases JobStatus.cancelled h = cc

pub holds_lease-running :
    (job_id : ℕ) (token : String) (generation : ℕ) (j : Job)
    → holds_lease job_id token generation j ≡ true
    → is_running j.status ≡ true
holds_lease-running job_id token generation j h = ground arith

module _ (now : ℕ) (j : Job) (sound : IsSound now j) where
  pub beat-IsSound : (seconds : ℕ) → is_running j.status ≡ true → IsSound now (beat now seconds j)
  unfolding beat
  beat-IsSound seconds r =
      let e = running_of j.status r in
      record {
        checked = ground (arith, sound.checked);
        attempt_left = sound.attempt_left;
        past = sound.past;
        clean = sound.clean;
      }

  pub enter_stage-IsSound :
      (stage : JobStage) → is_running j.status ≡ true → IsSound now (enter_stage stage now j)
  unfolding enter_stage
  enter_stage-IsSound stage r =
      let e = running_of j.status r in
      record {
        checked = ground (arith, sound.checked);
        attempt_left = sound.attempt_left;
        past = sound.past;
        clean = sound.clean;
      }

  pub complete-IsSound : is_running j.status ≡ true → IsSound now (complete now j)
  unfolding complete
  complete-IsSound r =
      let e = running_of j.status r in
      let no_error = sound.clean (rw e refl) in
      record {
        checked = ground (arith, sound.checked, sound.past);
        attempt_left = λ h. cc;
        past = sound.past;
        clean = λ h. cc;
      }

  pub fail_for_good-IsSound :
      (code summary : String)
      → is_running j.status ≡ true
      → IsSound now (fail_for_good code summary now j)
  unfolding fail_for_good
  fail_for_good-IsSound code summary r =
      let e = running_of j.status r in
      record {
        checked = ground (arith, sound.checked, sound.past);
        attempt_left = λ h. cc;
        past = sound.past;
        clean = λ h. cc;
      }

  pub requeue-IsSound : j.attempt_count < j.max_attempts → IsSound now (requeue now j)
  unfolding requeue
  requeue-IsSound more = record {
    checked = ground arith;
    attempt_left = λ h. more;
    past = omega arith;
    clean = λ h. refl;
  }

  pub ack_row-IsSound :
      (job_id : ℕ) (token : String) (generation : ℕ)
      → is_running j.status ≡ true
      → IsSound now (ack_row job_id token generation now j)
  unfolding ack_row
  ack_row-IsSound job_id token generation r =
      let e = running_of j.status r in
      record {
        checked = ground (arith, sound.checked);
        attempt_left = λ h. cc;
        past = sound.past;
        clean = λ h. cc;
      }

  pub mark_cancelled-IsSound :
      (context : TenantContext)
      → is_running j.status ≡ true
      → IsSound now (mark_cancelled context now j)
  unfolding mark_cancelled
  mark_cancelled-IsSound context r =
      let e = running_of j.status r in
      record {
        checked = ground (arith, sound.checked);
        attempt_left = sound.attempt_left;
        past = sound.past;
        clean = sound.clean;
      }

  pub start_attempt-IsSound :
      (worker token : String) (seconds : ℕ)
      → is_open j.status ≡ true
      → j.attempt_count < j.max_attempts
      → IsSound now (start_attempt worker token now seconds j)
  unfolding start_attempt
  start_attempt-IsSound worker token seconds open_job more = elim (open_cases j.status open_job) [
    | inl e ↦ record {
      checked = ground (arith, sound.checked);
      attempt_left = λ h. cc;
      past = ground (arith, sound.past);
      clean = λ h. sound.clean open_job;
    }
    | inr e ↦ record {
      checked = ground (arith, sound.checked);
      attempt_left = λ h. cc;
      past = ground (arith, sound.past);
      clean = λ h. sound.clean open_job;
    }
  ]

-- ===== src/Jobs/Commits.antt =====
-- On a healthy jobs table no operation of a worker violates a constraint, and the table stays healthy.
use untangle.Base.{
  ℕ, leb, ◌≡◌, ◌∙◌, inl, inr, some, Bool-cases, Option-cases, List, [], ◌∷◌, In, arith,
}
use untangle.Base.Flow.{Result, ok}
use untangle.Jobs.Defs.{Job, Database, JobError}
use untangle.Jobs.Repository.{earliest}
use untangle.Jobs.Health.{IsHealthy}

-- The operation is committed, and leaves a healthy table.
abbrev pub Commits {ℓ} : {A : Type ℓ} → ℕ → Result JobError (Database × A) → Type ℓ
Commits {A} now r = (out : Database × A) × (r ≡ ok out) × IsHealthy now out.0

pub earliest-In : (jobs : List Job) (j : Job) → earliest jobs ≡ some j → In j jobs
unfolding earliest
earliest-In [] j h = cc
earliest-In (k ∷ ks) j h = elim (Option-cases (earliest ks)) [
  | inl e ↦ inl (ground (arith, rw (e, earliest) at h))
  | inr (l, e) ↦ elim (Bool-cases (leb k.scheduled_at l.scheduled_at)) [
    | inl first ↦ inl (ground (arith, rw (e, first, earliest) at h))
    | inr later ↦ inr (earliest-In ks j (e ∙ rw (e, later, earliest) at h))
  ]
]

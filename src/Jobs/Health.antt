-- ===== src/Jobs/Health.antt =====
-- The invariant of the jobs table, and the rule by which an UPDATE keeps it.
use untangle.Base.{
  ℕ, ◌≤◌, ◌<◌, ◌≡◌, refl, ap, sym, ◌∙◌, inl, inr, ◌⊎◌, Bool, true, false, Option, none, some,
  Bool-cases, List, [], ◌∷◌, map, all, any, In, In-map, All,
}
use untangle.Base.Keys.{Nodup, string_eq, nat_eq}
use untangle.Base.Dicts.{not_In}
use untangle.Base.Flow.{ok}
use untangle.Jobs.Defs.{JobStatus, Job, Database, constraints_ok, commit, update_where, is_queued}
use untangle.Jobs.Repository.{update_jobs}

-- Waiting for a worker, or with one.
abbrev pub is_open : JobStatus → Bool
is_open JobStatus.queued = true
is_open JobStatus.running = true
is_open _ = false

abbrev pub or_start : Option ℕ → ℕ
or_start none = 0
or_start (some t) = t

-- A row as the operations leave it: it meets the constraints, a queued job has an attempt left, no
-- attempt has started in the future, and a job that is not over has no error.
pub record IsSound (now : ℕ) (j : Job) : Type 0 where
  pub checked : constraints_ok j ≡ true
  pub attempt_left : is_queued j.status ≡ true → j.attempt_count < j.max_attempts
  pub past : or_start j.started_at ≤ now
  pub clean : is_open j.status ≡ true → j.error_code ≡ none

pub record IsHealthy (now : ℕ) (db : Database) : Type 0 where
  pub sound : All (IsSound now) db.jobs
  pub ids : Nodup (map (λ (j : Job). j.id) db.jobs)

all_checked : (now : ℕ) (jobs : List Job) → All (IsSound now) jobs → all constraints_ok jobs ≡ true
all_checked now [] h = refl
all_checked now (j ∷ js) h = rw (h.0.checked, all_checked now js h.1) refl

pub commit_sound {ℓ} :
    {A : Type ℓ} (now : ℕ) (db : Database) (a : A)
    → All (IsSound now) db.jobs
    → commit db a ≡ ok (db, a)
unfolding commit
commit_sound now db a h = rw (all_checked now db.jobs h) refl

module _ {A : Type 0} (chosen : A → Bool) (change : A → A) where
  pub In-of_update_where :
      (y : A) (xs : List A)
      → In y (update_where chosen change xs)
      → (x : A) × In x xs × (((chosen x ≡ true) × (y ≡ change x)) ⊎ ((chosen x ≡ false) × (y ≡ x)))
  unfolding update_where
  In-of_update_where y [] m = elim m [ ]
  In-of_update_where y (x ∷ xs) (inl e) = elim (Bool-cases (chosen x)) [
    | inl t ↦ (x, inl refl, inl (t, rw t at e))
    | inr f ↦ (x, inl refl, inr (f, rw f at e))
  ]
  In-of_update_where y (x ∷ xs) (inr m) = let (z, n, r) = In-of_update_where y xs m in (z, inr n, r)

  -- A row that is not chosen stays.
  pub In-update_where :
      (x : A) (xs : List A) → In x xs → chosen x ≡ false → In x (update_where chosen change xs)
  unfolding update_where
  In-update_where x [] m h = elim m [ ]
  In-update_where x (y ∷ ys) (inl e) h = inl (e ∙ rw (rw e at h) refl)
  In-update_where x (y ∷ ys) (inr m) h = inr (In-update_where x ys m h)

  pub update_where_none :
      (xs : List A)
      → ((x : A) → In x xs → chosen x ≡ false)
      → (update_where chosen change xs ≡ xs) × (any chosen xs ≡ false)
  unfolding update_where
  update_where_none [] h = (refl, refl)
  update_where_none (x ∷ xs) h =
      let (same, none_there) = update_where_none xs (λ y m. h y (inr m)) in
      (rw (h x (inl refl), same) refl, rw (h x (inl refl), none_there) refl)

  pub map-update_where :
      {B : Type 0} (f : A → B) (xs : List A)
      → ((x : A) → chosen x ≡ true → f (change x) ≡ f x)
      → map f (update_where chosen change xs) ≡ map f xs
  unfolding update_where
  map-update_where f [] h = refl
  map-update_where f (x ∷ xs) h = elim (Bool-cases (chosen x)) [
    | inl t ↦ rw (t, h x t, map-update_where f xs h) refl
    | inr g ↦ rw (g, map-update_where f xs h) refl
  ]

  pub All-update_where {κ} :
      (P : A → Type κ) (xs : List A)
      → ((x : A) → In x xs → chosen x ≡ true → P x → P (change x))
      → All P xs
      → All P (update_where chosen change xs)
  unfolding update_where
  All-update_where P [] step h = tt
  All-update_where P (x ∷ xs) step h = (
    elim (Bool-cases (chosen x)) [ inl t ↦ rw t (step x (inl refl) t h.0) | inr f ↦ rw f h.0 ],
    All-update_where P xs (λ y m. step y (inr m)) h.1,
  )

-- Two rows with one id are the same row.
pub same_row :
    (jobs : List Job) (i j : Job)
    → Nodup (map (λ (k : Job). k.id) jobs)
    → In i jobs
    → In j jobs
    → i.id ≡ j.id
    → i ≡ j
same_row [] i j d m n e = elim m [ ]
same_row (k ∷ ks) i j d (inl p) (inl q) e = p ∙ sym q
same_row (k ∷ ks) i j d (inl p) (inr n) e = absurd (
    not_In k.id (map (λ (t : Job). t.id) ks) d.0
      (rw (sym (ap (λ (t : Job). t.id) p) ∙ e) (In-map (λ (t : Job). t.id) j ks n)))
same_row (k ∷ ks) i j d (inr m) (inl q) e = absurd (
    not_In k.id (map (λ (t : Job). t.id) ks) d.0
      (rw (sym (ap (λ (t : Job). t.id) q) ∙ sym e) (In-map (λ (t : Job). t.id) i ks m)))
same_row (k ∷ ks) i j d (inr m) (inr n) e = same_row ks i j d.1 m n e

-- A change that keeps the chosen rows sound is committed, and the table stays healthy.
pub update_jobs-IsHealthy :
    (now : ℕ) (chosen : Job → Bool) (change : Job → Job) (db : Database)
    → IsHealthy now db
    → ((j : Job) → In j db.jobs → chosen j ≡ true → IsSound now j → IsSound now (change j))
    → ((j : Job) → chosen j ≡ true → (change j).id ≡ j.id)
    → (db' : Database) × (update_jobs chosen change db ≡ ok (db', any chosen db.jobs))
      × (db' ≡ record db { jobs = update_where chosen change db.jobs })
      × IsHealthy now db'
unfolding update_jobs
update_jobs-IsHealthy now chosen change db h step keeps_id =
    let after = record db { jobs = update_where chosen change db.jobs } in
    let sound = All-update_where chosen change (IsSound now) db.jobs step h.sound in
    (
      after,
      commit_sound now after (any chosen db.jobs) sound,
      refl,
      record {
        sound = sound;
        ids = rw (map-update_where chosen change (λ (j : Job). j.id) db.jobs keeps_id) h.ids;
      },
    )

-- ===== src/Jobs/Drain.antt =====
-- About `process_message` and `run_worker` of scripts/worker.py: how many rounds a queue takes.
use lead_generation_api_zyla.Prelude.{
  ℕ, zero, suc, ◌+◌, ◌-◌, ◌≤◌, ◌<◌, ◌*◌, String, Bool, true, false, ◌==◌, ◌≡◌, refl, sym, ◌∙◌,
  subst, ap, Option, none, some, List, [], ◌∷◌, ◌++◌, if◌then◌else◌, find, length, update_where,
  leb, arith, eq_iff, Bool-cases, inl, inr,
}
use lead_generation_api_zyla.Errors.{Raised, Result, ok, err}
use lead_generation_api_zyla.Exec.{Exec, Leaves}
use lead_generation_api_zyla.Env.{Env}
use lead_generation_api_zyla.Models.{BackgroundJob, Db}
use lead_generation_api_zyla.Jobs.{
  Report, QueueMessage, failed, succeeded, run_retention_cleanup, execute_job, set_job,
  after_failure, conclude, attempt, process_found, process_message, drain,
}

-- the attempts that the database holds for a job
tried : String → List BackgroundJob → ℕ
tried id [] = 0
tried id (j ∷ jobs) = let rest = tried id jobs in if j.id == id then j.attempts else rest

-- An update that keeps the attempts of every job.
tried-still :
    (id k : String) (f : BackgroundJob → BackgroundJob) (jobs : List BackgroundJob)
    → ((j : BackgroundJob) → (f j).id ≡ j.id)
    → ((j : BackgroundJob) → (f j).attempts ≡ j.attempts)
    → tried id (update_where (λ j. j.id == k) f jobs) ≡ tried id jobs
unfolding tried
tried-still id k f [] same still = refl
tried-still id k f (j ∷ jobs) same still = elim (Bool-cases (j.id == k)) [
  | inl e ↦ rw (e, same j, still j, tried-still id k f jobs same still) refl
  | inr e ↦ rw (e, tried-still id k f jobs same still) refl
]

module _ (now : ℕ) where
  start : BackgroundJob → BackgroundJob
  start j = record j { status = "RUNNING"; attempts = suc j.attempts; updated_at = now }

  -- A start takes back no attempt of any job.
  tried-started :
      (id k : String) (jobs : List BackgroundJob)
      → tried id jobs ≤ tried id (update_where (λ j. j.id == k) start jobs)
  unfolding tried start
  tried-started id k [] = omega arith
  tried-started id k (j ∷ jobs) =
      ground (arith, tried-started id k jobs, Bool-cases (j.id == k), Bool-cases (j.id == id))

  -- It adds one to the job that is started.
  tried-found :
      (k : String) (jobs : List BackgroundJob) (job : BackgroundJob)
      → find (λ j. j.id == k) jobs ≡ some job
      → tried k (update_where (λ j. j.id == k) start jobs) ≡ suc job.attempts
  unfolding tried start
  tried-found k [] job h = cc
  tried-found k (j ∷ jobs) job h = elim (Bool-cases (j.id == k)) [
    | inl e ↦ ground arith
    | inr e ↦ ground (arith, tried-found k jobs job)
  ]

  tried-of :
      (k : String) (jobs : List BackgroundJob) (job : BackgroundJob)
      → find (λ j. j.id == k) jobs ≡ some job
      → tried k jobs ≡ job.attempts
  unfolding tried
  tried-of k [] job h = cc
  tried-of k (j ∷ jobs) job h = elim (Bool-cases (j.id == k)) [
    | inl e ↦ ground arith
    | inr e ↦ ground (arith, tried-of k jobs job)
  ]

asks_again :
    (max_attempts attempts : ℕ)
    → ((if leb max_attempts attempts then "FAILED" else "QUEUED") == "QUEUED") ≡ true
    → attempts < max_attempts
asks_again max_attempts attempts h = elim (Bool-cases (leb max_attempts attempts)) [
  | inl e ↦
      (let never : false ≡ true =
          subst (λ b. ((if b then "FAILED" else "QUEUED") == "QUEUED") ≡ true) e h in
        cc)
  | inr e ↦ ground arith
]

pub find-id :
    (k : String) (jobs : List BackgroundJob) (job : BackgroundJob)
    → find (λ j. j.id == k) jobs ≡ some job
    → job.id ≡ k
find-id k [] job h = cc
find-id k (j ∷ jobs) job h = elim (Bool-cases (j.id == k)) [
  | inl e ↦ ground (arith, eq_iff j.id k)
  | inr e ↦ find-id k jobs job (ground arith)
]

module _ (now : ℕ) (describe : Raised → String) (execute : BackgroundJob → Exec Db Report)
    (max_attempts : ℕ)
    (keeps_jobs : (job : BackgroundJob)
      → Leaves (λ (db : Db). db.background_jobs) (execute job)) where
  -- what one delivery does to the attempts
  record Step (m : QueueMessage) (db : Db) (p : (Bool × Bool) × Db) : Type 0 where
    keeps : (id : String) → tried id db.background_jobs ≤ tried id p.1.background_jobs
    retries :
        p.0.1 ≡ true
        → (tried m.job_id p.1.background_jobs ≡ suc (tried m.job_id db.background_jobs))
          × (tried m.job_id p.1.background_jobs < max_attempts)

  conclude-tried :
      (id : String) (job : BackgroundJob) (p : Result Report × Db)
      → tried id (conclude now describe execute max_attempts job p).1.background_jobs
        ≡ tried id p.1.background_jobs
  conclude-tried id job (ok _, db) =
      tried-still id job.id (succeeded now describe execute max_attempts) db.background_jobs
        (λ j. refl) (λ j. refl)
  conclude-tried id job (err e, db) =
      tried-still id job.id
        (failed now describe execute max_attempts
          (after_failure now describe execute max_attempts job.attempts) e)
        db.background_jobs (λ j. refl) (λ j. refl)

  conclude-retries :
      (job : BackgroundJob) (p : Result Report × Db)
      → (conclude now describe execute max_attempts job p).0.1 ≡ true
      → job.attempts < max_attempts
  conclude-retries job (ok _, db) h = cc
  conclude-retries job (err e, db) h = asks_again max_attempts job.attempts h

  attempt-tried :
      (id : String) (job : BackgroundJob) (db : Db)
      → tried id (attempt now describe execute max_attempts job db).1.background_jobs
        ≡ tried id (update_where (λ j. j.id == job.id) (start now) db.background_jobs)
  unfolding start
  attempt-tried id job db =
      conclude-tried id (start now job)
        (execute (start now job) (set_job now describe execute max_attempts job.id (start now) db))
      ∙ ap (tried id) (
          (keeps_jobs (start now job)).at
            (set_job now describe execute max_attempts job.id (start now) db))

  attempt-Step :
      (m : QueueMessage) (db : Db) (job : BackgroundJob)
      → find (λ j. j.id == m.job_id) db.background_jobs ≡ some job
      → Step m db (attempt now describe execute max_attempts job db)
  unfolding start
  attempt-Step m db job h =
      let same = find-id m.job_id db.background_jobs job h in
      let again : tried m.job_id
            (attempt now describe execute max_attempts job db).1.background_jobs
          ≡ suc job.attempts =
        attempt-tried m.job_id job db
        ∙ subst
            (λ k.
              tried m.job_id (update_where (λ j. j.id == k) (start now) db.background_jobs)
              ≡ suc job.attempts)
            (sym same) (tried-found now m.job_id db.background_jobs job h) in
      record {
        keeps = λ id. rw (attempt-tried id job db) (tried-started now id job.id db.background_jobs);
        retries = λ r.
            let fewer =
              conclude-retries (start now job)
                (execute (start now job)
                  (set_job now describe execute max_attempts job.id (start now) db))
                r in
            let before = tried-of now m.job_id db.background_jobs job h in
            (omega (arith), omega (arith));
      }

  found-Step :
      (m : QueueMessage) (db : Db) (found : Option BackgroundJob)
      → find (λ j. j.id == m.job_id) db.background_jobs ≡ found
      → Step m db (process_found now describe execute max_attempts found db)
  found-Step m db none h = record { keeps = λ id. omega arith; retries = λ r. cc }
  found-Step m db (some job) h = elim (Bool-cases (job.status == "SUCCEEDED")) [
    | inl e ↦ rw e (record { keeps = λ id. omega arith; retries = λ r. cc })
    | inr e ↦ rw e (attempt-Step m db job h)
  ]

  process-Step :
      (m : QueueMessage) (db : Db)
      → Step m db (process_message now describe execute max_attempts m db)
  unfolding process_message
  process-Step m db = found-Step m db (find (λ j. j.id == m.job_id) db.background_jobs) refl

  -- the deliveries that a queue can still cause
  pub work : List QueueMessage → Db → ℕ
  work [] db = 0
  work (m ∷ queue) db = suc (max_attempts - tried m.job_id db.background_jobs) + work queue db

  work-append :
      (queue : List QueueMessage) (m : QueueMessage) (db : Db)
      → work (queue ++ m ∷ []) db
        ≡ work queue db + suc (max_attempts - tried m.job_id db.background_jobs)
  unfolding work
  work-append [] m db = omega arith
  work-append (x ∷ queue) m db = omega (arith, work-append queue m db)

  work-later :
      (queue : List QueueMessage) (db db' : Db)
      → ((id : String) → tried id db.background_jobs ≤ tried id db'.background_jobs)
      → work queue db' ≤ work queue db
  unfolding work
  work-later [] db db' h = omega arith
  work-later (m ∷ queue) db db' h = omega (arith, work-later queue db db' h, h m.job_id)

  requeued :
      (m : QueueMessage) (queue : List QueueMessage) (db : Db) (p : (Bool × Bool) × Db)
      → Step m db p
      → work (if p.0.1 then queue ++ m ∷ [] else queue) p.1 < work (m ∷ queue) db
  unfolding work
  requeued m queue db ((_, true), db') s =
      omega (arith, work-append queue m db', work-later queue db db' s.keeps, s.retries refl)
  requeued m queue db ((_, false), db') s = omega (arith, work-later queue db db' s.keeps)

  work-le : (queue : List QueueMessage) (db : Db) → work queue db ≤ length queue * suc max_attempts
  unfolding work
  work-le [] db = omega arith
  work-le (m ∷ queue) db = omega (arith, work-le queue db)

  no_work : (m : QueueMessage) (queue : List QueueMessage) (db : Db) → work (m ∷ queue) db ≤ 0 → ⊥
  unfolding work
  no_work m queue db h = omega arith

  worked :
      (fuel : ℕ) (queue : List QueueMessage) (db : Db)
      → work queue db ≤ fuel
      → (db' : Db) × (drain now describe execute max_attempts fuel queue db ≡ some db')
  unfolding drain
  worked fuel [] db h = (db, refl)
  worked zero (m ∷ queue) db h = elim (no_work m queue db h) [ ]
  worked (suc fuel) (m ∷ queue) db h =
      let p = process_message now describe execute max_attempts m db in
      let less = requeued m queue db p (process-Step m db) in
      worked fuel (if p.0.1 then queue ++ m ∷ [] else queue) p.1 (omega arith)

  -- If a job's run leaves the jobs table alone, then the worker empties any queue that nobody else
  -- fills, however its jobs fail: as many rounds are enough as there are messages times one more
  -- than `max_attempts`.
  pub drain_returns :
      (fuel : ℕ) (queue : List QueueMessage) (db : Db)
      → length queue * suc max_attempts ≤ fuel
      → (db' : Db) × (drain now describe execute max_attempts fuel queue db ≡ some db')
  drain_returns fuel queue db h = worked fuel queue db (omega (arith, work-le queue db))

-- `execute_job` leaves the jobs table alone, whatever the job.
pub execute_job-Leaves :
    (env : Env) (retention : ℕ) (job : BackgroundJob)
    → Leaves (λ (db : Db). db.background_jobs) (execute_job env retention job)
unfolding execute_job run_retention_cleanup
execute_job-Leaves env retention job = record { at = λ db. ground arith }

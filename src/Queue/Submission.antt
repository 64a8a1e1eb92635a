-- ===== src/Queue/Submission.antt =====
-- `submit_job` of app/jobs.py and `create_job` of app/main.py on the Redis queue; `class_name` is `type(exc).__name__`.
use lead_generation_api_zyla.Prelude.{
  ℕ, ◌+◌, ◌<◌, String, false, some, ◌||◌, if◌then◌else◌, ◌==◌, ◌≡◌, ◌≢◌, refl, sym, subst, Option,
  List, [], ◌∷◌, ◌++◌, All, All-append, update_where, ◌⊎◌, inl, inr, Bool-cases, arith, eq_iff,
}
use lead_generation_api_zyla.Errors.{Raised, Result, ok, err, app_error}
use lead_generation_api_zyla.Exec.{Exec}
use lead_generation_api_zyla.Env.{Env}
use lead_generation_api_zyla.Models.{BackgroundJob, Db}
use lead_generation_api_zyla.Jobs.{QueueMessage}
use lead_generation_api_zyla.Operations.{
  new_job, create_job_record, queue_failed, mark_job_failed, job_response,
}
use lead_generation_api_zyla.Security.{AuthContext, require_scope}
use lead_generation_api_zyla.Schemas.Operations.{JobResponse}
use lead_generation_api_zyla.Operations.Delivery.{AreDistinct, ids, ids-update}
use lead_generation_api_zyla.Queue.Entries.{Entry}
use lead_generation_api_zyla.Queue.{Commands, enqueue}
use lead_generation_api_zyla.Queue.Laws.{IsStream, enqueue-Quiet}
use lead_generation_api_zyla.Queue.Messages.{Gives, Waits, enqueue-Waits}
use lead_generation_api_zyla.Queue.Covered.{IsCovered, AllCovered, covered-le, Quiet-Covered}

module _ {S : Type 0} (redis : Commands S) (env : Env) (class_name : Raised → String) where
  -- the rest of `submit_job`, after `queue.enqueue`
  abbrev pub enqueued : BackgroundJob → Db → Result String × S → Result BackgroundJob × (S × Db)
  enqueued job db (ok _, s) = (ok job, (s, db))
  enqueued job db (err exc, s) = (err exc, (s, mark_job_failed env job.id (class_name exc) db))

  -- `submit_job`
  unfoldable pub submit_job_redis : String → Option String → Exec (S × Db) BackgroundJob
  submit_job_redis kind tenant_id (s, db) =
      let job = new_job env kind tenant_id (env.uuid db.catalog.drawn) in
      enqueued job (create_job_record env job db)
        (enqueue redis (record { job_id = job.id; kind = job.kind }) s)

  abbrev pub created : Result BackgroundJob × (S × Db) → Result JobResponse × (S × Db)
  created (ok job, w) = (ok (job_response job), w)
  created (err exc, w) =
      (err (app_error "QUEUE_UNAVAILABLE" "The background queue is unavailable." 503), w)

  abbrev pub if_known_redis : String → AuthContext → Exec (S × Db) JobResponse
  if_known_redis kind context w =
      if (kind == "retention_cleanup") || (kind == "credit_reconciliation")
      then created (submit_job_redis kind (some context.tenant_id) w)
      else (err (app_error "INVALID_JOB" "Unsupported job kind." 422), w)

  abbrev pub if_scoped_redis : String → AuthContext → Result (Unit {0}) → Exec (S × Db) JobResponse
  if_scoped_redis kind context (err e) w = (err e, w)
  if_scoped_redis kind context (ok _) w = if_known_redis kind context w

  -- `create_job`
  unfoldable pub create_job_redis : String → AuthContext → Exec (S × Db) JobResponse
  create_job_redis kind context w =
      if_scoped_redis kind context (require_scope context "jobs:write") w

distinct-append :
    (xs : List String) (x : String)
    → AreDistinct xs
    → All (λ y. y ≢ x) xs
    → AreDistinct (xs ++ x ∷ [])
distinct-append [] x u h = (tt, tt)
distinct-append (y ∷ xs) x (others, u) (ne, h) =
    (All-append (λ z. z ≢ y) xs (x ∷ []) others ((λ e. ne (sym e)), tt), distinct-append xs x u h)

ids-append :
    (jobs : List BackgroundJob) (job : BackgroundJob)
    → ids (jobs ++ job ∷ []) ≡ ids jobs ++ job.id ∷ []
ids-append [] job = refl
ids-append (j ∷ jobs) job = rw (ids-append jobs job) refl

module _ {S : Type 0} (posted : S → Entry → Type 0) (held : S → ℕ → Entry → Type 0)
    (acked : S → String → Type 0) (redis : Commands S) (stream : IsStream posted held acked redis)
    (env : Env) (class_name : Raised → String) (b : ℕ) where
  -- jobs that are covered but for those of one id, which are marked as failed
  marked-IsCovered :
      (s : S) (id error_type : String) (jobs : List BackgroundJob)
      → All (λ j. IsCovered posted held acked redis stream b s j ⊎ (j.id ≡ id)) jobs
      → All
          (IsCovered posted held acked redis stream b s)
          (update_where (λ j. j.id == id) (queue_failed env error_type) jobs)
  marked-IsCovered s id error_type [] c = tt
  marked-IsCovered s id error_type (j ∷ jobs) (p, c) = elim (Bool-cases (j.id == id)) [
    | inl e ↦ rw e (inl (inr refl), marked-IsCovered s id error_type jobs c)
    | inr e ↦ rw e (other p e, marked-IsCovered s id error_type jobs c)
  ]
    where
      other :
          IsCovered posted held acked redis stream b s j ⊎ (j.id ≡ id)
          → (j.id == id) ≡ false
          → IsCovered posted held acked redis stream b s j
      other (inl q) e = q
      other (inr own) e = absurd (ground (arith, eq_iff j.id id))

  either-IsCovered :
      (s : S) (id : String) (jobs : List BackgroundJob)
      → All (IsCovered posted held acked redis stream b s) jobs
      → All (λ j. IsCovered posted held acked redis stream b s j ⊎ (j.id ≡ id)) jobs
  either-IsCovered s id [] c = tt
  either-IsCovered s id (j ∷ jobs) (p, c) = (inl p, either-IsCovered s id jobs c)

  enqueued-Covered :
      (job : BackgroundJob) (db : Db) (p : Result String × S)
      → AreDistinct (ids db.background_jobs)
      → All (λ y. y ≢ job.id) (ids db.background_jobs)
      → All (IsCovered posted held acked redis stream b p.1) db.background_jobs
      → Gives posted held acked (λ s' id. Waits posted held acked redis stream b s' job.id) p
      → AllCovered posted held acked redis stream b
          (enqueued redis env class_name job (create_job_record env job db) p).1
  enqueued-Covered job db (ok id, s) u fresh c w = record {
    distinct =
        subst AreDistinct (sym (ids-append db.background_jobs job))
          (distinct-append (ids db.background_jobs) job.id u fresh);
    covered =
        All-append (IsCovered posted held acked redis stream b s) db.background_jobs (job ∷ []) c
          (inr w, tt);
  }
  enqueued-Covered job db (err x, s) u fresh c w = record {
    distinct =
        subst AreDistinct
          (sym (
            ids-update (λ j. j.id == job.id) (queue_failed env (class_name x))
              (db.background_jobs ++ job ∷ []) (λ j. refl)))
          (subst AreDistinct (sym (ids-append db.background_jobs job))
            (distinct-append (ids db.background_jobs) job.id u fresh));
    covered = marked-IsCovered s job.id (class_name x) (db.background_jobs ++ job ∷ []) (
        All-append (λ j. IsCovered posted held acked redis stream b s j ⊎ (j.id ≡ job.id))
          db.background_jobs (job ∷ []) (either-IsCovered s job.id db.background_jobs c)
          (inr refl, tt));
  }

  submit_job_redis-AllCovered :
      (kind : String) (tenant_id : Option String) (s : S) (db : Db)
      → b < 10000
      → All (λ y. y ≢ env.uuid db.catalog.drawn) (ids db.background_jobs)
      → AllCovered posted held acked redis stream (1 + b) (s, db)
      → AllCovered posted held acked redis stream b
          (submit_job_redis redis env class_name kind tenant_id (s, db)).1
  unfolding submit_job_redis
  submit_job_redis-AllCovered kind tenant_id s db room fresh h =
      let job = new_job env kind tenant_id (env.uuid db.catalog.drawn) in
      let m : QueueMessage = record { job_id = job.id; kind = job.kind } in
      enqueued-Covered job db (enqueue redis m s) h.distinct fresh
        (Quiet-Covered posted held acked redis stream 1 b (enqueue redis m) s db.background_jobs
          (enqueue-Quiet posted held acked redis stream m) h.covered)
        (enqueue-Waits posted held acked redis stream b m s room)

  created-AllCovered :
      (p : Result BackgroundJob × (S × Db))
      → AllCovered posted held acked redis stream b p.1
      → AllCovered posted held acked redis stream b (created redis env class_name p).1
  created-AllCovered (ok job, w) h = h
  created-AllCovered (err exc, w) h = h

  known-AllCovered :
      (kind : String) (context : AuthContext) (s : S) (db : Db)
      → b < 10000
      → All (λ y. y ≢ env.uuid db.catalog.drawn) (ids db.background_jobs)
      → AllCovered posted held acked redis stream (1 + b) (s, db)
      → AllCovered posted held acked redis stream b
          (if_known_redis redis env class_name kind context (s, db)).1
  known-AllCovered kind context s db room fresh h =
      elim (Bool-cases ((kind == "retention_cleanup") || (kind == "credit_reconciliation"))) [
        | inl e ↦ rw e (
            created-AllCovered
              (submit_job_redis redis env class_name kind (some context.tenant_id) (s, db))
              (submit_job_redis-AllCovered kind (some context.tenant_id) s db room fresh h))
        | inr e ↦ rw e (covered-le posted held acked redis stream (1 + b) b (s, db) (omega arith) h)
      ]

  scoped-AllCovered :
      (kind : String) (context : AuthContext) (q : Result (Unit {0})) (s : S) (db : Db)
      → b < 10000
      → All (λ y. y ≢ env.uuid db.catalog.drawn) (ids db.background_jobs)
      → AllCovered posted held acked redis stream (1 + b) (s, db)
      → AllCovered posted held acked redis stream b
          (if_scoped_redis redis env class_name kind context q (s, db)).1
  scoped-AllCovered kind context (err e) s db room fresh h =
      covered-le posted held acked redis stream (1 + b) b (s, db) (omega arith) h
  scoped-AllCovered kind context (ok _) s db room fresh h =
      known-AllCovered kind context s db room fresh h

  -- Where the ids of jobs are distinct and every job is SUCCEEDED, is FAILED, or has a message in the
  -- stream that the group has not acknowledged and that stays among the youngest 10000 entries when
  -- `1 + b` more are added, it is so, for `b` more, after a request to create a job, whatever its answer, if
  -- the uuid that is drawn is no job's id; a job that the queue did not take is kept as FAILED. It is
  -- assumed that the commands of Redis do what their documentation says, XADD trimming down to no less
  -- than its `maxlen` youngest entries.
  pub create_job_redis-AllCovered :
      (kind : String) (context : AuthContext) (s : S) (db : Db)
      → b < 10000
      → All (λ y. y ≢ env.uuid db.catalog.drawn) (ids db.background_jobs)
      → AllCovered posted held acked redis stream (1 + b) (s, db)
      → AllCovered posted held acked redis stream b
          (create_job_redis redis env class_name kind context (s, db)).1
  unfolding create_job_redis
  create_job_redis-AllCovered kind context s db room fresh h =
      scoped-AllCovered kind context (require_scope context "jobs:write") s db room fresh h

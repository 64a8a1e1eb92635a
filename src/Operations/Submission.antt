-- ===== src/Operations/Submission.antt =====
-- About `create_job` of app/main.py and `submit_job` of app/jobs.py: the rows and the queue.
use lead_generation_api_zyla.Prelude.{
  String, Bool, true, false, ◌||◌, ◌==◌, ◌≡◌, ◌≢◌, refl, Option, none, some, List, [], ◌∷◌, ◌++◌,
  All, All-append, any, update_where, ◌⊎◌, Bool-cases, inl, inr, arith, eq_iff,
}
use lead_generation_api_zyla.Errors.{Result, ok, err}
use lead_generation_api_zyla.Env.{Env}
use lead_generation_api_zyla.Models.{BackgroundJob, Db}
use lead_generation_api_zyla.Jobs.{QueueMessage}
use lead_generation_api_zyla.Security.{AuthContext, require_scope}
use lead_generation_api_zyla.Operations.{
  new_job, create_job_record, queue_failed, submitted, submit_job, job_created, if_known, if_scoped,
  create_job,
}

-- a message is in the queue for a job
abbrev pub has_message : List QueueMessage → BackgroundJob → Bool
has_message queue job = any (λ m. m.job_id == job.id) queue

-- a job that waits has a message
abbrev pub IsSent : List QueueMessage → BackgroundJob → Type 0
IsSent queue job = (job.status ≢ "QUEUED") ⊎ (has_message queue job ≡ true)

-- no job waits that no worker will be given
abbrev pub AreSent : Db × List QueueMessage → Type 0
AreSent (db, queue) = All (IsSent queue) db.background_jobs

pub any-append :
    (p : QueueMessage → Bool) (queue more : List QueueMessage)
    → any p (queue ++ more) ≡ any p queue || any p more
any-append p [] more = refl
any-append p (m ∷ queue) more = ground (arith, any-append p queue more)

-- a longer queue
pub IsSent-later :
    (queue more : List QueueMessage) (jobs : List BackgroundJob)
    → All (IsSent queue) jobs
    → All (IsSent (queue ++ more)) jobs
IsSent-later queue more [] h = tt
IsSent-later queue more (j ∷ jobs) (inl waits, h) = (inl waits, IsSent-later queue more jobs h)
IsSent-later queue more (j ∷ jobs) (inr sent, h) = (
  inr (rw (any-append (λ m. m.job_id == j.id) queue more, sent) refl),
  IsSent-later queue more jobs h,
)

module _ (env : Env) where
  not_queued :
      (error_type : String) (j : BackgroundJob) → (queue_failed env error_type j).status ≢ "QUEUED"
  not_queued error_type j e = ground (arith, eq_iff "FAILED" "QUEUED")

  marked :
      (id error_type : String) (queue : List QueueMessage) (jobs : List BackgroundJob)
      → All (λ j. IsSent queue j ⊎ (j.id ≡ id)) jobs
      → All (IsSent queue) (update_where (λ j. j.id == id) (queue_failed env error_type) jobs)
  marked id error_type queue [] h = tt
  marked id error_type queue (j ∷ jobs) (s, h) = elim (Bool-cases (j.id == id)) [
    | inl e ↦ rw e (inl (not_queued error_type j), marked id error_type queue jobs h)
    | inr e ↦ rw e (other s e, marked id error_type queue jobs h)
  ]
    where
      other : IsSent queue j ⊎ (j.id ≡ id) → (j.id == id) ≡ false → IsSent queue j
      other (inl sent) e = sent
      other (inr same) e = absurd (ground (arith, eq_iff j.id id))

  weaken :
      (id : String) (queue : List QueueMessage) (jobs : List BackgroundJob)
      → All (IsSent queue) jobs
      → All (λ j. IsSent queue j ⊎ (j.id ≡ id)) jobs
  weaken id queue [] h = tt
  weaken id queue (j ∷ jobs) (s, h) = (inl s, weaken id queue jobs h)

  submitted-AreSent :
      (raised : Option String) (job : BackgroundJob) (db : Db) (queue : List QueueMessage)
      → AreSent (db, queue)
      → AreSent (submitted env raised job (create_job_record env job db, queue)).1
  submitted-AreSent none job db queue h =
      All-append (IsSent (queue ++ record { job_id = job.id; kind = job.kind } ∷ []))
        db.background_jobs (job ∷ [])
        (IsSent-later queue (record { job_id = job.id; kind = job.kind } ∷ []) db.background_jobs h)
        (
          inr (
              rw
                (any-append (λ m. m.job_id == job.id) queue
                  (record { job_id = job.id; kind = job.kind } ∷ []))
                (ground (arith, eq_iff job.id job.id))),
          tt,
        )
  submitted-AreSent (some e) job db queue h =
      marked job.id e queue (db.background_jobs ++ job ∷ []) (
        All-append (λ j. IsSent queue j ⊎ (j.id ≡ job.id)) db.background_jobs (job ∷ [])
          (weaken job.id queue db.background_jobs h) (inr refl, tt))

  job_created-AreSent :
      (q : Result BackgroundJob × (Db × List QueueMessage))
      → AreSent q.1
      → AreSent (job_created env q).1
  job_created-AreSent (ok job, s) h = h
  job_created-AreSent (err e, s) h = h

  -- No job is left waiting without a message: where every job of status QUEUED has one in the queue,
  -- every one has after `create_job`, whatever its kind and its caller, and whether or not the queue takes
  -- the message.
  pub create_job-AreSent :
      (raised : Option String) (kind : String) (context : AuthContext) (db : Db)
      (queue : List QueueMessage)
      → AreSent (db, queue)
      → AreSent (create_job env raised kind context (db, queue)).1
  unfolding create_job
  create_job-AreSent raised kind context db queue h = go (require_scope context "jobs:write")
    where
      known : AreSent (if_known env raised kind context (db, queue)).1
      known =
          elim (Bool-cases ((kind == "retention_cleanup") || (kind == "credit_reconciliation"))) [
            | inl e ↦ rw e (
                job_created-AreSent
                  (submit_job env raised kind (some context.tenant_id) (db, queue))
                  (submitted-AreSent raised
                    (new_job env kind (some context.tenant_id) (env.uuid db.catalog.drawn)) db queue
                    h))
            | inr e ↦ rw e h
          ]

      go : (q : Result (Unit {0})) → AreSent (if_scoped env raised kind context q (db, queue)).1
      go (ok _) = known
      go (err e) = h

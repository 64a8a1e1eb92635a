-- ===== src/Operations/Finish.antt =====
-- About `create_job` of app/main.py with `run_worker` of scripts/worker.py: what becomes of the jobs
-- that wait.
use lead_generation_api_zyla.Prelude.{
  ℕ, zero, suc, ◌*◌, ◌≤◌, length, String, Bool, ◌==◌, ◌≡◌, ◌≢◌, refl, sym, ◌∙◌, ap, subst, Option,
  none, some, List, [], ◌∷◌, ◌++◌, All, find, update_where, leb, Bool-cases, inl, inr,
  if◌then◌else◌, arith, eq_iff,
}
use lead_generation_api_zyla.Errors.{Raised, Result, ok, err}
use lead_generation_api_zyla.Exec.{Exec, Leaves}
use lead_generation_api_zyla.Models.{BackgroundJob, Db}
use lead_generation_api_zyla.Jobs.{
  Report, QueueMessage, started, failed, succeeded, set_job, after_failure, conclude, attempt,
  process_found, process_message, drain,
}
use lead_generation_api_zyla.Operations.Submission.{IsSent, AreSent, IsSent-later}
use lead_generation_api_zyla.Jobs.Drain.{find-id, drain_returns}
use lead_generation_api_zyla.Operations.Delivery.{
  AreDistinct, ids, ids-update, left-AreSent, absent-IsLeft, found-IsLeft, settled-AreSent,
  own_message,
}

module _ (now : ℕ) (describe : Raised → String) (execute : BackgroundJob → Exec Db Report)
    (max_attempts : ℕ)
    (keeps_jobs : (job : BackgroundJob)
      → Leaves (λ (db : Db). db.background_jobs) (execute job)) where
  abbrev start : BackgroundJob → BackgroundJob
  start = started now describe execute max_attempts

  -- the queue after a delivery, and its jobs
  abbrev requeue : QueueMessage → List QueueMessage → Bool → List QueueMessage
  requeue m queue should_retry = if should_retry then queue ++ m ∷ [] else queue

  concluded-AreSent :
      (m : QueueMessage) (queue : List QueueMessage) (job : BackgroundJob)
      (jobs : List BackgroundJob) (p : Result Report × Db)
      → job.id ≡ m.job_id
      → p.1.background_jobs ≡ update_where (λ j. j.id == m.job_id) start jobs
      → All (IsSent (m ∷ queue)) jobs
      → let q = conclude now describe execute max_attempts job p in
        All (IsSent (requeue m queue q.0.1)) q.1.background_jobs
  concluded-AreSent m queue job jobs (ok report, db) own rows h =
      rw (own, rows)
        (settled-AreSent m queue queue start (succeeded now describe execute max_attempts) jobs
          (λ j. refl) (λ j e. inl (λ q. ground (arith, eq_iff "SUCCEEDED" "QUEUED"))) (λ j s. s) h)
  concluded-AreSent m queue job jobs (err x, db) own rows h =
      elim (Bool-cases (leb max_attempts job.attempts)) [
        | inl e ↦
            rw (e, own, rows)
              (settled-AreSent m queue queue start
                (failed now describe execute max_attempts "FAILED" x) jobs (λ j. refl)
                (λ j k. inl (λ q. ground (arith, eq_iff "FAILED" "QUEUED"))) (λ j s. s) h)
        | inr e ↦
            rw (e, own, rows)
              (settled-AreSent m queue (queue ++ m ∷ []) start
                (failed now describe execute max_attempts "QUEUED" x) jobs (λ j. refl)
                (λ j k. inr (own_message m queue j.id (sym k)))
                (λ j s. (IsSent-later queue (m ∷ []) (j ∷ []) (s, tt)).0) h)
      ]

  attempted-AreSent :
      (m : QueueMessage) (queue : List QueueMessage) (job : BackgroundJob) (db : Db)
      → find (λ j. j.id == m.job_id) db.background_jobs ≡ some job
      → All (IsSent (m ∷ queue)) db.background_jobs
      → let q = attempt now describe execute max_attempts job db in
        All (IsSent (requeue m queue q.0.1)) q.1.background_jobs
  attempted-AreSent m queue job db found h =
      let own = find-id m.job_id db.background_jobs job found in
      let before = set_job now describe execute max_attempts job.id start db in
      let rows = (keeps_jobs (start job)).at before in
      concluded-AreSent m queue (start job) db.background_jobs (execute (start job) before) own
        (rows ∙ ap (λ k. update_where (λ j. j.id == k) start db.background_jobs) own) h

  found-AreSent :
      (m : QueueMessage) (queue : List QueueMessage) (found : Option BackgroundJob) (db : Db)
      → find (λ j. j.id == m.job_id) db.background_jobs ≡ found
      → AreDistinct (ids db.background_jobs)
      → All (IsSent (m ∷ queue)) db.background_jobs
      → let q = process_found now describe execute max_attempts found db in
        All (IsSent (requeue m queue q.0.1)) q.1.background_jobs
  found-AreSent m queue none db f u h =
      left-AreSent m queue db.background_jobs (absent-IsLeft m db.background_jobs f) h
  found-AreSent m queue (some job) db f u h = elim (Bool-cases (job.status == "SUCCEEDED")) [
    | inl e ↦ rw e (
        left-AreSent m queue db.background_jobs
          (found-IsLeft m db.background_jobs job u f
            (λ q. ground (arith, eq_iff job.status "SUCCEEDED", eq_iff "QUEUED" "SUCCEEDED")))
          h)
    | inr e ↦ rw e (attempted-AreSent m queue job db f h)
  ]

  -- the ids of the jobs stay
  concluded-ids :
      (job : BackgroundJob) (p : Result Report × Db)
      → ids (conclude now describe execute max_attempts job p).1.background_jobs
        ≡ ids p.1.background_jobs
  concluded-ids job (ok _, db) =
      ids-update (λ j. j.id == job.id) (succeeded now describe execute max_attempts)
        db.background_jobs (λ j. refl)
  concluded-ids job (err x, db) =
      ids-update (λ j. j.id == job.id)
        (failed now describe execute max_attempts
          (after_failure now describe execute max_attempts job.attempts) x)
        db.background_jobs (λ j. refl)

  found-ids :
      (found : Option BackgroundJob) (db : Db)
      → ids (process_found now describe execute max_attempts found db).1.background_jobs
        ≡ ids db.background_jobs
  found-ids none db = refl
  found-ids (some job) db = elim (Bool-cases (job.status == "SUCCEEDED")) [
    | inl e ↦ rw e refl
    | inr e ↦
        let before = set_job now describe execute max_attempts job.id start db in
        rw e (
          concluded-ids (start job) (execute (start job) before)
          ∙ (ap ids ((keeps_jobs (start job)).at before)
              ∙ ids-update (λ j. j.id == job.id) start db.background_jobs (λ j. refl)))
  ]

  pub process_message-ids :
      (m : QueueMessage) (db : Db)
      → AreDistinct (ids db.background_jobs)
      → AreDistinct (ids (process_message now describe execute max_attempts m db).1.background_jobs)
  unfolding process_message
  process_message-ids m db u =
      subst AreDistinct (sym (found-ids (find (λ j. j.id == m.job_id) db.background_jobs) db)) u

  waiting_none :
      (jobs : List BackgroundJob) → All (IsSent []) jobs → All (λ j. j.status ≢ "QUEUED") jobs
  waiting_none [] h = tt
  waiting_none (j ∷ jobs) (inl waits, h) = (waits, waiting_none jobs h)
  waiting_none (j ∷ jobs) (inr sent, h) = absurd (cc)

  -- the queue is empty
  no_job_waits :
      (fuel : ℕ) (queue : List QueueMessage) (db db' : Db)
      → AreDistinct (ids db.background_jobs)
      → AreSent (db, queue)
      → drain now describe execute max_attempts fuel queue db ≡ some db'
      → All (λ j. j.status ≢ "QUEUED") db'.background_jobs
  unfolding drain process_message
  no_job_waits fuel [] db db' u h e =
      let same : db ≡ db' = cc in
      subst {A = Db} (λ s. All (λ j. j.status ≢ "QUEUED") s.background_jobs) same
        (waiting_none db.background_jobs h)
  no_job_waits zero (m ∷ queue) db db' u h e = cc
  no_job_waits (suc fuel) (m ∷ queue) db db' u h e =
      let found = find (λ j. j.id == m.job_id) db.background_jobs in
      let q = process_found now describe execute max_attempts found db in
      no_job_waits fuel (requeue m queue q.0.1) q.1 db'
        (subst AreDistinct (sym (found-ids found db)) u) (found-AreSent m queue found db refl u h) e

  -- Every job that waits is taken up: where the ids of jobs are distinct, every job of status QUEUED has a
  -- message, as `create_job` leaves them, and a job's run leaves the jobs table alone, the worker empties
  -- a queue that nobody else fills within one more round than `max_attempts` for each message, and then
  -- no job is of status QUEUED.
  pub no_job_is_left :
      (fuel : ℕ) (queue : List QueueMessage) (db : Db)
      → AreDistinct (ids db.background_jobs)
      → AreSent (db, queue)
      → length queue * suc max_attempts ≤ fuel
      → (db' : Db) × (drain now describe execute max_attempts fuel queue db ≡ some db')
        × All (λ j. j.status ≢ "QUEUED") db'.background_jobs
  no_job_is_left fuel queue db u h enough =
      let (db', e) =
        drain_returns now describe execute max_attempts keeps_jobs fuel queue db enough in
      (db', e, no_job_waits fuel queue db db' u h e)

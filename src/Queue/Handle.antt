-- ===== src/Queue/Handle.antt =====
-- About `run_worker` of scripts/worker.py on the Redis queue: the jobs that have not ended, while messages
-- are handled.
use lead_generation_api_zyla.Prelude.{
  ◌+◌, ◌<◌, length, arith, ℕ, suc, String, Bool, true, false, List, [], ◌∷◌,
}
use lead_generation_api_zyla.Errors.{Raised, Result, ok, err}
use lead_generation_api_zyla.Exec.{Exec, Leaves, continue, ◌>>=◌}
use lead_generation_api_zyla.Models.{BackgroundJob, Db}
use lead_generation_api_zyla.Jobs.{Report, QueueMessage, process_message}
use lead_generation_api_zyla.Operations.Delivery.{AreDistinct, ids}
use lead_generation_api_zyla.Operations.Finish.{process_message-ids}
use lead_generation_api_zyla.Queue.Entries.{Entry, Delivery}
use lead_generation_api_zyla.Queue.{Commands, enqueue}
use lead_generation_api_zyla.Queue.Laws.{IsStream, enqueue-Quiet}
use lead_generation_api_zyla.Queue.Messages.{
  AreGenuine, Gives, Waits, enqueue-Waits, Quiet-AreGenuine, xack-AreGenuine,
}
use lead_generation_api_zyla.Queue.Settled.{process_message-Settled}
use lead_generation_api_zyla.Queue.Covered.{
  IsCovered, each-IsCovered-le, but_one-le, Between, Quiet-Between, xack-Between, others-IsCovered,
  ended-IsCovered, enqueued-IsCovered,
}
use lead_generation_api_zyla.Queue.Worker.{on_queue, requeue_if_needed, handle_message, handle_all}
use lead_generation_api_zyla.Queue.Ready.{Ready, Ready-le, After, After-bind}

module _ {S : Type 0} (posted : S → Entry → Type 0) (held : S → ℕ → Entry → Type 0)
    (acked : S → String → Type 0) (redis : Commands S)
    (stream : IsStream posted held acked redis) where
  module _ (now : ℕ) (describe : Raised → String) (execute : BackgroundJob → Exec Db Report)
      (max_attempts : ℕ)
      (keeps_jobs : (job : BackgroundJob)
        → Leaves (λ (db : Db). db.background_jobs) (execute job)) where
    requeue-After :
        (b : ℕ) (m : QueueMessage) (again : Bool) (ds : List Delivery) (s : S) (db : Db)
        → b < 10000
        → AreDistinct (ids db.background_jobs)
        → AreGenuine posted held acked s ds
        → Between posted held acked redis stream (1 + b) m again s db.background_jobs
        → After posted held acked redis stream b ds
            (on_queue (requeue_if_needed redis now describe execute max_attempts m again) (s, db))
    unfolding After requeue_if_needed ◌>>=◌
    requeue-After b m false ds s db room u g c = (
      record {
        distinct = u;
        covered =
            each-IsCovered-le posted held acked redis stream (1 + b) b s db.background_jobs
              (omega arith)
              (ended-IsCovered posted held acked redis stream (1 + b) m s db.background_jobs c);
      },
      g,
    )
    requeue-After b m true ds s db room u g c =
        let quiet = enqueue-Quiet posted held acked redis stream m in
        go (enqueue redis m s) (enqueue-Waits posted held acked redis stream b m s room)
          (Quiet-AreGenuine posted held acked redis stream 1 (enqueue redis m) s ds quiet g)
          (Quiet-Between posted held acked redis stream 1 b (enqueue redis m) m true s
            db.background_jobs quiet c)
      where
        go :
            (p : Result String × S)
            → Gives posted held acked
                (λ s' id. Waits posted held acked redis stream b s' m.job_id)
                p
            → AreGenuine posted held acked p.1 ds
            → Between posted held acked redis stream b m true p.1 db.background_jobs
            → let q = continue p.0 (λ _ s'. (ok tt, s')) p.1 in
              After posted held acked redis stream b ds (q.0, (q.1, db))
        go (ok id, s') w g' c' = (
          record {
            distinct = u;
            covered =
                enqueued-IsCovered posted held acked redis stream b m true s' db.background_jobs w
                  c';
          },
          g',
        )
        go (err x, s') w g' c' = record {
          distinct = u;
          left = m.job_id;
          covered =
              others-IsCovered posted held acked redis stream b m true s' db.background_jobs c';
        }

    -- a message that is handled enqueues at most one more
    pub handle_message-After :
        (b : ℕ) (d : Delivery) (ds : List Delivery) (w : S × Db)
        → b < 10000
        → Ready posted held acked redis stream (1 + b) (d ∷ ds) w
        → After posted held acked redis stream b ds
            (handle_message redis now describe execute max_attempts d w)
    unfolding handle_message After ◌>>=◌
    handle_message-After b d ds (s, db) room (h, (own, g)) =
        let p = process_message now describe execute max_attempts d.message db in
        let u =
          process_message-ids now describe execute max_attempts keeps_jobs d.message db
            h.distinct in
        go p.1 p.0.1 (redis.xack d.message_id s) u
          (xack-AreGenuine posted held acked redis stream d.message_id s ds g)
          (xack-Between posted held acked redis stream (1 + b) d p.0.1 s p.1.background_jobs own (
            process_message-Settled (IsCovered posted held acked redis stream (1 + b) s) d.message
              now describe execute max_attempts keeps_jobs db h.distinct h.covered))
      where
        go :
            (db' : Db) (again : Bool) (a : Result (Unit {0}) × S)
            → AreDistinct (ids db'.background_jobs)
            → AreGenuine posted held acked a.1 ds
            → Between posted held acked redis stream (1 + b) d.message again a.1 db'.background_jobs
            → let q =
                continue a.0
                  (λ _. requeue_if_needed redis now describe execute max_attempts d.message again)
                  a.1 in
              After posted held acked redis stream b ds (q.0, (q.1, db'))
        go db' again (ok _, s') u g' c = requeue-After b d.message again ds s' db' room u g' c
        go db' again (err x, s') u g' c =
            but_one-le posted held acked redis stream (1 + b) b (s', db') (omega arith)
              (record {
                distinct = u;
                left = d.message.job_id;
                covered =
                    others-IsCovered posted held acked redis stream (1 + b) d.message again s'
                      db'.background_jobs c;
              })

    pub handle_all-After :
        (b : ℕ) (ds : List Delivery) (w : S × Db)
        → length ds + b < 10000
        → Ready posted held acked redis stream (length ds + b) ds w
        → After posted held acked redis stream b []
            (handle_all redis now describe execute max_attempts ds w)
    unfolding handle_all After
    handle_all-After b [] w room r =
        Ready-le posted held acked redis stream (0 + b) b [] w (omega arith) r
    handle_all-After b (d ∷ ds) w room r =
        After-bind posted held acked redis stream (length ds + b) b ds []
          (handle_message redis now describe execute max_attempts d) _ w (omega arith)
          (handle_message-After (length ds + b) d ds w (omega arith) (
            Ready-le posted held acked redis stream (suc (length ds) + b) (1 + (length ds + b))
              (d ∷ ds) w (omega arith) r))
          (λ w' r'. handle_all-After b ds w' (omega arith) r')

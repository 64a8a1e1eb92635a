-- ===== src/Queue/Safety.antt =====
-- About `run_worker` of scripts/worker.py on the Redis queue: the jobs that have not ended, and the
-- messages of the stream, however a run ends.
use lead_generation_api_zyla.Prelude.{
  ◌+◌, ◌≤◌, ◌<◌, length, arith, ℕ, zero, suc, String, Bool, true, false, not, ◌==◌, Option, none,
  some, List, [], ◌∷◌, inl, inr, Bool-cases, if◌then◌else◌,
}
use lead_generation_api_zyla.Errors.{Raised, Result, ok, err}
use lead_generation_api_zyla.Exec.{Exec, Leaves, pure, ◌>>=◌, ◌>>◌}
use lead_generation_api_zyla.Models.{BackgroundJob, Db}
use lead_generation_api_zyla.Jobs.{Report}
use lead_generation_api_zyla.Queue.Entries.{Entry, Delivery}
use lead_generation_api_zyla.Queue.{Commands, claim_pending, read}
use lead_generation_api_zyla.Queue.Laws.{IsStream, claim_pending-Quiet, read-Quiet}
use lead_generation_api_zyla.Queue.Messages.{
  AreGenuine, Gives, claim_pending-AreGenuine, read-AreGenuine,
}
use lead_generation_api_zyla.Queue.Covered.{AllCovered, Ends, covered-le, weaker}
use lead_generation_api_zyla.Queue.Worker.{
  on_queue, start_batch, handle_message, handle_all, serve, run_worker,
}
use lead_generation_api_zyla.Queue.Ready.{Ready, Ready-le, After, After-bind, fetch-After}
use lead_generation_api_zyla.Queue.Handle.{handle_message-After, handle_all-After}

module _ {S : Type 0} (posted : S → Entry → Type 0) (held : S → ℕ → Entry → Type 0)
    (acked : S → String → Type 0) (redis : Commands S)
    (stream : IsStream posted held acked redis) where
  module _ (now : ℕ) (describe : Raised → String) (execute : BackgroundJob → Exec Db Report)
      (max_attempts : ℕ)
      (keeps_jobs : (job : BackgroundJob)
        → Leaves (λ (db : Db). db.background_jobs) (execute job)) where
    -- the messages of the batch that is being handled
    abbrev rest : Option (List Delivery) → List Delivery
    rest none = []
    rest (some ds) = ds

    serve-After :
        (n : ℕ) (next : Option (List Delivery)) (w : S × Db)
        → n < 10000
        → Ready posted held acked redis stream n (rest next) w
        → After posted held acked redis stream 0 []
            (serve redis now describe execute max_attempts n next w)
    unfolding serve After
    serve-After zero next w room r = (r.0, tt)
    serve-After (suc n) none (s, db) room r =
        fetch-After posted held acked redis stream (suc n) 0 (λ ds. Unit {0}) (read redis) _ s db
          (omega arith) (read-Quiet posted held acked redis stream)
          (read-Gives (read redis s) (read-AreGenuine posted held acked redis stream s)) r.0
          (λ ds w' _ r'.
            batch (λ v. serve-After n none v (omega arith))
              (λ es v. serve-After n (some es) v (omega arith)) ds w' r')
      where
        read-Gives :
            (p : Result (List Delivery) × S)
            → Gives posted held acked (AreGenuine posted held acked) p
            → Gives posted held acked (λ s' ds. AreGenuine posted held acked s' ds × Unit {0}) p
        read-Gives (ok ds, s') g = (g, tt)
        read-Gives (err x, s') g = tt

        batch :
            ((w : S × Db)
              → Ready posted held acked redis stream n [] w
              → After posted held acked redis stream 0 []
                  (serve redis now describe execute max_attempts n none w))
            → ((ds : List Delivery) (w : S × Db)
                → Ready posted held acked redis stream n ds w
                → After posted held acked redis stream 0 []
                    (serve redis now describe execute max_attempts n (some ds) w))
            → (ds : List Delivery) (w : S × Db) → Ready posted held acked redis stream (suc n) ds w
            → After posted held acked redis stream 0 [] (
                start_batch
                  (handle_message redis now describe execute max_attempts)
                  (serve redis now describe execute max_attempts n)
                  ds
                  w)
        batch now_none now_some [] w' r' =
            now_none w' (Ready-le posted held acked redis stream (suc n) n [] w' (omega arith) r')
        batch now_none now_some (d ∷ ds) w' r' =
            After-bind posted held acked redis stream n 0 ds []
              (handle_message redis now describe execute max_attempts d) _ w' (omega arith)
              (handle_message-After posted held acked redis stream now describe execute max_attempts
                keeps_jobs n d ds w' (omega arith)
                (Ready-le posted held acked redis stream (suc n) (1 + n) (d ∷ ds) w' (omega arith)
                  r'))
              (now_some ds)
    serve-After (suc n) (some []) w room r =
        serve-After n none w (omega arith)
          (Ready-le posted held acked redis stream (suc n) n [] w (omega arith) r)
    serve-After (suc n) (some (d ∷ ds)) w room r =
        After-bind posted held acked redis stream n 0 ds []
          (handle_message redis now describe execute max_attempts d) _ w (omega arith)
          (handle_message-After posted held acked redis stream now describe execute max_attempts
            keeps_jobs n d ds w (omega arith)
            (Ready-le posted held acked redis stream (suc n) (1 + n) (d ∷ ds) w (omega arith) r))
          (λ v q. serve-After n (some ds) v (omega arith) q)

    started-After :
        (once : Bool) (unset : ℕ) (s : S) (db : Db)
        → 10 + unset < 10000
        → AllCovered posted held acked redis stream (10 + unset) (s, db)
        → After posted held acked redis stream 0 [] (
            (on_queue (claim_pending redis) >>= λ pending.
            handle_all redis now describe execute max_attempts pending
            >> (if once then pure tt else serve redis now describe execute max_attempts unset none))
              (s, db))
    unfolding After
    started-After once unset s db room h =
        fetch-After posted held acked redis stream (10 + unset) 0 (λ ds. length ds ≤ 10)
          (claim_pending redis) _ s db (omega arith)
          (claim_pending-Quiet posted held acked redis stream)
          (claim_pending-AreGenuine posted held acked redis stream s) h
          (λ ds w le r.
            After-bind posted held acked redis stream unset 0 [] []
              (handle_all redis now describe execute max_attempts ds) _ w (omega arith)
              (handle_all-After posted held acked redis stream now describe execute max_attempts
                keeps_jobs unset ds w (omega (arith, le))
                (Ready-le posted held acked redis stream (10 + unset) (length ds + unset) ds w
                  (omega (arith, le)) r))
              (λ w' r'. go once w' r'))
      where
        go :
            (b : Bool) (w : S × Db)
            → Ready posted held acked redis stream unset [] w
            → After posted held acked redis stream 0 [] (
                (if b then pure tt else serve redis now describe execute max_attempts unset none) w)
        go true w r = Ready-le posted held acked redis stream unset 0 [] w (omega arith) r
        go false w r = serve-After unset none w (omega arith) r

    run_worker-After :
        (backend : String) (once : Bool) (unset : ℕ) (s : S) (db : Db)
        → 10 + unset < 10000
        → AllCovered posted held acked redis stream (10 + unset) (s, db)
        → After posted held acked redis stream 0 []
            (run_worker redis now describe execute max_attempts backend once unset (s, db))
    unfolding run_worker After
    run_worker-After backend once unset s db room h = elim (Bool-cases (not (backend == "redis"))) [
      | inl e ↦ rw e (
          weaker posted held acked redis stream 0 (s, db)
            (covered-le posted held acked redis stream (10 + unset) 0 (s, db) (omega arith) h))
      | inr e ↦ rw e (started-After once unset s db room h)
    ]

    as_Ends :
        (p : Result (Unit {0}) × (S × Db))
        → After posted held acked redis stream 0 [] p
        → Ends posted held acked redis stream p
    unfolding After Ends
    as_Ends (ok _, w) h = h.0
    as_Ends (err x, w) h = h

    -- How the worker's run on the Redis queue may end, if it tests `stop` unset fewer than 9990 times, from
    -- a database and a stream where the ids of jobs are distinct and every job is SUCCEEDED, is FAILED, or
    -- has a message in the stream that the group has not acknowledged, with so few younger entries that
    -- the run, which enqueues at most ten messages and one for each test, keeps it among the youngest
    -- 10000. If the run returns, every job still is SUCCEEDED, FAILED, or has such a message in the stream;
    -- if a command raises, which is also what a crash between two commands amounts to, then so is every
    -- job but that of one id. It is assumed that the commands do what their documentation says, XADD
    -- trimming down to no less than its `maxlen` youngest entries, that no other client writes to the
    -- stream meanwhile, and that a job's run leaves the jobs table alone.
    pub run_worker_loses_one :
        (backend : String) (once : Bool) (unset : ℕ) (s : S) (db : Db)
        → 10 + unset < 10000
        → AllCovered posted held acked redis stream (10 + unset) (s, db)
        → Ends posted held acked redis stream
            (run_worker redis now describe execute max_attempts backend once unset (s, db))
    run_worker_loses_one backend once unset s db room h =
        as_Ends (run_worker redis now describe execute max_attempts backend once unset (s, db))
          (run_worker-After backend once unset s db room h)

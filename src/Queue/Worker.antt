-- ===== src/Queue/Worker.antt =====
-- scripts/worker.py: `requeue_if_needed` and `run_worker` on the Redis queue. The state is the server's
-- with the database's; a command that raises ends the run, and so does a crash, at the next command.
use lead_generation_api_zyla.Prelude.{
  ℕ, zero, suc, String, Bool, true, false, not, ◌==◌, Option, none, some, List, [], ◌∷◌,
  if◌then◌else◌,
}
use lead_generation_api_zyla.Errors.{Raised, err, unexpected}
use lead_generation_api_zyla.Exec.{Exec, pure, lift, ◌>>=◌, ◌>>◌}
use lead_generation_api_zyla.Models.{BackgroundJob, Db}
use lead_generation_api_zyla.Jobs.{Report, QueueMessage, process_message}
use lead_generation_api_zyla.Queue.Entries.{Delivery}
use lead_generation_api_zyla.Queue.{Commands, enqueue, claim_pending, read, acknowledge}

-- a call of the queue, beside the database
abbrev pub on_queue : {S A : Type 0} → Exec S A → Exec (S × Db) A
on_queue call (s, db) = let (r, s') = call s in (r, (s', db))

-- the messages that a `read` gave: the loop tests `stop` only after a message
abbrev pub start_batch :
    {W : Type 0}
    → (Delivery → Exec W (Unit {0}))
    → (Option (List Delivery) → Exec W (Unit {0}))
    → List Delivery
    → Exec W (Unit {0})
start_batch handled next [] = next none
start_batch handled next (d ∷ deliveries) = handled d >> next (some deliveries)

module _ {S : Type 0} (redis : Commands S) (now : ℕ) (describe : Raised → String)
    (execute : BackgroundJob → Exec Db Report) (max_attempts : ℕ) where
  -- `requeue_if_needed`
  unfoldable pub requeue_if_needed : QueueMessage → Bool → Exec S (Unit {0})
  requeue_if_needed m false = pure tt
  requeue_if_needed m true = enqueue redis m >> pure tt

  -- the body of both loops: process, acknowledge, and enqueue again where that is asked for
  unfoldable pub handle_message : Delivery → Exec (S × Db) (Unit {0})
  handle_message d (s, db) =
      let (answer, db') = process_message now describe execute max_attempts d.message db in
      on_queue (acknowledge redis d.message_id >> requeue_if_needed d.message answer.1) (s, db')

  -- `for message in pending`
  unfoldable pub handle_all : List Delivery → Exec (S × Db) (Unit {0})
  handle_all [] = pure tt
  handle_all (d ∷ deliveries) = handle_message d >> handle_all deliveries

  -- The `while`, where `stop` is found unset that many times before it is found set. Next is a test by
  -- the `while`, or one after a message with the rest of its batch.
  unfoldable pub serve : ℕ → Option (List Delivery) → Exec (S × Db) (Unit {0})
  serve zero next = pure tt
  serve (suc n) none = on_queue (read redis) >>= start_batch handle_message (serve n)
  serve (suc n) (some []) = serve n none
  serve (suc n) (some (d ∷ deliveries)) = handle_message d >> serve n (some deliveries)

  -- `run_worker`, for a setting of `queue_backend`
  unfoldable pub run_worker : String → Bool → ℕ → Exec (S × Db) (Unit {0})
  run_worker backend once unset =
      if not (backend == "redis") then lift (err (unexpected "RuntimeError")) else do
        pending ← on_queue (claim_pending redis)
        handle_all pending
        if once then pure tt else serve unset none

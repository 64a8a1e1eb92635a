-- ===== src/Queue/Covered.antt =====
-- About `run_worker` of scripts/worker.py on the Redis queue: the jobs that have not ended, between the
-- commands of one delivery.
use lead_generation_api_zyla.Prelude.{
  ℕ, ◌+◌, ◌≤◌, String, Bool, false, ◌≡◌, sym, subst, List, [], ◌∷◌, All, ◌⊎◌, inl, inr,
}
use lead_generation_api_zyla.Errors.{Result, ok, err}
use lead_generation_api_zyla.Exec.{Exec}
use lead_generation_api_zyla.Models.{BackgroundJob, Db}
use lead_generation_api_zyla.Jobs.{QueueMessage}
use lead_generation_api_zyla.Operations.Delivery.{AreDistinct, ids}
use lead_generation_api_zyla.Queue.Entries.{Entry, Delivery}
use lead_generation_api_zyla.Queue.{Commands}
use lead_generation_api_zyla.Queue.Laws.{IsStream, Quiet}
use lead_generation_api_zyla.Queue.Messages.{IsGenuine, Waits, Waits-le, Quiet-Waits, xack-Waits}
use lead_generation_api_zyla.Queue.Settled.{IsFinished, IsSettled}

module _ {S : Type 0} (posted : S → Entry → Type 0) (held : S → ℕ → Entry → Type 0)
    (acked : S → String → Type 0) (redis : Commands S)
    (stream : IsStream posted held acked redis) where
  -- a job has ended, or a message of it waits
  abbrev pub IsCovered : ℕ → S → BackgroundJob → Type 0
  IsCovered b s j = IsFinished j ⊎ Waits posted held acked redis stream b s j.id

  pub record AllCovered (b : ℕ) (w : S × Db) : Type 0 where
    pub distinct : AreDistinct (ids w.1.background_jobs)
    pub covered : All (IsCovered b w.0) w.1.background_jobs

  -- the job of one id may be left alone
  pub record AllButOneCovered (b : ℕ) (w : S × Db) : Type 0 where
    pub distinct : AreDistinct (ids w.1.background_jobs)
    pub left : String
    pub covered : All (λ j. (j.id ≡ left) ⊎ IsCovered b w.0 j) w.1.background_jobs

  -- how a run may end
  unfoldable pub Ends : Result (Unit {0}) × (S × Db) → Type 0
  Ends (ok _, w) = AllCovered 0 w
  Ends (err exc, w) = AllButOneCovered 0 w

  pub IsCovered-le :
      (b c : ℕ) (s : S) (j : BackgroundJob) → c ≤ b → IsCovered b s j → IsCovered c s j
  IsCovered-le b c s j le (inl done) = inl done
  IsCovered-le b c s j le (inr waits) =
      inr (Waits-le posted held acked redis stream b c s j.id le waits)

  pub each-IsCovered-le :
      (b c : ℕ) (s : S) (jobs : List BackgroundJob)
      → c ≤ b
      → All (IsCovered b s) jobs
      → All (IsCovered c s) jobs
  each-IsCovered-le b c s [] le h = tt
  each-IsCovered-le b c s (j ∷ jobs) le (p, h) =
      (IsCovered-le b c s j le p, each-IsCovered-le b c s jobs le h)

  pub covered-le : (b c : ℕ) (w : S × Db) → c ≤ b → AllCovered b w → AllCovered c w
  covered-le b c w le h = record {
    distinct = h.distinct;
    covered = each-IsCovered-le b c w.0 w.1.background_jobs le h.covered;
  }

  pub but_one-le : (b c : ℕ) (w : S × Db) → c ≤ b → AllButOneCovered b w → AllButOneCovered c w
  but_one-le b c (s, db) le h = record {
    distinct = h.distinct;
    left = h.left;
    covered = go db.background_jobs h.covered;
  }
    where
      go :
          (jobs : List BackgroundJob)
          → All (λ j. (j.id ≡ h.left) ⊎ IsCovered b s j) jobs
          → All (λ j. (j.id ≡ h.left) ⊎ IsCovered c s j) jobs
      go [] k = tt
      go (j ∷ jobs) (inl own, k) = (inl own, go jobs k)
      go (j ∷ jobs) (inr p, k) = (inr (IsCovered-le b c s j le p), go jobs k)

  pub weaker : (b : ℕ) (w : S × Db) → AllCovered b w → AllButOneCovered b w
  weaker b (s, db) h = record {
    distinct = h.distinct;
    left = "";
    covered = go db.background_jobs h.covered;
  }
    where
      go :
          (jobs : List BackgroundJob)
          → All (IsCovered b s) jobs
          → All (λ j. (j.id ≡ "") ⊎ IsCovered b s j) jobs
      go [] c = tt
      go (j ∷ jobs) (p, c) = (inr p, go jobs c)

  -- a command that acknowledges nothing
  pub Quiet-Covered :
      {A : Type 0} (k b : ℕ) (m : Exec S A) (s : S) (jobs : List BackgroundJob)
      → Quiet posted held acked 10000 k m
      → All (IsCovered (k + b) s) jobs
      → All (IsCovered b (m s).1) jobs
  Quiet-Covered k b m s [] q c = tt
  Quiet-Covered k b m s (j ∷ jobs) q (inl done, c) = (inl done, Quiet-Covered k b m s jobs q c)
  Quiet-Covered k b m s (j ∷ jobs) q (inr waits, c) = (
    inr (Quiet-Waits posted held acked redis stream k b m s j.id q waits),
    Quiet-Covered k b m s jobs q c,
  )

  -- the jobs between the acknowledgement of a message and its next enqueueing
  abbrev pub Between : ℕ → QueueMessage → Bool → S → List BackgroundJob → Type 0
  Between b m again s = All (IsSettled (IsCovered b s) m again)

  pub xack-Between :
      (b : ℕ) (d : Delivery) (again : Bool) (s : S) (jobs : List BackgroundJob)
      → IsGenuine posted held acked s d
      → Between b d.message again s jobs
      → Between b d.message again (redis.xack d.message_id s).1 jobs
  xack-Between b d again s [] g c = tt
  xack-Between b d again s (j ∷ jobs) g (inl (ne, inl done), c) =
      (inl (ne, inl done), xack-Between b d again s jobs g c)
  xack-Between b d again s (j ∷ jobs) g (inl (ne, inr waits), c) = (
    inl (ne, inr (xack-Waits posted held acked redis stream b d s j.id g ne waits)),
    xack-Between b d again s jobs g c,
  )
  xack-Between b d again s (j ∷ jobs) g (inr own, c) = (inr own, xack-Between b d again s jobs g c)

  pub Quiet-Between :
      {A : Type 0} (k b : ℕ) (call : Exec S A) (m : QueueMessage) (again : Bool) (s : S)
      (jobs : List BackgroundJob)
      → Quiet posted held acked 10000 k call
      → Between (k + b) m again s jobs
      → Between b m again (call s).1 jobs
  Quiet-Between k b call m again s [] q c = tt
  Quiet-Between k b call m again s (j ∷ jobs) q (inl (ne, inl done), c) =
      (inl (ne, inl done), Quiet-Between k b call m again s jobs q c)
  Quiet-Between k b call m again s (j ∷ jobs) q (inl (ne, inr waits), c) = (
    inl (ne, inr (Quiet-Waits posted held acked redis stream k b call s j.id q waits)),
    Quiet-Between k b call m again s jobs q c,
  )
  Quiet-Between k b call m again s (j ∷ jobs) q (inr own, c) =
      (inr own, Quiet-Between k b call m again s jobs q c)

  -- all jobs but the message's
  pub others-IsCovered :
      (b : ℕ) (m : QueueMessage) (again : Bool) (s : S) (jobs : List BackgroundJob)
      → Between b m again s jobs
      → All (λ j. (j.id ≡ m.job_id) ⊎ IsCovered b s j) jobs
  others-IsCovered b m again s [] c = tt
  others-IsCovered b m again s (j ∷ jobs) (inl (ne, p), c) =
      (inr p, others-IsCovered b m again s jobs c)
  others-IsCovered b m again s (j ∷ jobs) (inr (own, p), c) =
      (inl own, others-IsCovered b m again s jobs c)

  pub ended-IsCovered :
      (b : ℕ) (m : QueueMessage) (s : S) (jobs : List BackgroundJob)
      → Between b m false s jobs
      → All (IsCovered b s) jobs
  ended-IsCovered b m s [] c = tt
  ended-IsCovered b m s (j ∷ jobs) (inl (ne, p), c) = (p, ended-IsCovered b m s jobs c)
  ended-IsCovered b m s (j ∷ jobs) (inr (own, inl done), c) =
      (inl done, ended-IsCovered b m s jobs c)
  ended-IsCovered b m s (j ∷ jobs) (inr (own, inr wrong), c) = cc

  pub enqueued-IsCovered :
      (b : ℕ) (m : QueueMessage) (again : Bool) (s : S) (jobs : List BackgroundJob)
      → Waits posted held acked redis stream b s m.job_id
      → Between b m again s jobs
      → All (IsCovered b s) jobs
  enqueued-IsCovered b m again s [] w c = tt
  enqueued-IsCovered b m again s (j ∷ jobs) w (inl (ne, p), c) =
      (p, enqueued-IsCovered b m again s jobs w c)
  enqueued-IsCovered b m again s (j ∷ jobs) w (inr (own, p), c) = (
    inr (subst (Waits posted held acked redis stream b s) (sym own) w),
    enqueued-IsCovered b m again s jobs w c,
  )

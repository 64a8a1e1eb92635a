-- ===== src/Queue/Settled.antt =====
-- About `process_message` of scripts/worker.py: what becomes of each job of the database.
use lead_generation_api_zyla.Prelude.{
  ℕ, String, Bool, true, false, ◌==◌, ◌≡◌, ◌≢◌, refl, sym, ◌∙◌, ap, subst, Option, none, some, List,
  [], ◌∷◌, All, find, update_where, leb, ◌⊎◌, Bool-cases, inl, inr, arith, eq_iff,
}
use lead_generation_api_zyla.Errors.{Raised, Result, ok, err}
use lead_generation_api_zyla.Exec.{Exec, Leaves}
use lead_generation_api_zyla.Models.{BackgroundJob, Db}
use lead_generation_api_zyla.Jobs.{
  Report, QueueMessage, started, failed, succeeded, set_job, conclude, attempt, process_found,
  process_message,
}
use lead_generation_api_zyla.Jobs.Drain.{find-id}
use lead_generation_api_zyla.Operations.Delivery.{AreDistinct, ids}

abbrev pub IsFinished : BackgroundJob → Type 0
IsFinished j = (j.status ≡ "SUCCEEDED") ⊎ (j.status ≡ "FAILED")

-- a job after a delivery: another one that `C` holds of still, or that of the message, which has ended
-- unless it is to be enqueued again
abbrev pub IsSettled : (BackgroundJob → Type 0) → QueueMessage → Bool → BackgroundJob → Type 0
IsSettled C m again j =
    ((j.id ≢ m.job_id) × C j) ⊎ ((j.id ≡ m.job_id) × (IsFinished j ⊎ (again ≡ true)))

module _ (C : BackgroundJob → Type 0) (m : QueueMessage) where
  absent-Settled :
      (again : Bool) (jobs : List BackgroundJob)
      → find (λ j. j.id == m.job_id) jobs ≡ none
      → All C jobs
      → All (IsSettled C m again) jobs
  absent-Settled again [] h c = tt
  absent-Settled again (j ∷ jobs) h (p, c) = (
    inl ((λ e. ground (arith, eq_iff j.id m.job_id)), p),
    absent-Settled again jobs (ground arith) c,
  )

  others-Settled :
      (again : Bool) (jobs : List BackgroundJob)
      → All (λ y. y ≢ m.job_id) (ids jobs)
      → All C jobs
      → All (IsSettled C m again) jobs
  others-Settled again [] h c = tt
  others-Settled again (j ∷ jobs) (ne, h) (p, c) = (inl (ne, p), others-Settled again jobs h c)

  succeeded-Settled :
      (again : Bool) (jobs : List BackgroundJob) (job : BackgroundJob)
      → AreDistinct (ids jobs)
      → find (λ j. j.id == m.job_id) jobs ≡ some job
      → job.status ≡ "SUCCEEDED"
      → All C jobs
      → All (IsSettled C m again) jobs
  succeeded-Settled again [] job u h w c = tt
  succeeded-Settled again (j ∷ jobs) job (ne, u) h w (p, c) = elim (Bool-cases (j.id == m.job_id)) [
    | inl e ↦
        let same : j ≡ job = ground arith in
        let own : j.id ≡ m.job_id = ground (arith, eq_iff j.id m.job_id) in
        (
          inr (own, inl (inl (ap (λ k. k.status) same ∙ w))),
          others-Settled again jobs (subst (λ k. All (λ y. y ≢ k) (ids jobs)) own ne) c,
        )
    | inr e ↦ (
      inl ((λ q. ground (arith, eq_iff j.id m.job_id)), p),
      succeeded-Settled again jobs job u (ground arith) w c,
    )
  ]

  -- two updates of the message's job, the second of which ends it, unless it is enqueued again
  updated-Settled :
      (again : Bool) (f g : BackgroundJob → BackgroundJob) (jobs : List BackgroundJob)
      → ((j : BackgroundJob) → (f j).id ≡ j.id)
      → ((j : BackgroundJob) → (g j).id ≡ j.id)
      → ((j : BackgroundJob) → IsFinished (g j) ⊎ (again ≡ true))
      → All C jobs
      → All
          (IsSettled C m again)
          (update_where (λ j. j.id == m.job_id) g (update_where (λ j. j.id == m.job_id) f jobs))
  updated-Settled again f g [] same same' ends c = tt
  updated-Settled again f g (j ∷ jobs) same same' ends (p, c) =
      elim (Bool-cases (j.id == m.job_id)) [
        | inl e ↦
            let moved = subst (λ x. (x == m.job_id) ≡ true) (sym (same j)) e in
            let own : j.id ≡ m.job_id = ground (arith, eq_iff j.id m.job_id) in
            rw (e, moved)
              (
                inr (same' (f j) ∙ (same j ∙ own), ends (f j)),
                updated-Settled again f g jobs same same' ends c,
              )
        | inr e ↦
            rw (e, e)
              (
                inl ((λ q. ground (arith, eq_iff j.id m.job_id)), p),
                updated-Settled again f g jobs same same' ends c,
              )
      ]

  module _ (now : ℕ) (describe : Raised → String) (execute : BackgroundJob → Exec Db Report)
      (max_attempts : ℕ)
      (keeps_jobs : (job : BackgroundJob)
        → Leaves (λ (db : Db). db.background_jobs) (execute job)) where
    abbrev start : BackgroundJob → BackgroundJob
    start = started now describe execute max_attempts

    concluded-Settled :
        (job : BackgroundJob) (jobs : List BackgroundJob) (p : Result Report × Db)
        → job.id ≡ m.job_id
        → p.1.background_jobs ≡ update_where (λ j. j.id == m.job_id) start jobs
        → All C jobs
        → let q = conclude now describe execute max_attempts job p in
          All (IsSettled C m q.0.1) q.1.background_jobs
    concluded-Settled job jobs (ok report, db) own rows c =
        rw (own, rows)
          (updated-Settled false start (succeeded now describe execute max_attempts) jobs
            (λ j. refl) (λ j. refl) (λ j. inl (inl refl)) c)
    concluded-Settled job jobs (err x, db) own rows c =
        elim (Bool-cases (leb max_attempts job.attempts)) [
          | inl e ↦
              rw (e, own, rows)
                (updated-Settled _ start (failed now describe execute max_attempts "FAILED" x) jobs
                  (λ j. refl) (λ j. refl) (λ j. inl (inr refl)) c)
          | inr e ↦
              rw (e, own, rows)
                (updated-Settled true start (failed now describe execute max_attempts "QUEUED" x)
                  jobs (λ j. refl) (λ j. refl) (λ j. inr refl) c)
        ]

    attempted-Settled :
        (job : BackgroundJob) (db : Db)
        → find (λ j. j.id == m.job_id) db.background_jobs ≡ some job
        → All C db.background_jobs
        → let q = attempt now describe execute max_attempts job db in
          All (IsSettled C m q.0.1) q.1.background_jobs
    attempted-Settled job db found c =
        let own = find-id m.job_id db.background_jobs job found in
        let before = set_job now describe execute max_attempts job.id start db in
        let rows = (keeps_jobs (start job)).at before in
        concluded-Settled (start job) db.background_jobs (execute (start job) before) own
          (rows ∙ ap (λ k. update_where (λ j. j.id == k) start db.background_jobs) own) c

    found-Settled :
        (found : Option BackgroundJob) (db : Db)
        → find (λ j. j.id == m.job_id) db.background_jobs ≡ found
        → AreDistinct (ids db.background_jobs)
        → All C db.background_jobs
        → let q = process_found now describe execute max_attempts found db in
          All (IsSettled C m q.0.1) q.1.background_jobs
    found-Settled none db f u c = absent-Settled false db.background_jobs f c
    found-Settled (some job) db f u c = elim (Bool-cases (job.status == "SUCCEEDED")) [
      | inl e ↦ rw e (
          succeeded-Settled false db.background_jobs job u f
            (ground (arith, eq_iff job.status "SUCCEEDED")) c)
      | inr e ↦ rw e (attempted-Settled job db f c)
    ]

    pub process_message-Settled :
        (db : Db)
        → AreDistinct (ids db.background_jobs)
        → All C db.background_jobs
        → let q = process_message now describe execute max_attempts m db in
          All (IsSettled C m q.0.1) q.1.background_jobs
    unfolding process_message
    process_message-Settled db u c =
        found-Settled (find (λ j. j.id == m.job_id) db.background_jobs) db refl u c

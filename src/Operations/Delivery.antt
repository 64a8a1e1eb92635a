-- ===== src/Operations/Delivery.antt =====
-- About `create_job` and `submit_job` of app/jobs.py together with `process_message` and `run_worker` of
-- scripts/worker.py: the jobs that wait.
use lead_generation_api_zyla.Prelude.{
  String, Bool, true, ◌==◌, ◌≡◌, ◌≢◌, refl, sym, ap, subst, none, some, List, [], ◌∷◌, ◌++◌, map,
  All, any, find, update_where, ◌⊎◌, Bool-cases, inl, inr, arith, eq_iff,
}
use lead_generation_api_zyla.Models.{BackgroundJob}
use lead_generation_api_zyla.Jobs.{QueueMessage}
use lead_generation_api_zyla.Operations.Submission.{IsSent}

-- the primary key of the jobs
abbrev pub ids : List BackgroundJob → List String
ids = map (λ j. j.id)

abbrev pub AreDistinct : List String → Type 0
AreDistinct [] = Unit
AreDistinct (x ∷ xs) = All (λ y. y ≢ x) xs × AreDistinct xs

pub ids-update :
    (p : BackgroundJob → Bool) (f : BackgroundJob → BackgroundJob) (jobs : List BackgroundJob)
    → ((j : BackgroundJob) → (f j).id ≡ j.id)
    → ids (update_where p f jobs) ≡ ids jobs
ids-update p f [] same = refl
ids-update p f (j ∷ jobs) same = elim (Bool-cases (p j)) [
  | inl e ↦ rw (e, same j) (ap (λ xs. j.id ∷ xs) (ids-update p f jobs same))
  | inr e ↦ rw e (ap (λ xs. j.id ∷ xs) (ids-update p f jobs same))
]

-- a job whose message is taken, and that is not the message's
abbrev pub IsLeft : QueueMessage → BackgroundJob → Type 0
IsLeft m j = (j.id ≢ m.job_id) ⊎ (j.status ≢ "QUEUED")

still-IsSent :
    (m : QueueMessage) (queue : List QueueMessage) (j : BackgroundJob)
    → j.id ≢ m.job_id
    → IsSent (m ∷ queue) j
    → IsSent queue j
still-IsSent m queue j ne (inl waits) = inl waits
still-IsSent m queue j ne (inr sent) = inr (ground (arith, eq_iff m.job_id j.id))

pub left-AreSent :
    (m : QueueMessage) (queue : List QueueMessage) (jobs : List BackgroundJob)
    → All (IsLeft m) jobs
    → All (IsSent (m ∷ queue)) jobs
    → All (IsSent queue) jobs
left-AreSent m queue [] l s = tt
left-AreSent m queue (j ∷ jobs) (inl ne, l) (s, h) =
    (still-IsSent m queue j ne s, left-AreSent m queue jobs l h)
left-AreSent m queue (j ∷ jobs) (inr waits, l) (s, h) = (inl waits, left-AreSent m queue jobs l h)

pub absent-IsLeft :
    (m : QueueMessage) (jobs : List BackgroundJob)
    → find (λ j. j.id == m.job_id) jobs ≡ none
    → All (IsLeft m) jobs
absent-IsLeft m [] h = tt
absent-IsLeft m (j ∷ jobs) h =
    (inl (λ e. ground (arith, eq_iff j.id m.job_id)), absent-IsLeft m jobs (ground arith))

others-IsLeft :
    (m : QueueMessage) (jobs : List BackgroundJob)
    → All (λ y. y ≢ m.job_id) (ids jobs)
    → All (IsLeft m) jobs
others-IsLeft m [] h = tt
others-IsLeft m (j ∷ jobs) (ne, h) = (inl ne, others-IsLeft m jobs h)

pub found-IsLeft :
    (m : QueueMessage) (jobs : List BackgroundJob) (job : BackgroundJob)
    → AreDistinct (ids jobs)
    → find (λ j. j.id == m.job_id) jobs ≡ some job
    → job.status ≢ "QUEUED"
    → All (IsLeft m) jobs
found-IsLeft m [] job u h w = tt
found-IsLeft m (j ∷ jobs) job (ne, u) h w = elim (Bool-cases (j.id == m.job_id)) [
  | inl e ↦
      let same : j ≡ job = ground arith in
      let own : j.id ≡ m.job_id = ground (arith, eq_iff j.id m.job_id) in
      (
        inr (subst (λ k. k.status ≢ "QUEUED") (sym same) w),
        others-IsLeft m jobs (subst (λ k. All (λ y. y ≢ k) (ids jobs)) own ne),
      )
  | inr e ↦
      (inl (λ q. ground (arith, eq_iff j.id m.job_id)), found-IsLeft m jobs job u (ground arith) w)
]

-- two updates of the message's jobs, the second of which settles their status
pub settled-AreSent :
    (m : QueueMessage) (queue after : List QueueMessage) (f g : BackgroundJob → BackgroundJob)
    (jobs : List BackgroundJob)
    → ((j : BackgroundJob) → (f j).id ≡ j.id)
    → ((j : BackgroundJob) → j.id ≡ m.job_id → IsSent after (g (f j)))
    → ((j : BackgroundJob) → IsSent queue j → IsSent after j)
    → All (IsSent (m ∷ queue)) jobs
    → All
        (IsSent after)
        (update_where (λ j. j.id == m.job_id) g (update_where (λ j. j.id == m.job_id) f jobs))
settled-AreSent m queue after f g [] same own other h = tt
settled-AreSent m queue after f g (j ∷ jobs) same own other (s, h) =
    elim (Bool-cases (j.id == m.job_id)) [
      | inl e ↦
          let moved = subst (λ x. (x == m.job_id) ≡ true) (sym (same j)) e in
          rw (e, moved)
            (
              own j (ground (arith, eq_iff j.id m.job_id)),
              settled-AreSent m queue after f g jobs same own other h,
            )
      | inr e ↦
          rw (e, e)
            (
              other j (still-IsSent m queue j (λ q. ground (arith, eq_iff j.id m.job_id)) s),
              settled-AreSent m queue after f g jobs same own other h,
            )
    ]

pub own_message :
    (m : QueueMessage) (queue : List QueueMessage) (id : String)
    → m.job_id ≡ id
    → any (λ x. x.job_id == id) (queue ++ m ∷ []) ≡ true
own_message m [] id e = ground (arith, eq_iff m.job_id id)
own_message m (x ∷ queue) id e = ground (arith, own_message m queue id e)

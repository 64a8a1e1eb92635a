-- ===== src/Queue/Tests.antt =====
-- The worker and a submission on a stream: a job of an unsupported kind, which is enqueued again.
use lead_generation_api_zyla.Prelude.{some, false, refl, none, List, [], ◌∷◌, inr, arith, eq_iff}
use lead_generation_api_zyla.Models.{BackgroundJob, Db}
use lead_generation_api_zyla.Jobs.{execute_job}
use lead_generation_api_zyla.Jobs.Drain.{execute_job-Leaves}
use lead_generation_api_zyla.Queue.Entries.{field_of}
use lead_generation_api_zyla.Queue.Covered.{AllCovered, Ends}
use lead_generation_api_zyla.Queue.Worker.{run_worker}
use lead_generation_api_zyla.Queue.Safety.{run_worker_loses_one}
use lead_generation_api_zyla.Security.{AuthContext}
use lead_generation_api_zyla.Search.Tests.{demo_env, demo_db}
use lead_generation_api_zyla.Queue.Submission.{create_job_redis, create_job_redis-AllCovered}
use lead_generation_api_zyla.Queue.DemoStream.{
  Row, IsPosted, IsHeld, IsAcked, added_row, demo_redis,
}
use lead_generation_api_zyla.Queue.DemoLaws.{demo-IsStream}

abbrev job : BackgroundJob
job = record {
  id = "j1";
  tenant_id = none;
  kind = "export";
  status = "QUEUED";
  attempts = 0;
  last_error = none;
  created_at = 0;
  updated_at = 0;
  completed_at = none;
}

abbrev job_db : Db
job_db = record demo_db { background_jobs = job ∷ [] }

abbrev stream : List Row
stream = added_row "1-1" (("job_id", "j1") ∷ ("kind", "export") ∷ []) ∷ []

demo-AllCovered : AllCovered IsPosted IsHeld IsAcked demo_redis demo-IsStream 12 (stream, job_db)
unfolding IsHeld IsPosted IsAcked field_of
demo-AllCovered = record {
  distinct = (tt, tt);
  covered = (
    inr (
      0,
      ("1-1", ("job_id", "j1") ∷ ("kind", "export") ∷ []),
      ((added_row "1-1" (("job_id", "j1") ∷ ("kind", "export") ∷ []), refl, refl), omega arith),
      omega arith,
      (λ (r, there, is_acked). cc),
      refl,
    ),
    tt,
  );
}

run_worker_loses_one_example : Ends IsPosted IsHeld IsAcked demo_redis demo-IsStream (
    run_worker demo_redis 7
      (λ e. "ValueError")
      (execute_job demo_env 100)
      3
      "redis"
      false
      2
      (stream, job_db))
run_worker_loses_one_example =
    run_worker_loses_one IsPosted IsHeld IsAcked demo_redis demo-IsStream 7 (λ e. "ValueError")
      (execute_job demo_env 100) 3 (execute_job-Leaves demo_env 100) "redis" false 2 stream job_db
      (omega arith) demo-AllCovered

abbrev operator : AuthContext
operator = record {
  tenant_id = "t1";
  actor_id = some "u1";
  role = "ADMIN";
  scopes = "*" ∷ [];
  api_key_id = none;
}

create_job_redis-AllCovered_example :
    AllCovered IsPosted IsHeld IsAcked demo_redis demo-IsStream 11
      (create_job_redis demo_redis demo_env
        (λ e. "ResponseError")
        "retention_cleanup"
        operator
        (stream, job_db)).1
create_job_redis-AllCovered_example =
    create_job_redis-AllCovered IsPosted IsHeld IsAcked demo_redis demo-IsStream demo_env
      (λ e. "ResponseError") 11 "retention_cleanup" operator stream job_db (omega arith)
      ((λ e. ground (arith, eq_iff "j1" "u")), tt) demo-AllCovered

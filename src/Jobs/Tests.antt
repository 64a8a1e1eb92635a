-- ===== src/Jobs/Tests.antt =====
-- Concrete runs of the jobs and of the worker: an unsupported kind, which fails each time.
use lead_generation_api_zyla.Prelude.{String, ◌≡◌, ◌↔◌, none, some, List, [], ◌∷◌, All, arith}
use lead_generation_api_zyla.Errors.{Raised}
use lead_generation_api_zyla.Models.{Db, BackgroundJob, CreditLedger}
use lead_generation_api_zyla.Jobs.{QueueMessage, execute_job, run_credit_reconciliation, drain}
use lead_generation_api_zyla.Jobs.Drain.{drain_returns, execute_job-Leaves}
use lead_generation_api_zyla.Jobs.Reconciliation.{IsInOrder, mismatches, reconciliation_finds}
use lead_generation_api_zyla.Search.Tests.{demo_env, demo_db}

abbrev job : BackgroundJob
job = record {
  id = "j1";
  tenant_id = none;
  kind = "export";
  status = "QUEUED";
  attempts = 0;
  last_error = none;
  created_at = 0;
  updated_at = 0;
  completed_at = none;
}

abbrev job_db : Db
job_db = record demo_db { background_jobs = job ∷ [] }

abbrev queue : List QueueMessage
queue = record { job_id = "j1"; kind = "export" } ∷ []

abbrev describe : Raised → String
describe e = "ValueError"

drain_returns_example :
    (db : Db) × (drain 7 describe (execute_job demo_env 100) 3 4 queue job_db ≡ some db)
drain_returns_example =
    drain_returns 7 describe (execute_job demo_env 100) 3 (execute_job-Leaves demo_env 100) 4 queue
      job_db (omega arith)

reconciliation_finds_example :
    (mismatches (run_credit_reconciliation demo_db) ≡ 0)
    ↔ All (λ (r : CreditLedger). IsInOrder demo_db r.tenant_id) demo_db.credit_ledger
reconciliation_finds_example = reconciliation_finds demo_db

-- ===== src/Jobs.antt =====
-- app/jobs.py and scripts/worker.py: the jobs that are kept in the database, what they run, and the
-- worker that takes their deliveries from the queue. `retention` is `DATA_RETENTION_DAYS` in the
-- clock's unit; a database failure of a job is one that the parameter `execute` of the worker may raise.
pub mod Reconciliation
pub mod Drain
pub mod Tests
use Prim.Native.String.{◌++◌ as str_append}
use lead_generation_api_zyla.Prelude.{
  ℕ, zero, suc, ◌+◌, ◌-◌, String, Bool, true, false, not, Option, none, some, List, [], ◌∷◌, ◌++◌,
  ◌==◌, ◌||◌, if◌then◌else◌, find, keep, length, update_where, ltb, leb,
}
use lead_generation_api_zyla.Prelude.Int.{ℤ, eqb_ℤ}
use lead_generation_api_zyla.Prelude.Text.{mem}
use lead_generation_api_zyla.Errors.{Raised, Result, ok, err, value_error}
use lead_generation_api_zyla.Exec.{Exec}
use lead_generation_api_zyla.Env.{Env}
use lead_generation_api_zyla.Models.{Tenant, CreditLedger, BackgroundJob, Db}
use lead_generation_api_zyla.Ledger.{ledger_sum}

-- the dicts that jobs return
pub data Report : Type 0 where
  cleaned : ℕ → ℕ → ℕ → Report
  reconciled : ℕ → ℕ → Report

-- the rows that a `delete … where created_at < cutoff` keeps, and how many it deletes
abbrev kept {ℓ} : {A : Type ℓ} → (A → ℕ) → ℕ → List A → List A
kept stamp cutoff rows = keep (λ r. leb cutoff (stamp r)) rows

abbrev deleted {ℓ} : {A : Type ℓ} → (A → ℕ) → ℕ → List A → ℕ
deleted stamp cutoff rows = length (keep (λ r. ltb (stamp r) cutoff) rows)

pub run_retention_cleanup : Env → ℕ → Exec Db Report
run_retention_cleanup env retention db =
    let cutoff = env.now - retention in
    (
      ok (
          cleaned (deleted (λ r. r.created_at) cutoff db.usage_records)
            (deleted (λ r. r.created_at) cutoff db.searches)
            (deleted (λ r. r.expires_at) env.now db.idempotency_records)),
      record db {
        usage_records = kept (λ r. r.created_at) cutoff db.usage_records;
        searches = kept (λ r. r.created_at) cutoff db.searches;
        idempotency_records = kept (λ r. r.expires_at) env.now db.idempotency_records;
      },
    )

-- the groups of `group_by(CreditLedger.tenant_id)`
unfoldable pub groups : List CreditLedger → List String
groups [] = []
groups (r ∷ rows) =
    let rest = groups rows in if mem r.tenant_id rest then rest else r.tenant_id ∷ rest

-- does the tenant of a group differ from its sum
abbrev pub differs : Db → String → Bool
differs db id = elim (find (λ t. t.id == id) db.tenants) [
  | none ↦ false
  | some t ↦ not (eqb_ℤ t.credits_balance (ledger_sum id db.credit_ledger))
]

pub run_credit_reconciliation : Db → Report
run_credit_reconciliation db =
    let rows = groups db.credit_ledger in reconciled (length rows) (length (keep (differs db) rows))

-- `execute_job`
pub execute_job : Env → ℕ → BackgroundJob → Exec Db Report
unfolding run_retention_cleanup run_credit_reconciliation
execute_job env retention job db =
    if job.kind == "retention_cleanup"
    then run_retention_cleanup env retention db
    else if job.kind == "credit_reconciliation"
    then (ok (run_credit_reconciliation db), db)
    else (err (value_error (str_append "unsupported job kind: " job.kind)), db)

-- a `QueueMessage` without its `message_id`
pub record QueueMessage : Type 0 where
  pub job_id : String
  pub kind : String

-- `describe` is the text that the source builds of an exception, `max_attempts` is that of the call
module _ (now : ℕ) (describe : Raised → String) (execute : BackgroundJob → Exec Db Report)
    (max_attempts : ℕ) where
  abbrev pub started : BackgroundJob → BackgroundJob
  started j = record j { status = "RUNNING"; attempts = suc j.attempts; updated_at = now }

  abbrev pub failed : String → Raised → BackgroundJob → BackgroundJob
  failed status e j = record j { status = status; last_error = some (describe e); updated_at = now }

  abbrev pub succeeded : BackgroundJob → BackgroundJob
  succeeded j = record j {
    status = "SUCCEEDED";
    last_error = none;
    completed_at = some now;
    updated_at = now;
  }

  abbrev pub set_job : String → (BackgroundJob → BackgroundJob) → Db → Db
  set_job id f db = record db {
    background_jobs = update_where (λ j. j.id == id) f db.background_jobs;
  }

  -- `"FAILED" if job.attempts >= max_attempts else "QUEUED"`
  abbrev pub after_failure : ℕ → String
  after_failure attempts = if leb max_attempts attempts then "FAILED" else "QUEUED"

  -- what follows the `try`, for the job as it was started
  abbrev pub conclude : BackgroundJob → Result Report × Db → (Bool × Bool) × Db
  conclude job (ok _, db) = ((true, false), set_job job.id succeeded db)
  conclude job (err e, db) =
      let status = after_failure job.attempts in
      ((false, status == "QUEUED"), set_job job.id (failed status e) db)

  abbrev pub attempt : BackgroundJob → Db → (Bool × Bool) × Db
  attempt job db = conclude (started job) (execute (started job) (set_job job.id started db))

  abbrev pub process_found : Option BackgroundJob → Db → (Bool × Bool) × Db
  process_found none db = ((true, false), db)
  process_found (some job) db =
      if job.status == "SUCCEEDED" then ((true, false), db) else attempt job db

  -- `process_message`
  unfoldable pub process_message : QueueMessage → Db → (Bool × Bool) × Db
  process_message m db = process_found (find (λ j. j.id == m.job_id) db.background_jobs) db

  -- one round of `run_worker`: process, acknowledge, and enqueue again where that is asked for
  abbrev pub deliver : QueueMessage → List QueueMessage → Db → List QueueMessage × Db
  deliver m queue db =
      let ((_, should_retry), db') = process_message m db in
      (if should_retry then queue ++ m ∷ [] else queue, db')

  -- `run_worker` on a queue that nobody else fills, until it is empty; nothing when the fuel runs out
  unfoldable pub drain : ℕ → List QueueMessage → Db → Option Db
  drain fuel [] db = some db
  drain zero (m ∷ queue) db = none
  drain (suc fuel) (m ∷ queue) db = let (queue', db') = deliver m queue db in drain fuel queue' db'

-- ===== src/Operations.antt =====
-- The routes of app/main.py for privacy, jobs and usage, with submit_job of app/jobs.py. A request
-- that raises before it writes leaves the tables alone.
pub mod Suppressions
pub mod Isolation
pub mod Submission
pub mod Delivery
pub mod Finish
pub mod Tests
use Prim.Native.String.{◌++◌ as str_append}
use lead_generation_api_zyla.Prelude.{
  ℕ, suc, ◌+◌, String, Bool, true, false, not, ◌&&◌, ◌||◌, ◌==◌, Option, none, some, List, [], ◌∷◌,
  ◌++◌, map, find, keep, length, update_where, newest_first, if◌then◌else◌,
}
use lead_generation_api_zyla.Errors.{Raised, Result, ok, err, app_error, unexpected, ◌>>=◌, ◌>>◌}
use lead_generation_api_zyla.Exec.{Exec}
use lead_generation_api_zyla.Env.{Env}
use lead_generation_api_zyla.Models.{
  BackgroundJob, Suppression, DataSubjectRequest, UsageRecord, Search, Db,
}
use lead_generation_api_zyla.Schemas.Operations.{
  SuppressionRequest, subject_type_text, SuppressionResponse, DataSubjectRequestCreate,
  request_type_text, DataSubjectRequestResponse, JobResponse, Totals, UsageSummaryResponse,
}
use lead_generation_api_zyla.Privacy.{hash_subject}
use lead_generation_api_zyla.Security.{AuthContext, require_scope}
use lead_generation_api_zyla.Accounts.{drew, after_scope}
use lead_generation_api_zyla.Jobs.{QueueMessage}

abbrev pub request_response : DataSubjectRequest → DataSubjectRequestResponse
request_response entry = record {
  id = entry.id;
  request_type = entry.request_type;
  status = entry.status;
  created_at = entry.created_at;
  completed_at = entry.completed_at;
}

abbrev pub suppression_response : Suppression → SuppressionResponse
suppression_response entry = record {
  id = entry.id;
  subject_type = entry.subject_type;
  created_at = entry.created_at;
}

abbrev pub job_response : BackgroundJob → JobResponse
job_response job = record {
  id = job.id;
  kind = job.kind;
  status = job.status;
  attempts = job.attempts;
  created_at = job.created_at;
  updated_at = job.updated_at;
  completed_at = job.completed_at;
  last_error = job.last_error;
}

-- `BackgroundJob.tenant_id == tenant_id`, where the column may be null
abbrev pub is_job_of : String → BackgroundJob → Bool
is_job_of tenant_id job = elim job.tenant_id [ none ↦ false | some t ↦ t == tenant_id ]

-- `list_privacy_requests`
pub list_privacy_requests : AuthContext → Db → Result (List DataSubjectRequestResponse)
list_privacy_requests context db = do
  require_scope context "privacy:read"
  ok (
      map request_response (
        newest_first (λ e. e.created_at)
          (keep (λ e. e.tenant_id == context.tenant_id) db.data_subject_requests)))

abbrev pub job_found : Option BackgroundJob → Result JobResponse
job_found none = err (app_error "NOT_FOUND" "Job was not found." 404)
job_found (some job) = ok (job_response job)

-- `get_job`
pub get_job : String → AuthContext → Db → Result JobResponse
get_job job_id context db = do
  require_scope context "jobs:read"
  job_found (find (λ j. (j.id == job_id) && is_job_of context.tenant_id j) db.background_jobs)

-- `func.coalesce(func.sum(…), 0)`
abbrev pub total_of {ℓ} : {A : Type ℓ} → (A → ℕ) → List A → ℕ
total_of amount [] = 0
total_of amount (x ∷ xs) = amount x + total_of amount xs

abbrev pub totals_of : String → Db → Totals
totals_of tenant_id db =
    let records = keep (λ r. r.tenant_id == tenant_id) db.usage_records in
    record {
      requests = length records;
      credits_used = total_of (λ r. r.credits_used) records;
      leads_returned =
          total_of (λ s. s.result_count) (keep (λ s. s.tenant_id == tenant_id) db.searches);
    }

module _ (env : Env) where
  -- `usage`
  pub usage : String → AuthContext → Db → Result UsageSummaryResponse
  usage request_id context db = do
    require_scope context "usage:read"
    ok (record { request_id = request_id; to = env.now; totals = totals_of context.tenant_id db })

  abbrev pub same_subject : AuthContext → SuppressionRequest → Suppression → Bool
  same_subject context payload r =
      (r.tenant_id == context.tenant_id)
      && ((r.subject_type == subject_type_text payload.subject_type)
          && (r.subject_hash == hash_subject env payload.subject))

  abbrev pub new_suppression : AuthContext → SuppressionRequest → String → Suppression
  new_suppression context payload id = record {
    id = id;
    tenant_id = context.tenant_id;
    subject_type = subject_type_text payload.subject_type;
    subject_hash = hash_subject env payload.subject;
    reason = payload.reason;
    created_at = env.now;
  }

  abbrev pub unless_suppressed :
      AuthContext → SuppressionRequest → Option Suppression → Exec Db SuppressionResponse
  unless_suppressed context payload (some existing) db = (ok (suppression_response existing), db)
  unless_suppressed context payload none db =
      let entry = new_suppression context payload (env.uuid db.catalog.drawn) in
      (
        ok (suppression_response entry),
        record (drew 1 db) { suppressions = db.suppressions ++ entry ∷ [] },
      )

  -- `create_suppression`
  pub create_suppression : AuthContext → SuppressionRequest → Exec Db SuppressionResponse
  create_suppression context payload = after_scope (require_scope context "privacy:write") (λ db.
      unless_suppressed context payload (find (same_subject context payload) db.suppressions) db)

  abbrev pub new_request : AuthContext → DataSubjectRequestCreate → String → DataSubjectRequest
  new_request context payload id = record {
    id = id;
    tenant_id = context.tenant_id;
    request_type = request_type_text payload.request_type;
    subject_hash = hash_subject env payload.subject;
    status = "RECEIVED";
    created_at = env.now;
    completed_at = none;
  }

  -- `create_privacy_request`
  pub create_privacy_request :
      AuthContext → DataSubjectRequestCreate → Exec Db DataSubjectRequestResponse
  create_privacy_request context payload =
      after_scope (require_scope context "privacy:write") (λ db.
        let entry = new_request context payload (env.uuid db.catalog.drawn) in
        (
          ok (request_response entry),
          record (drew 1 db) { data_subject_requests = db.data_subject_requests ++ entry ∷ [] },
        ))

  abbrev pub new_job : String → Option String → String → BackgroundJob
  new_job kind tenant_id id = record {
    id = id;
    tenant_id = tenant_id;
    kind = kind;
    status = "QUEUED";
    attempts = 0;
    last_error = none;
    created_at = env.now;
    updated_at = env.now;
    completed_at = none;
  }

  abbrev pub create_job_record : BackgroundJob → Db → Db
  create_job_record job db = record (drew 1 db) { background_jobs = db.background_jobs ++ job ∷ [] }

  abbrev pub queue_failed : String → BackgroundJob → BackgroundJob
  queue_failed error_type job = record job {
    status = "FAILED";
    last_error = some (str_append "queue submission failed: " error_type);
    updated_at = env.now;
  }

  abbrev pub mark_job_failed : String → String → Db → Db
  mark_job_failed job_id error_type db = record db {
    background_jobs =
        update_where (λ j. j.id == job_id) (queue_failed error_type) db.background_jobs;
  }

  -- `queue.enqueue` raises an exception of a class, or the message is in the queue
  abbrev pub submitted : Option String → BackgroundJob → Exec (Db × List QueueMessage) BackgroundJob
  submitted none job (db, queue) =
      (ok job, (db, queue ++ record { job_id = job.id; kind = job.kind } ∷ []))
  submitted (some error_type) job (db, queue) =
      (err (unexpected error_type), (mark_job_failed job.id error_type db, queue))

  -- `submit_job`
  abbrev pub submit_job :
      Option String → String → Option String → Exec (Db × List QueueMessage) BackgroundJob
  submit_job raised kind tenant_id (db, queue) =
      let job = new_job kind tenant_id (env.uuid db.catalog.drawn) in
      submitted raised job (create_job_record job db, queue)

  abbrev pub job_created :
      Result BackgroundJob × (Db × List QueueMessage)
      → Result JobResponse × (Db × List QueueMessage)
  job_created (ok job, s) = (ok (job_response job), s)
  job_created (err e, s) =
      (err (app_error "QUEUE_UNAVAILABLE" "The background queue is unavailable." 503), s)

  abbrev pub if_known :
      Option String → String → AuthContext → Exec (Db × List QueueMessage) JobResponse
  if_known raised kind context s =
      if (kind == "retention_cleanup") || (kind == "credit_reconciliation")
      then job_created (submit_job raised kind (some context.tenant_id) s)
      else (err (app_error "INVALID_JOB" "Unsupported job kind." 422), s)

  abbrev pub if_scoped :
      Option String
      → String
      → AuthContext
      → Result (Unit {0})
      → Exec (Db × List QueueMessage) JobResponse
  if_scoped raised kind context (err e) s = (err e, s)
  if_scoped raised kind context (ok _) s = if_known raised kind context s

  -- `create_job`
  unfoldable pub create_job :
      Option String → String → AuthContext → Exec (Db × List QueueMessage) JobResponse
  create_job raised kind context s =
      if_scoped raised kind context (require_scope context "jobs:write") s

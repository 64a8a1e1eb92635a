-- ===== src/Operations/Tests.antt =====
-- Concrete runs of the privacy and job routes.
use lead_generation_api_zyla.Prelude.{
  length, ◌*◌, ◌≤◌, arith, ◌≢◌, All, ◌≡◌, refl, none, some, List, [], ◌∷◌, ◌++◌,
}
use lead_generation_api_zyla.Prelude.Text.{join, upper}
use mathlib.Core.List.{Memᴰ}
use lead_generation_api_zyla.Errors.{Result, ok}
use lead_generation_api_zyla.Exec.{◌>>=◌}
use lead_generation_api_zyla.Models.{BackgroundJob, Db, transaction, ledger_taken}
use lead_generation_api_zyla.Privacy.{normalize_subject, hash_subject}
use lead_generation_api_zyla.Schemas.Operations.{
  domain, contact, SuppressionRequest, SuppressionResponse,
}
use lead_generation_api_zyla.Schemas.Responses.{LeadSearchResponse}
use lead_generation_api_zyla.Providers.{synthetic_records}
use lead_generation_api_zyla.Services.{
  ScoredLead, clamp_score, total, points, intent_points, domain_of,
}
use lead_generation_api_zyla.Search.{persist_lead_search}
use lead_generation_api_zyla.Search.Select.{unsuppressed, score_all, choose}
use lead_generation_api_zyla.Search.Persist.{persist_items, persist_item}
use lead_generation_api_zyla.Search.Persist.Answers.{Answers}
use lead_generation_api_zyla.Search.Tests.{demo_env, demo_call, demo_db, returned}
use lead_generation_api_zyla.Security.{AuthContext}
use lead_generation_api_zyla.Accounts.{me, list_keys}
use lead_generation_api_zyla.Accounts.Tests.{demo_lib}
use lead_generation_api_zyla.Operations.{
  create_suppression, new_suppression, new_job, create_job, list_privacy_requests, get_job, usage,
}
use lead_generation_api_zyla.Operations.Suppressions.{AvoidsSubject, suppression_hides}
use lead_generation_api_zyla.Operations.Isolation.{rows_of, reads_are_isolated}
use lead_generation_api_zyla.Jobs.{QueueMessage, execute_job, drain}
use lead_generation_api_zyla.Jobs.Drain.{execute_job-Leaves}
use lead_generation_api_zyla.Operations.Delivery.{AreDistinct, ids}
use lead_generation_api_zyla.Operations.Finish.{no_job_is_left}
use lead_generation_api_zyla.Operations.Submission.{AreSent, create_job-AreSent}

abbrev caller : AuthContext
caller = record {
  tenant_id = "t1";
  actor_id = some "u1";
  role = "TENANT_ADMIN";
  scopes = "*" ∷ [];
  api_key_id = none;
}

abbrev request : SuppressionRequest
request = record {
  subject_type = domain;
  subject = " Insurance.Example.INVALID";
  reason = "opt-out";
}

abbrev other_request : SuppressionRequest
other_request = record { subject_type = contact; subject = "no one"; reason = "asked" }

abbrev spelled : SuppressionRequest
spelled = record { subject_type = domain; subject = "insurance.example.invalid "; reason = "again" }

abbrev suppressed : Result SuppressionResponse × Db
suppressed = create_suppression demo_env caller request demo_db

abbrev entry : SuppressionResponse
entry = record { id = "u"; subject_type = "domain"; created_at = 2000000 }

suppress_run : suppressed ≡ (ok entry, suppressed.1)
unfolding create_suppression
suppress_run = refl

-- the tables of a later search, with one more suppression
abbrev later_db : Db
later_db = record (suppressed.1) {
  suppressions =
      suppressed.1.suppressions ++ new_suppression demo_env caller other_request "s2" ∷ [];
}

abbrev outcome : Result LeadSearchResponse × Db
outcome =
    persist_lead_search (record demo_env { now = 2500000 }) demo_call synthetic_records later_db

search_run : outcome ≡ (ok (returned outcome.0), outcome.1)
unfolding persist_lead_search transaction ◌>>=◌ unsuppressed join score_all choose clamp_score total
    points intent_points persist_items persist_item domain_of upper ledger_taken create_suppression
    hash_subject normalize_subject
search_run = refl

suppression_hides_example :
    (chosen : List ScoredLead) × Answers (returned outcome.0).data_rows chosen
    × All (λ s. Memᴰ s.source synthetic_records × AvoidsSubject request s.source) chosen
suppression_hides_example =
    suppression_hides demo_env caller request demo_db suppressed.1 entry 2500000 demo_call
      synthetic_records later_db outcome.1 (new_suppression demo_env caller other_request "s2" ∷ [])
      (returned outcome.0) suppress_run refl refl search_run

-- a job of another tenant
abbrev shared : Db
shared = record demo_db {
  background_jobs = new_job demo_env "retention_cleanup" (some "t2") "j1" ∷ [];
}

reads_are_isolated_example :
    (me demo_env demo_lib caller (rows_of "t1" shared) ≡ me demo_env demo_lib caller shared)
    × (list_keys caller (rows_of "t1" shared) ≡ list_keys caller shared)
    × (list_privacy_requests caller (rows_of "t1" shared) ≡ list_privacy_requests caller shared)
    × (get_job "j1" caller (rows_of "t1" shared) ≡ get_job "j1" caller shared)
    × (usage demo_env "r1" caller (rows_of "t1" shared) ≡ usage demo_env "r1" caller shared)
reads_are_isolated_example = reads_are_isolated demo_env demo_lib caller shared "j1" "r1"

-- a job that is submitted to an empty queue
abbrev submitted_job : Db × List QueueMessage
submitted_job = (create_job demo_env none "retention_cleanup" caller (demo_db, [])).1

sent : AreSent submitted_job
unfolding create_job
sent = create_job-AreSent demo_env none "retention_cleanup" caller demo_db [] tt

distinct : AreDistinct (ids submitted_job.0.background_jobs)
unfolding create_job
distinct = (tt, tt)

enough : length submitted_job.1 * 4 ≤ 4
unfolding create_job
enough = omega arith

no_job_is_left_example :
    (db' : Db) × (drain 7
        (λ e. "ValueError")
        (execute_job demo_env 100)
        3
        4
        submitted_job.1
        submitted_job.0
      ≡ some db')
    × All (λ (j : BackgroundJob). j.status ≢ "QUEUED") db'.background_jobs
no_job_is_left_example =
    no_job_is_left 7 (λ e. "ValueError") (execute_job demo_env 100) 3
      (execute_job-Leaves demo_env 100) 4 submitted_job.1 submitted_job.0 distinct sent enough

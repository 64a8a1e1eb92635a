-- ===== src/Migrations/MoreTables.antt =====
-- alembic/versions/426db6f2f12c_initial_schema.py, the other tables, and the table of
-- alembic/versions/804d98c2b4d6_add_billing_events.py.
use lead_generation_api_zyla.Prelude.{true, false, some, [], ◌∷◌}
use lead_generation_api_zyla.Migrations.Commands.{
  Table, string, integer, json, date_time, column, foreign_key,
}

abbrev pub data_subject_requests : Table
data_subject_requests = record {
  name = "data_subject_requests";
  columns =
      column "id" (string 36) false
      ∷ column "tenant_id" (string 36) false
      ∷ column "request_type" (string 30) false
      ∷ column "subject_hash" (string 64) false
      ∷ column "status" (string 30) false
      ∷ column "created_at" date_time false
      ∷ column "completed_at" date_time true
      ∷ [];
  foreign_keys = foreign_key "tenant_id" "tenants" "id" "CASCADE" ∷ [];
  primary_key = "id" ∷ [];
  unique_constraints = [];
}

abbrev pub searches : Table
searches = record {
  name = "searches";
  columns =
      column "id" (string 36) false
      ∷ column "tenant_id" (string 36) false
      ∷ column "request_hash" (string 64) false
      ∷ column "filters" json false
      ∷ column "result_count" integer false
      ∷ column "credits_used" integer false
      ∷ column "created_at" date_time false
      ∷ [];
  foreign_keys = foreign_key "tenant_id" "tenants" "id" "CASCADE" ∷ [];
  primary_key = "id" ∷ [];
  unique_constraints = [];
}

abbrev pub suppressions : Table
suppressions = record {
  name = "suppressions";
  columns =
      column "id" (string 36) false
      ∷ column "tenant_id" (string 36) false
      ∷ column "subject_type" (string 50) false
      ∷ column "subject_hash" (string 64) false
      ∷ column "reason" (string 255) false
      ∷ column "created_at" date_time false
      ∷ [];
  foreign_keys = foreign_key "tenant_id" "tenants" "id" "CASCADE" ∷ [];
  primary_key = "id" ∷ [];
  unique_constraints =
      (some "uq_suppression_subject", "tenant_id" ∷ "subject_type" ∷ "subject_hash" ∷ []) ∷ [];
}

abbrev pub users : Table
users = record {
  name = "users";
  columns =
      column "id" (string 36) false
      ∷ column "tenant_id" (string 36) false
      ∷ column "email" (string 320) false
      ∷ column "password_hash" (string 255) false
      ∷ column "role" (string 40) false
      ∷ column "created_at" date_time false
      ∷ [];
  foreign_keys = foreign_key "tenant_id" "tenants" "id" "CASCADE" ∷ [];
  primary_key = "id" ∷ [];
  unique_constraints = (some "uq_users_tenant_email", "tenant_id" ∷ "email" ∷ []) ∷ [];
}

abbrev pub contacts : Table
contacts = record {
  name = "contacts";
  columns =
      column "id" (string 36) false
      ∷ column "tenant_id" (string 36) false
      ∷ column "company_id" (string 36) false
      ∷ column "first_name" (string 100) true
      ∷ column "last_name" (string 100) true
      ∷ column "job_title" (string 150) true
      ∷ column "email" (string 320) true
      ∷ column "data_status" (string 30) false
      ∷ [];
  foreign_keys =
      foreign_key "company_id" "companies" "id" "CASCADE"
      ∷ foreign_key "tenant_id" "tenants" "id" "CASCADE"
      ∷ [];
  primary_key = "id" ∷ [];
  unique_constraints = [];
}

abbrev pub usage_records : Table
usage_records = record {
  name = "usage_records";
  columns =
      column "id" (string 36) false
      ∷ column "tenant_id" (string 36) false
      ∷ column "api_key_id" (string 36) true
      ∷ column "endpoint" (string 200) false
      ∷ column "request_id" (string 100) false
      ∷ column "credits_used" integer false
      ∷ column "response_status" integer false
      ∷ column "provider" (string 100) true
      ∷ column "latency_ms" integer true
      ∷ column "created_at" date_time false
      ∷ [];
  foreign_keys =
      foreign_key "api_key_id" "api_keys" "id" "SET NULL"
      ∷ foreign_key "tenant_id" "tenants" "id" "CASCADE"
      ∷ [];
  primary_key = "id" ∷ [];
  unique_constraints = [];
}

abbrev pub leads : Table
leads = record {
  name = "leads";
  columns =
      column "id" (string 36) false
      ∷ column "tenant_id" (string 36) false
      ∷ column "company_id" (string 36) false
      ∷ column "contact_id" (string 36) true
      ∷ column "lead_score" integer false
      ∷ column "icp_score" integer false
      ∷ column "score_breakdown" json false
      ∷ column "status" (string 30) false
      ∷ column "created_at" date_time false
      ∷ [];
  foreign_keys =
      foreign_key "company_id" "companies" "id" "CASCADE"
      ∷ foreign_key "contact_id" "contacts" "id" "SET NULL"
      ∷ foreign_key "tenant_id" "tenants" "id" "CASCADE"
      ∷ [];
  primary_key = "id" ∷ [];
  unique_constraints = [];
}

abbrev pub billing_events : Table
billing_events = record {
  name = "billing_events";
  columns =
      column "id" (string 36) false
      ∷ column "provider" (string 80) false
      ∷ column "event_id" (string 200) false
      ∷ column "tenant_id" (string 36) false
      ∷ column "event_type" (string 100) false
      ∷ column "credits_granted" integer false
      ∷ column "status" (string 30) false
      ∷ column "created_at" date_time false
      ∷ [];
  foreign_keys = foreign_key "tenant_id" "tenants" "id" "CASCADE" ∷ [];
  primary_key = "id" ∷ [];
  unique_constraints = (some "uq_billing_provider_event", "provider" ∷ "event_id" ∷ []) ∷ [];
}

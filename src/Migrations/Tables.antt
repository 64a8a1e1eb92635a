-- ===== src/Migrations/Tables.antt =====
-- alembic/versions/426db6f2f12c_initial_schema.py: the tables of the initial schema that other tables
-- refer to, and those of accounts and jobs.
use lead_generation_api_zyla.Prelude.{true, false, none, some, [], ◌∷◌}
use lead_generation_api_zyla.Migrations.Commands.{
  Table, string, integer, json, date_time, text, column, foreign_key,
}

abbrev pub idempotency_records : Table
idempotency_records = record {
  name = "idempotency_records";
  columns =
      column "id" (string 36) false
      ∷ column "scope_key" (string 300) false
      ∷ column "request_fingerprint" (string 64) false
      ∷ column "response_body" json false
      ∷ column "response_status" integer false
      ∷ column "created_at" date_time false
      ∷ column "expires_at" date_time false
      ∷ [];
  foreign_keys = [];
  primary_key = "id" ∷ [];
  unique_constraints = (some "uq_idempotency_scope_key", "scope_key" ∷ []) ∷ [];
}

abbrev pub tenants : Table
tenants = record {
  name = "tenants";
  columns =
      column "id" (string 36) false
      ∷ column "name" (string 200) false
      ∷ column "slug" (string 120) false
      ∷ column "status" (string 30) false
      ∷ column "credits_balance" integer false
      ∷ column "created_at" date_time false
      ∷ [];
  foreign_keys = [];
  primary_key = "id" ∷ [];
  unique_constraints = [];
}

abbrev pub api_keys : Table
api_keys = record {
  name = "api_keys";
  columns =
      column "id" (string 36) false
      ∷ column "tenant_id" (string 36) false
      ∷ column "name" (string 100) false
      ∷ column "environment" (string 20) false
      ∷ column "key_prefix" (string 32) false
      ∷ column "secret_hash" (string 255) false
      ∷ column "scopes" json false
      ∷ column "status" (string 20) false
      ∷ column "created_at" date_time false
      ∷ column "last_used_at" date_time true
      ∷ [];
  foreign_keys = foreign_key "tenant_id" "tenants" "id" "CASCADE" ∷ [];
  primary_key = "id" ∷ [];
  unique_constraints = (none, "secret_hash" ∷ []) ∷ [];
}

abbrev pub background_jobs : Table
background_jobs = record {
  name = "background_jobs";
  columns =
      column "id" (string 36) false
      ∷ column "tenant_id" (string 36) true
      ∷ column "kind" (string 100) false
      ∷ column "payload" json false
      ∷ column "status" (string 30) false
      ∷ column "attempts" integer false
      ∷ column "available_at" date_time false
      ∷ column "last_error" text true
      ∷ column "created_at" date_time false
      ∷ column "updated_at" date_time false
      ∷ column "completed_at" date_time true
      ∷ [];
  foreign_keys = foreign_key "tenant_id" "tenants" "id" "SET NULL" ∷ [];
  primary_key = "id" ∷ [];
  unique_constraints = [];
}

abbrev pub companies : Table
companies = record {
  name = "companies";
  columns =
      column "id" (string 36) false
      ∷ column "tenant_id" (string 36) false
      ∷ column "name" (string 255) false
      ∷ column "website" (string 500) true
      ∷ column "canonical_domain" (string 255) true
      ∷ column "industry" (string 100) true
      ∷ column "country" (string 3) true
      ∷ column "employee_count" integer true
      ∷ column "data_status" (string 30) false
      ∷ column "created_at" date_time false
      ∷ [];
  foreign_keys = foreign_key "tenant_id" "tenants" "id" "CASCADE" ∷ [];
  primary_key = "id" ∷ [];
  unique_constraints =
      (some "uq_companies_tenant_domain", "tenant_id" ∷ "canonical_domain" ∷ []) ∷ [];
}

abbrev pub credit_ledger : Table
credit_ledger = record {
  name = "credit_ledger";
  columns =
      column "id" (string 36) false
      ∷ column "tenant_id" (string 36) false
      ∷ column "amount" integer false
      ∷ column "reason" (string 100) false
      ∷ column "reference_id" (string 150) false
      ∷ column "metadata" json false
      ∷ column "created_at" date_time false
      ∷ [];
  foreign_keys = foreign_key "tenant_id" "tenants" "id" "CASCADE" ∷ [];
  primary_key = "id" ∷ [];
  unique_constraints =
      (some "uq_credit_ledger_tenant_reference", "tenant_id" ∷ "reference_id" ∷ []) ∷ [];
}

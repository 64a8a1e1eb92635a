-- ===== src/Migrations/Versions.antt =====
-- alembic/versions: what `upgrade` and `downgrade` of the two revisions do, in the order of their
-- statements; 804d98c2b4d6 comes after 426db6f2f12c.
use lead_generation_api_zyla.Prelude.{true, false, List, [], ◌∷◌}
use lead_generation_api_zyla.Migrations.Commands.{
  Command, index, create_table, create_index, drop_table, drop_index,
}
use lead_generation_api_zyla.Migrations.Tables.{
  idempotency_records, tenants, api_keys, background_jobs, companies, credit_ledger,
}
use lead_generation_api_zyla.Migrations.MoreTables.{
  data_subject_requests, searches, suppressions, users, contacts, usage_records, leads,
  billing_events,
}

-- 426db6f2f12c
abbrev pub initial_schema_upgrade : List Command
initial_schema_upgrade =
    create_table idempotency_records
    ∷ create_index
        (index "ix_idempotency_records_expires_at" "idempotency_records" ("expires_at" ∷ []) false)
    ∷ create_table tenants
    ∷ create_index (index "ix_tenants_slug" "tenants" ("slug" ∷ []) true)
    ∷ create_table api_keys
    ∷ create_index (index "ix_api_keys_key_prefix" "api_keys" ("key_prefix" ∷ []) false)
    ∷ create_index (index "ix_api_keys_tenant_id" "api_keys" ("tenant_id" ∷ []) false)
    ∷ create_table background_jobs
    ∷ create_index
        (index "ix_background_jobs_available_at" "background_jobs" ("available_at" ∷ []) false)
    ∷ create_index (index "ix_background_jobs_status" "background_jobs" ("status" ∷ []) false)
    ∷ create_index (index "ix_background_jobs_tenant_id" "background_jobs" ("tenant_id" ∷ []) false)
    ∷ create_table companies
    ∷ create_index
        (index "ix_companies_canonical_domain" "companies" ("canonical_domain" ∷ []) false)
    ∷ create_index (index "ix_companies_tenant_id" "companies" ("tenant_id" ∷ []) false)
    ∷ create_table credit_ledger
    ∷ create_index (index "ix_credit_ledger_tenant_id" "credit_ledger" ("tenant_id" ∷ []) false)
    ∷ create_table data_subject_requests
    ∷ create_index (
        index "ix_data_subject_requests_tenant_id" "data_subject_requests" ("tenant_id" ∷ []) false)
    ∷ create_table searches
    ∷ create_index (index "ix_searches_tenant_id" "searches" ("tenant_id" ∷ []) false)
    ∷ create_table suppressions
    ∷ create_index (index "ix_suppressions_tenant_id" "suppressions" ("tenant_id" ∷ []) false)
    ∷ create_table users
    ∷ create_index (index "ix_users_tenant_id" "users" ("tenant_id" ∷ []) false)
    ∷ create_table contacts
    ∷ create_index (index "ix_contacts_company_id" "contacts" ("company_id" ∷ []) false)
    ∷ create_index (index "ix_contacts_tenant_id" "contacts" ("tenant_id" ∷ []) false)
    ∷ create_table usage_records
    ∷ create_index (index "ix_usage_records_request_id" "usage_records" ("request_id" ∷ []) false)
    ∷ create_index (index "ix_usage_records_tenant_id" "usage_records" ("tenant_id" ∷ []) false)
    ∷ create_table leads
    ∷ create_index (index "ix_leads_company_id" "leads" ("company_id" ∷ []) false)
    ∷ create_index (index "ix_leads_contact_id" "leads" ("contact_id" ∷ []) false)
    ∷ create_index (index "ix_leads_tenant_id" "leads" ("tenant_id" ∷ []) false)
    ∷ []

abbrev pub initial_schema_downgrade : List Command
initial_schema_downgrade =
    drop_index "ix_leads_tenant_id" "leads"
    ∷ drop_index "ix_leads_contact_id" "leads"
    ∷ drop_index "ix_leads_company_id" "leads"
    ∷ drop_table "leads"
    ∷ drop_index "ix_usage_records_tenant_id" "usage_records"
    ∷ drop_index "ix_usage_records_request_id" "usage_records"
    ∷ drop_table "usage_records"
    ∷ drop_index "ix_contacts_tenant_id" "contacts"
    ∷ drop_index "ix_contacts_company_id" "contacts"
    ∷ drop_table "contacts"
    ∷ drop_index "ix_users_tenant_id" "users"
    ∷ drop_table "users"
    ∷ drop_index "ix_suppressions_tenant_id" "suppressions"
    ∷ drop_table "suppressions"
    ∷ drop_index "ix_searches_tenant_id" "searches"
    ∷ drop_table "searches"
    ∷ drop_index "ix_data_subject_requests_tenant_id" "data_subject_requests"
    ∷ drop_table "data_subject_requests"
    ∷ drop_index "ix_credit_ledger_tenant_id" "credit_ledger"
    ∷ drop_table "credit_ledger"
    ∷ drop_index "ix_companies_tenant_id" "companies"
    ∷ drop_index "ix_companies_canonical_domain" "companies"
    ∷ drop_table "companies"
    ∷ drop_index "ix_background_jobs_tenant_id" "background_jobs"
    ∷ drop_index "ix_background_jobs_status" "background_jobs"
    ∷ drop_index "ix_background_jobs_available_at" "background_jobs"
    ∷ drop_table "background_jobs"
    ∷ drop_index "ix_api_keys_tenant_id" "api_keys"
    ∷ drop_index "ix_api_keys_key_prefix" "api_keys"
    ∷ drop_table "api_keys"
    ∷ drop_index "ix_tenants_slug" "tenants"
    ∷ drop_table "tenants"
    ∷ drop_index "ix_idempotency_records_expires_at" "idempotency_records"
    ∷ drop_table "idempotency_records"
    ∷ []

-- 804d98c2b4d6
abbrev pub add_billing_events_upgrade : List Command
add_billing_events_upgrade =
    create_table billing_events
    ∷ create_index (index "ix_billing_events_tenant_id" "billing_events" ("tenant_id" ∷ []) false)
    ∷ []

abbrev pub add_billing_events_downgrade : List Command
add_billing_events_downgrade =
    drop_index "ix_billing_events_tenant_id" "billing_events" ∷ drop_table "billing_events" ∷ []

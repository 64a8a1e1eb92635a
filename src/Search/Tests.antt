-- ===== src/Search/Tests.antt =====
-- Concrete runs of the search, on the fixture provider's records and a small database.
use Prim.Native.String.{◌++◌ as str_append}
use lead_generation_api_zyla.Prelude.{ℕ, zero, suc, String, false, ◌≡◌, refl, none, some, [], ◌∷◌}
use lead_generation_api_zyla.Prelude.Int.{pos, ◌+ℤ◌}
use lead_generation_api_zyla.Errors.{Result, ok, err}
use lead_generation_api_zyla.Exec.{◌>>=◌}
use lead_generation_api_zyla.Env.{Env}
use lead_generation_api_zyla.Schemas.{lead_score, desc}
use lead_generation_api_zyla.Schemas.Responses.{LeadSearchResponse}
use lead_generation_api_zyla.Models.{Db, transaction, ledger_taken}
use lead_generation_api_zyla.Ledger.{IsReconciled, ledger_sum}
use lead_generation_api_zyla.Providers.{synthetic_records}
use lead_generation_api_zyla.Prelude.Text.{join, upper}
use lead_generation_api_zyla.Services.{clamp_score, total, points, intent_points, domain_of}
use lead_generation_api_zyla.Search.Select.{unsuppressed, score_all, choose}
use lead_generation_api_zyla.Search.Persist.{persist_items, persist_item}
use lead_generation_api_zyla.Search.{Call, persist_lead_search}
use lead_generation_api_zyla.Search.Charges.{Books, search_charges}
use lead_generation_api_zyla.Search.Reconciled.{search-IsReconciled}

-- uuids "u", "uu", "uuu", …
abbrev pub demo_uuid : ℕ → String
demo_uuid zero = "u"
demo_uuid (suc n) = str_append "u" (demo_uuid n)

abbrev pub demo_env : Env
demo_env = record {
  now = 2000000;
  latency_ms = 12;
  uuid = demo_uuid;
  hmac_sha256 = λ k m. str_append k m;
  from_iso = λ s. some 1000000;
  api_key_pepper = "pepper";
  repr = λ v. "";
}

abbrev pub demo_call : Call
demo_call = record {
  tenant_id = "t1";
  api_key_id = none;
  request_id = "r1";
  request_fingerprint = "f1";
  payload = record {
    filters = record {
      countries = [];
      industries = "insurance" ∷ [];
      employee_count = none;
      job_titles = [];
      technologies = [];
      lead_score_min = some 20;
    };
    include = "company" ∷ "contact" ∷ [];
    limit = 2;
    cursor = none;
    sort = record { field = lead_score; direction = desc };
  };
  provider_code = "synthetic_provider";
}

abbrev pub demo_db : Db
demo_db = record {
  tenants =
      record { id = "t1"; name = "T"; slug = "t"; status = "ACTIVE"; credits_balance = pos 5 } ∷ [];
  users = [];
  api_keys = [];
  catalog = record { companies = []; contacts = []; leads = []; drawn = 0 };
  searches = [];
  usage_records = [];
  credit_ledger =
      record {
        tenant_id = "t1";
        amount = pos 5;
        reason = "grant";
        reference_id = "free_trial";
        metadata_json = [];
      }
      ∷ [];
  idempotency_records = [];
  background_jobs = [];
  suppressions = [];
  data_subject_requests = [];
  billing_events = [];
}

abbrev pub returned : Result LeadSearchResponse → LeadSearchResponse
returned (ok r) = r
returned (err e) = record {
  request_id = "";
  data_rows = [];
  pagination = record { limit = 0; next_cursor = none; has_more = false };
  usage = record { credits_reserved = 0; credits_used = 0; credits_remaining = pos 0 };
}

abbrev pub demo_outcome : Result LeadSearchResponse × Db
demo_outcome = persist_lead_search demo_env demo_call synthetic_records demo_db

pub demo_search : demo_outcome ≡ (ok (returned demo_outcome.0), demo_outcome.1)
unfolding persist_lead_search transaction ◌>>=◌ unsuppressed join score_all choose clamp_score total
    points intent_points persist_items persist_item domain_of upper ledger_taken
demo_search = refl

search_charges_example : Books demo_env demo_call demo_db (returned demo_outcome.0) demo_outcome.1
search_charges_example =
    search_charges demo_env demo_call synthetic_records demo_db (returned demo_outcome.0)
      demo_outcome.1 demo_search

pub demo-IsReconciled : IsReconciled demo_db
unfolding ledger_sum ◌+ℤ◌
demo-IsReconciled = (refl, tt)

search-IsReconciled_example : IsReconciled demo_outcome.1
search-IsReconciled_example =
    search-IsReconciled demo_env demo_call synthetic_records demo_db demo-IsReconciled

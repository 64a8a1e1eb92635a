-- ===== src/Zyla/Tests.antt =====
-- Concrete runs of the marketplace adapter.
use lead_generation_api_zyla.Prelude.{◌≡◌, refl, none, some, [], ◌∷◌, arith}
use lead_generation_api_zyla.Prelude.Int.{pos, ◌≤ℤ◌}
use lead_generation_api_zyla.Prelude.Text.{strip, split_at}
use lead_generation_api_zyla.Errors.{ok}
use lead_generation_api_zyla.Schemas.{LeadSearchRequest}
use lead_generation_api_zyla.Models.{Db, ledger_taken}
use lead_generation_api_zyla.Search.Tests.{demo_env, demo_db}
use lead_generation_api_zyla.Settings.Tests.{production}
use lead_generation_api_zyla.Zyla.{
  RawQuery, ZylaQuery, csv_items, parse_zyla_query, query_to_payload, zyla_tenant, reserve_entry,
  ensure_zyla_tenant,
}
use lead_generation_api_zyla.Zyla.Query.{parsed_is_valid}
use lead_generation_api_zyla.Zyla.Tenancy.{provisioned_once}

abbrev pub raw : RawQuery
raw = record {
  countries = some "SA, AE,";
  industries = none;
  job_titles = some "";
  technologies = none;
  employee_min = some (pos 10);
  employee_max = none;
  lead_score_min = some (pos 40);
  limit = pos 25;
}

abbrev query : ZylaQuery
query = record {
  countries = "SA" ∷ "AE" ∷ [];
  industries = [];
  job_titles = [];
  technologies = [];
  employee_min = some (pos 10);
  employee_max = none;
  lead_score_min = some (pos 40);
  limit = pos 25;
}

parsed : parse_zyla_query demo_env production raw ≡ ok query
unfolding parse_zyla_query csv_items strip split_at
parsed = refl

parsed_is_valid_example :
    (p : LeadSearchRequest) × (query_to_payload query ≡ ok p) × (pos p.limit ≤ℤ pos 50)
parsed_is_valid_example = parsed_is_valid demo_env production raw query (omega arith) parsed

abbrev provisioned : Db
provisioned = (ensure_zyla_tenant production demo_db).1

first_call : ensure_zyla_tenant production demo_db ≡ (ok (zyla_tenant production), provisioned)
unfolding ensure_zyla_tenant ledger_taken reserve_entry
first_call = refl

provisioned_once_example :
    ensure_zyla_tenant production provisioned ≡ (ok (zyla_tenant production), provisioned)
provisioned_once_example =
    provisioned_once production demo_db (zyla_tenant production) provisioned first_call

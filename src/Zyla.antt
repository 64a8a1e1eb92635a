-- ===== src/Zyla.antt =====
-- app/zyla.py: the marketplace's query, its conversion to a search request, which the validators of
-- app/schemas.py check, and the accounting tenant of the marketplace.
pub mod Query
pub mod Tenancy
pub mod Tests
use Prim.Native.String.{count, ◌++◌ as str_append}
use lead_generation_api_zyla.Prelude.{
  ℕ, String, Bool, true, false, not, ◌||◌, ◌==◌, Option, none, some, List, [], ◌∷◌, ◌++◌, map, any,
  keep, find, length, ltb, if◌then◌else◌,
}
use lead_generation_api_zyla.Prelude.Int.{ℤ, pos, negsuc, ltb_ℤ}
use lead_generation_api_zyla.Prelude.Text.{strip, split_comma}
use lead_generation_api_zyla.Errors.{
  Raised, Result, ok, err, app_error, unexpected, raise_if, ◌>>=◌, ◌>>◌,
}
use lead_generation_api_zyla.Exec.{Exec}
use lead_generation_api_zyla.Env.{Env}
use lead_generation_api_zyla.Json.{num}
use lead_generation_api_zyla.Schemas.{
  EmployeeRange, LeadFilters, LeadSearchRequest, lead_score, desc,
}
use lead_generation_api_zyla.Models.{Tenant, CreditLedger, Db, ledger_taken}
use lead_generation_api_zyla.Settings.{Settings}

abbrev pub invalid_request : String → Raised
invalid_request message = app_error "INVALID_REQUEST" message 422

-- `[item.strip() for item in values.split(",") if item.strip()]`
unfoldable pub csv_items : String → List String
csv_items values = keep (λ i. not (i == "")) (map strip (split_comma values))

-- the two tests of `_csv_values`
abbrev pub csv_checked : String → ℕ → List String → Result (List String)
csv_checked field maximum items = do
  raise_if (ltb maximum (length items))
      (invalid_request (str_append field " contains too many values."))
  raise_if (any (λ i. ltb 100 (count i)) items)
      (invalid_request (str_append field " contains a value that is too long."))
  ok items

-- `_csv_values`
abbrev pub csv_values : Option String → String → ℕ → Result (List String)
csv_values none field maximum = ok []
csv_values (some values) field maximum =
    if values == "" then ok [] else csv_checked field maximum (csv_items values)

pub record ZylaQuery : Type 0 where
  pub countries : List String
  pub industries : List String
  pub job_titles : List String
  pub technologies : List String
  pub employee_min : Option ℤ
  pub employee_max : Option ℤ
  pub lead_score_min : Option ℤ
  pub limit : ℤ

-- the arguments of `parse_zyla_query`
pub record RawQuery : Type 0 where
  pub countries : Option String
  pub industries : Option String
  pub job_titles : Option String
  pub technologies : Option String
  pub employee_min : Option ℤ
  pub employee_max : Option ℤ
  pub lead_score_min : Option ℤ
  pub limit : ℤ

abbrev pub exceeds : Option ℤ → Option ℤ → Bool
exceeds (some low) (some high) = ltb_ℤ high low
exceeds none high = false
exceeds (some low) none = false

abbrev pub below_zero : Option ℤ → Bool
below_zero none = false
below_zero (some z) = ltb_ℤ z (pos 0)

-- `not 0 <= lead_score_min <= 100`
abbrev pub off_scale : Option ℤ → Bool
off_scale none = false
off_scale (some z) = ltb_ℤ z (pos 0) || ltb_ℤ (pos 100) z

abbrev pub off_limits : ℤ → ℤ → Bool
off_limits maximum limit = ltb_ℤ limit (pos 1) || ltb_ℤ maximum limit

-- the four lists, once the numbers are checked
abbrev pub parse_lists : RawQuery → Result ZylaQuery
parse_lists raw = do
  countries ← csv_values raw.countries "countries" 20
  industries ← csv_values raw.industries "industries" 20
  job_titles ← csv_values raw.job_titles "job_titles" 50
  technologies ← csv_values raw.technologies "technologies" 50
  ok (record {
    countries = countries;
    industries = industries;
    job_titles = job_titles;
    technologies = technologies;
    employee_min = raw.employee_min;
    employee_max = raw.employee_max;
    lead_score_min = raw.lead_score_min;
    limit = raw.limit;
  })

-- `parse_zyla_query`
pub parse_zyla_query : Env → Settings → RawQuery → Result ZylaQuery
parse_zyla_query env settings raw = do
  raise_if (exceeds raw.employee_min raw.employee_max)
      (invalid_request "employee_min must be less than or equal to employee_max.")
  raise_if (below_zero raw.employee_min) (invalid_request "employee_min must be non-negative.")
  raise_if (below_zero raw.employee_max) (invalid_request "employee_max must be non-negative.")
  raise_if (off_scale raw.lead_score_min)
      (invalid_request "lead_score_min must be between 0 and 100.")
  raise_if (off_limits settings.zyla_max_limit raw.limit) (
      invalid_request (
        str_append "limit must be between 1 and "
          (str_append (env.repr (num settings.zyla_max_limit)) ".")))
  parse_lists raw

-- what the validators of app/schemas.py raise
abbrev pub validation_error : Raised
validation_error = unexpected "ValidationError"

-- `ge=0`
abbrev pub natural : Option ℤ → Result (Option ℕ)
natural none = ok none
natural (some (pos n)) = ok (some n)
natural (some (negsuc n)) = err validation_error

abbrev pub reversed : Option ℕ → Option ℕ → Bool
reversed (some low) (some high) = ltb high low
reversed none high = false
reversed (some low) none = false

-- `EmployeeRange`, with `validate_range`
abbrev pub employee_range : Option ℤ → Option ℤ → Result EmployeeRange
employee_range low high = do
  min ← natural low
  max ← natural high
  raise_if (reversed min max) validation_error
  ok (record { min = min; max = max })

-- the range of the payload, if one bound is given
abbrev pub range_of : Option ℤ → Option ℤ → Result (Option EmployeeRange)
range_of none none = ok none
range_of low high = do range ← employee_range low high; ok (some range)

-- `ge=0, le=100`
abbrev pub score_of : Option ℤ → Result (Option ℕ)
score_of none = ok none
score_of (some (pos n)) = if ltb 100 n then err validation_error else ok (some n)
score_of (some (negsuc n)) = err validation_error

-- `ge=1, le=100`
abbrev pub limit_of : ℤ → Result ℕ
limit_of (pos n) = if ltb n 1 || ltb 100 n then err validation_error else ok n
limit_of (negsuc n) = err validation_error

-- `max_length=n`
abbrev pub at_most : ℕ → List String → Result (List String)
at_most n xs = if ltb n (length xs) then err validation_error else ok xs

-- the request of validated parts, with the defaults of its other fields
abbrev pub payload :
    List String
    → List String
    → Option EmployeeRange
    → List String
    → List String
    → Option ℕ
    → ℕ
    → LeadSearchRequest
payload countries industries employee_count job_titles technologies lead_score_min limit = record {
  filters = record {
    countries = countries;
    industries = industries;
    employee_count = employee_count;
    job_titles = job_titles;
    technologies = technologies;
    lead_score_min = lead_score_min;
  };
  include = "company" ∷ "contact" ∷ "scores" ∷ "quality" ∷ "provenance" ∷ [];
  limit = limit;
  cursor = none;
  sort = record { field = lead_score; direction = desc };
}

-- `query_to_payload`
pub query_to_payload : ZylaQuery → Result LeadSearchRequest
query_to_payload query = do
  countries ← at_most 20 query.countries
  industries ← at_most 20 query.industries
  employee_count ← range_of query.employee_min query.employee_max
  job_titles ← at_most 50 query.job_titles
  technologies ← at_most 50 query.technologies
  lead_score_min ← score_of query.lead_score_min
  limit ← limit_of query.limit
  ok (payload countries industries employee_count job_titles technologies lead_score_min limit)

abbrev pub configuration_error : String → Raised
configuration_error message = app_error "CONFIGURATION_ERROR" message 500

abbrev pub zyla_tenant : Settings → Tenant
zyla_tenant s = record {
  id = s.zyla_tenant_id;
  name = s.zyla_tenant_name;
  slug = s.zyla_tenant_slug;
  status = "ACTIVE";
  credits_balance = s.zyla_default_credits;
}

unfoldable pub reserve_entry : Settings → CreditLedger
reserve_entry s = record {
  tenant_id = s.zyla_tenant_id;
  amount = s.zyla_default_credits;
  reason = "zyla_marketplace_reserve";
  reference_id = str_append "zyla-reserve:" s.zyla_tenant_id;
  metadata_json = ("purpose", "marketplace_usage_account") ∷ [];
}

-- a tenant that is there
abbrev pub check_tenant : Settings → Tenant → Exec Db Tenant
check_tenant s t db =
    if not (t.slug == s.zyla_tenant_slug)
    then (err (configuration_error "ZYLA_TENANT_ID is already assigned to another tenant."), db)
    else if not (t.status == "ACTIVE")
    then (err (app_error "TENANT_SUSPENDED" "The marketplace tenant is not active." 403), db)
    else (ok t, db)

-- the two rows, and their commit
abbrev pub commit_tenant : Settings → Exec Db Tenant
commit_tenant s db =
    if ledger_taken (reserve_entry s) db.credit_ledger
    then (err (configuration_error "The marketplace tenant could not be provisioned safely."), db)
    else (
      ok (zyla_tenant s),
      record db {
        tenants = db.tenants ++ zyla_tenant s ∷ [];
        credit_ledger = db.credit_ledger ++ reserve_entry s ∷ [];
      },
    )

abbrev pub provision : Settings → Option Tenant → Exec Db Tenant
provision s none db = commit_tenant s db
provision s (some other) db =
    (err (configuration_error "ZYLA_TENANT_SLUG is already assigned to another tenant."), db)

abbrev pub check_or_provision : Settings → Option Tenant → Exec Db Tenant
check_or_provision s (some t) db = check_tenant s t db
check_or_provision s none db = provision s (find (λ t. t.slug == s.zyla_tenant_slug) db.tenants) db

-- `ensure_zyla_tenant`
unfoldable pub ensure_zyla_tenant : Settings → Exec Db Tenant
ensure_zyla_tenant s db = check_or_provision s (find (λ t. t.id == s.zyla_tenant_id) db.tenants) db

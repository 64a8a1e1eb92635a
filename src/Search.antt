-- ===== src/Search.antt =====
-- app/search_service.py: one search, from the provider's records to the committed charge.
pub mod Rows
pub mod Persist
pub mod Select
pub mod Inversion
pub mod Selection
pub mod Charges
pub mod Reconciled
pub mod Tests
use Prim.Native.String.{◌++◌ as str_append}
use lead_generation_api_zyla.Prelude.{
  ℕ, ◌+◌, String, Bool, true, false, not, ◌==◌, Option, none, some, List, [], ◌∷◌, ◌++◌, length,
  find, update_where, eqb, if◌then◌else◌,
}
use lead_generation_api_zyla.Prelude.Int.{ℤ, pos, ◌-ℤ◌, ltb_ℤ}
use lead_generation_api_zyla.Errors.{
  Raised, Result, ok, err, app, app_error, AppError, Detail, number, raise_if,
}
use lead_generation_api_zyla.Errors
use lead_generation_api_zyla.Exec.{Exec, pure, lift, gets, modify, ◌>>=◌, ◌>>◌}
use lead_generation_api_zyla.Env.{Env}
use lead_generation_api_zyla.Schemas.{LeadFilters, LeadSearchRequest}
use lead_generation_api_zyla.Schemas.Responses.{LeadResponse, LeadSearchResponse}
use lead_generation_api_zyla.Models.{
  Tenant, Catalog, Search, UsageRecord, CreditLedger, Db, ledger_taken, integrity_error,
  transaction,
}
use lead_generation_api_zyla.Json.{Json}
use lead_generation_api_zyla.Providers.{
  ProviderLead, LeadProvider, synthetic, http, search_synthetic, search_http,
}
use lead_generation_api_zyla.Services.{ScoredLead}
use Persist.{persist_items}
use Select.{unsuppressed, score_all, choose}

abbrev pub tenant_suspended : Raised
tenant_suspended = app_error "TENANT_SUSPENDED" "Tenant is not active." 403

abbrev pub insufficient_credits : ℕ → ℤ → Raised
insufficient_credits required available = app (record {
  code = "INSUFFICIENT_CREDITS";
  message = "The account does not have enough credits for this operation.";
  status_code = 403;
  details = ("required", number (pos required)) ∷ ("available", number available) ∷ [];
})

abbrev active_tenant : Option Tenant → Result Tenant
active_tenant none = err tenant_suspended
active_tenant (some t) = if t.status == "ACTIVE" then ok t else err tenant_suspended

-- an action on the catalog alone
abbrev on_catalog : {A : Type 0} → Exec Catalog A → Exec Db A
on_catalog m db = let (r, c) = m db.catalog in (r, record db { catalog = c })

-- `tenant.credits_balance -= used`
abbrev pub spend : ℕ → Tenant → Tenant
spend used t = record t { credits_balance = t.credits_balance -ℤ pos used }

-- the arguments of `execute_lead_search`, and the code of its provider
pub record Call : Type 0 where
  pub tenant_id : String
  pub api_key_id : Option String
  pub request_id : String
  pub request_fingerprint : String
  pub payload : LeadSearchRequest
  pub provider_code : String

-- the cut to the limit, and the test of the balance
abbrev affordable : Call → Tenant → List ScoredLead → Result (List ScoredLead)
affordable call tenant scored =
    let chosen = choose call.payload scored in
    if ltb_ℤ tenant.credits_balance (pos (length chosen))
    then err (insufficient_credits (length chosen) tenant.credits_balance)
    else ok chosen

module _ (env : Env) (call : Call) where
  pub charge_entry : ℕ → String → CreditLedger
  charge_entry used search_id = record {
    tenant_id = call.tenant_id;
    amount = pos 0 -ℤ pos used;
    reason = "lead_search";
    reference_id = str_append "search:" search_id;
    metadata_json = ("request_id", call.request_id) ∷ ("provider", call.provider_code) ∷ [];
  }

  pub usage_entry : ℕ → UsageRecord
  usage_entry used = record {
    tenant_id = call.tenant_id;
    api_key_id = call.api_key_id;
    endpoint = "POST /api/v1/leads/search";
    request_id = call.request_id;
    credits_used = used;
    response_status = 200;
    provider = some call.provider_code;
    latency_ms = some env.latency_ms;
    created_at = env.now;
  }

  pub search_entry : ℕ → ℕ → String → Search LeadFilters
  search_entry count used id = record {
    id = id;
    tenant_id = call.tenant_id;
    request_hash = call.request_fingerprint;
    filters = call.payload.filters;
    result_count = count;
    credits_used = used;
    created_at = env.now;
  }

  -- the ledger row of a charge, which is written only if something is charged
  add_charge : ℕ → String → Exec Db (Unit {0})
  unfolding charge_entry
  add_charge used search_id db =
      if eqb used 0
      then (ok tt, db)
      else if ledger_taken (charge_entry used search_id) db.credit_ledger
      then (integrity_error, db)
      else (
        ok tt,
        record db { credit_ledger = db.credit_ledger ++ charge_entry used search_id ∷ [] },
      )

  -- from `tenant.credits_balance -= credits_used` to the commit
  pub settle : ℕ → ℕ → Exec Db (Unit {0})
  unfolding add_charge search_entry usage_entry
  settle count used = do
    modify (λ db. record db {
      tenants = update_where (λ t. t.id == call.tenant_id) (spend used) db.tenants;
    })
    search_id ← gets (λ db. env.uuid db.catalog.drawn)
    modify (λ db. record db {
      catalog = record (db.catalog) { drawn = db.catalog.drawn + 1 };
      searches = db.searches ++ search_entry count used search_id ∷ [];
    })
    add_charge used search_id
    modify (λ db. record db { usage_records = db.usage_records ++ usage_entry used ∷ [] })

  pub search_response : List LeadResponse → ℕ → ℤ → LeadSearchResponse
  search_response rows used remaining = record {
    request_id = call.request_id;
    data_rows = rows;
    pagination = record { limit = call.payload.limit; next_cursor = none; has_more = false };
    usage = record { credits_reserved = used; credits_used = used; credits_remaining = remaining };
  }

  -- what happens before the first write: the leads to return, once they can be paid for
  pub plan : Tenant → List ProviderLead → Db → Result (List ScoredLead)
  plan tenant records db =
      Errors.◌>>=◌ (unsuppressed env call.tenant_id db.suppressions records)
        λ shown. Errors.◌>>=◌ (score_all env call.payload.filters shown) (affordable call tenant)

  -- the writes of a search whose leads are chosen, and its answer
  pub charge : Tenant → List ScoredLead → Exec Db LeadSearchResponse
  unfolding settle search_response
  charge tenant chosen = do
    let used = length chosen
    rows ← on_catalog (persist_items env call.tenant_id chosen)
    settle (length rows) used
    pure (search_response rows used (tenant.credits_balance -ℤ pos used))

  -- the body of the `try`
  pub search_body : List ProviderLead → Exec Db LeadSearchResponse
  unfolding plan charge
  search_body records = do
    found ← gets (λ db. find (λ t. t.id == call.tenant_id) db.tenants)
    tenant ← lift (active_tenant found)
    planned ← gets (plan tenant records)
    chosen ← lift planned
    charge tenant chosen

  -- `_persist_lead_search`
  unfoldable pub persist_lead_search : List ProviderLead → Exec Db LeadSearchResponse
  unfolding search_body
  persist_lead_search records = transaction (search_body records)

  -- `provider.search(filters)`: an HTTP provider is asked at a time `now`, with the outcome given
  fetch : LeadProvider → String → Option Json → Result (List ProviderLead)
  fetch synthetic now outcome = search_synthetic call.payload.filters
  fetch (http p) now outcome = search_http env p now outcome

  -- `execute_lead_search`: the provider first, then the transaction on its records
  pub execute_lead_search : LeadProvider → String → Option Json → Exec Db LeadSearchResponse
  unfolding fetch persist_lead_search
  execute_lead_search provider now outcome = do
    records ← lift (fetch provider now outcome)
    persist_lead_search records

-- ===== src/Marketplace.antt =====
-- `authorize_zyla_request` of app/zyla.py, and the routes zyla_search_get and zyla_search_post of
-- app/main.py with `_execute_zyla_search`. FastAPI's own checks of the query come before.
pub mod Authorized
pub mod Books
pub mod Tests
use Prim.Native.Char.{code}
use Prim.Native.String.{◌++◌ as str_append}
use lead_generation_api_zyla.Prelude.{
  ℕ, String, Bool, true, false, not, ◌||◌, ◌==◌, Option, none, some, List, [], ◌∷◌, eqb,
  if◌then◌else◌,
}
use lead_generation_api_zyla.Prelude.Int.{ℤ, pos, ltb_ℤ}
use lead_generation_api_zyla.Prelude.Text.{lower, partition}
use lead_generation_api_zyla.Errors.{Raised, Result, ok, err, app_error, ◌>>=◌}
use lead_generation_api_zyla.Json.{num}
use lead_generation_api_zyla.Exec.{Exec}
use lead_generation_api_zyla.Env.{Env}
use lead_generation_api_zyla.Schemas.{LeadSearchRequest}
use lead_generation_api_zyla.Schemas.Responses.{LeadSearchResponse}
use lead_generation_api_zyla.Models.{Tenant, Db, transaction}
use lead_generation_api_zyla.Settings.{Settings}
use lead_generation_api_zyla.Providers.{LeadProvider}
use lead_generation_api_zyla.RateLimit.{Limiter, check}
use lead_generation_api_zyla.Security.{AuthContext, constant_time_equal}
use lead_generation_api_zyla.Replay.{Process, replay_safe}
use lead_generation_api_zyla.Routes.{Incoming, App, translated, search_once}
use lead_generation_api_zyla.Zyla.{
  RawQuery, ZylaQuery, invalid_request, parse_zyla_query, query_to_payload, ensure_zyla_tenant,
}

abbrev unauthorized : {A : Type 0} → String → Result A
unauthorized message = err (app_error "UNAUTHORIZED" message 401)

-- the tests of the two parts of the header
abbrev pub check_token : Settings → String → String → Result (Unit {0})
check_token s scheme token =
    if not (lower scheme == "bearer") || ((token == "") || (s.zyla_shared_token == ""))
    then unauthorized "A Bearer API key is required."
    else (do
      same ← constant_time_equal token s.zyla_shared_token
      (if same then ok tt else unauthorized "The API key is invalid."))

-- `authorize_zyla_request`, for the `Authorization` header or ""
unfoldable pub authorize_zyla_request : Settings → String → Result (Unit {0})
authorize_zyla_request s authorization =
    if not s.zyla_enabled
    then err (app_error "NOT_FOUND" "The Zyla endpoint is disabled." 404)
    else if s.zyla_auth_mode == "public"
    then ok tt
    else let (scheme, token) = partition (λ c. eqb (code c) 32) authorization in
      check_token s scheme token

-- `f"zyla:{tenant_id}:{idempotency_key}" if idempotency_key else None`
abbrev pub zyla_scope : String → Option String → Option String
zyla_scope tenant_id none = none
zyla_scope tenant_id (some key) =
    if key == ""
    then none
    else some (str_append "zyla:" (str_append tenant_id (str_append ":" key)))

-- a marketplace search is the accounting tenant's, and no key's
abbrev pub zyla_context : String → AuthContext
zyla_context tenant_id = record {
  tenant_id = tenant_id;
  actor_id = none;
  role = "";
  scopes = [];
  api_key_id = none;
}

module _ (env : Env) (ttl_seconds : ℕ) (provider : LeadProvider) (s : Settings)
    (authorization : String) (r : Incoming) where
  -- after the limiter
  abbrev pub if_admitted :
      String
      → Result (Unit {0}) × Limiter
      → Process Db LeadSearchResponse
      → Result LeadSearchResponse × App
  if_admitted tenant_id (ok _, limiter) p =
      let (answer, p') =
        replay_safe ttl_seconds (search_once env ttl_seconds provider (zyla_context tenant_id) r)
          r.started r.finished (zyla_scope tenant_id r.idempotency_key) r.request_fingerprint p in
      (answer, record { limiter = limiter; process = p' })
  if_admitted tenant_id (err e, limiter) p =
      (err (translated e), record { limiter = limiter; process = p })

  -- after `ensure_zyla_tenant_id`
  abbrev pub if_provisioned : Result Tenant × Db → App → Result LeadSearchResponse × App
  if_provisioned (err e, db) server =
      (err e, record server { process = record (server.process) { db = db } })
  if_provisioned (ok t, db) server =
      if_admitted t.id (check r.ticks (str_append "zyla:" t.id) server.limiter)
        (record (server.process) { db = db })

  abbrev pub if_authorized : Result (Unit {0}) → App → Result LeadSearchResponse × App
  if_authorized (err e) server = (err e, server)
  if_authorized (ok _) server =
      if_provisioned (transaction (ensure_zyla_tenant s) server.process.db) server

  -- `_execute_zyla_search`
  unfoldable pub execute_zyla_search : App → Result LeadSearchResponse × App
  execute_zyla_search server = if_authorized (authorize_zyla_request s authorization) server

-- `zyla_search_post`
unfoldable pub zyla_search_post :
    Env → ℕ → LeadProvider → Settings → String → Incoming → App → Result LeadSearchResponse × App
zyla_search_post env ttl_seconds provider s authorization r server =
    if ltb_ℤ s.zyla_max_limit (pos r.payload.limit)
    then (
      err (
          invalid_request (
            str_append "limit must be at most "
              (str_append (env.repr (num s.zyla_max_limit)) "."))),
      server,
    )
    else execute_zyla_search env ttl_seconds provider s authorization r server

abbrev pub run_query :
    Env
    → ℕ
    → LeadProvider
    → Settings
    → String
    → Incoming
    → Result LeadSearchRequest
    → App
    → Result LeadSearchResponse × App
run_query env ttl_seconds provider s authorization r (err e) server = (err e, server)
run_query env ttl_seconds provider s authorization r (ok payload) server =
    execute_zyla_search env ttl_seconds provider s authorization (record r { payload = payload })
      server

-- `zyla_search_get`; the payload of `r` is not read
unfoldable pub zyla_search_get :
    Env
    → ℕ
    → LeadProvider
    → Settings
    → String
    → RawQuery
    → Incoming
    → App
    → Result LeadSearchResponse × App
zyla_search_get env ttl_seconds provider s authorization raw r server =
    run_query env ttl_seconds provider s authorization r
      (do query ← parse_zyla_query env s raw; query_to_payload query) server

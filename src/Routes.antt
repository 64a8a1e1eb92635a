-- ===== src/Routes.antt =====
-- The route `search_leads` of app/main.py as a whole, for an authenticated caller: the scope, the
-- rate limit, then the replay-safe search.
pub mod Accounts
pub mod Shared
pub mod Tests
use Prim.Native.String.{◌++◌ as str_append}
use lead_generation_api_zyla.Prelude.{
  ℕ, String, Bool, true, false, not, ◌==◌, Option, none, some, List, [], ◌∷◌, if◌then◌else◌,
}
use lead_generation_api_zyla.Prelude.Int.{pos}
use lead_generation_api_zyla.Prelude.Text.{mem}
use lead_generation_api_zyla.Errors.{
  Raised, Result, ok, err, app, authorization, rate_limit_exceeded, AppError, Detail, number,
}
use lead_generation_api_zyla.Exec.{Exec}
use lead_generation_api_zyla.Env.{Env}
use lead_generation_api_zyla.Json.{Json}
use lead_generation_api_zyla.Schemas.{LeadSearchRequest}
use lead_generation_api_zyla.Schemas.Responses.{LeadSearchResponse}
use lead_generation_api_zyla.Models.{Db}
use lead_generation_api_zyla.Providers.{LeadProvider, synthetic, http}
use lead_generation_api_zyla.RateLimit.{Limiter, check}
use lead_generation_api_zyla.Security.{AuthContext, require_scope}
use lead_generation_api_zyla.Replay.{Process, replay_safe}
use lead_generation_api_zyla.Search.{Call, execute_lead_search}

-- what one request brings: its texts, the three times at which clocks are read, and the outcome of
-- an HTTP provider
pub record Incoming : Type 0 where
  pub request_id : String
  pub request_fingerprint : String
  pub payload : LeadSearchRequest
  pub idempotency_key : Option String
  pub ticks : ℕ
  pub started : ℕ
  pub finished : ℕ
  pub asked_at : String
  pub outcome : Option Json

-- the API process: its limiter, its store of responses and the database
pub record App : Type 0 where
  pub limiter : Limiter
  pub process : Process Db LeadSearchResponse

-- a nullable text in an f-string
abbrev shown : Option String → String
shown none = "None"
shown (some a) = a

-- `a or b`, in an f-string
abbrev text_or : Option String → Option String → String
text_or none b = shown b
text_or (some a) b = if a == "" then shown b else a

-- `f"{tenant_id}:{api_key_id or actor_id}:{idempotency_key}"`, if there is a key
abbrev pub idempotency_scope : AuthContext → Option String → Option String
idempotency_scope context none = none
idempotency_scope context (some key) =
    if key == ""
    then none
    else some (
        str_append context.tenant_id (
          str_append ":"
            (str_append (text_or context.api_key_id context.actor_id) (str_append ":" key))))

abbrev pub rate_limited : ℕ → Raised
rate_limited retry_after = app (record {
  code = "RATE_LIMITED";
  message = "Rate limit exceeded.";
  status_code = 429;
  details = ("retry_after", number (pos retry_after)) ∷ [];
})

abbrev pub translated : Raised → Raised
translated (rate_limit_exceeded retry_after) = rate_limited retry_after
translated e = e

-- `provider.code`
abbrev pub code_of : LeadProvider → String
code_of synthetic = "synthetic_provider"
code_of (http p) = p.provider_name

module _ (env : Env) (ttl_seconds : ℕ) (provider : LeadProvider) (context : AuthContext)
    (r : Incoming) where
  abbrev pub call_of : Call
  call_of = record {
    tenant_id = context.tenant_id;
    api_key_id = context.api_key_id;
    request_id = r.request_id;
    request_fingerprint = r.request_fingerprint;
    payload = r.payload;
    provider_code = code_of provider;
  }

  abbrev pub search_once : Exec Db LeadSearchResponse
  search_once = execute_lead_search env call_of provider r.asked_at r.outcome

  -- after the limiter
  abbrev pub if_admitted :
      Result (Unit {0}) × Limiter → Process Db LeadSearchResponse → Result LeadSearchResponse × App
  if_admitted (ok _, limiter) p =
      let (answer, p') =
        replay_safe ttl_seconds search_once r.started r.finished
          (idempotency_scope context r.idempotency_key) r.request_fingerprint p in
      (answer, record { limiter = limiter; process = p' })
  if_admitted (err e, limiter) p = (err (translated e), record { limiter = limiter; process = p })

  abbrev pub if_allowed : Result (Unit {0}) → App → Result LeadSearchResponse × App
  if_allowed (err e) server = (err e, server)
  if_allowed (ok _) server =
      if_admitted (check r.ticks (str_append "tenant:" context.tenant_id) server.limiter)
        server.process

  -- `search_leads`
  pub search_leads : App → Result LeadSearchResponse × App
  search_leads server = if_allowed (require_scope context "leads:read") server

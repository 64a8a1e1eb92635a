-- ===== src/Http.antt =====
-- The middleware, the exception handlers, the health routes and the metrics of app/main.py. What is
-- logged is left out; `hex` is `uuid4().hex`.
pub mod RequestId
mod ZylaHealth
pub mod Tests
use Prim.Native.Char.{Char, code}
use Prim.Native.String
use Prim.Native.String.{count, ◌++◌ as str_append}
use lead_generation_api_zyla.Prelude.{
  ℕ, String, Bool, true, false, not, ◌&&◌, ◌||◌, ◌==◌, Option, none, some, List, [], ◌∷◌, ◌++◌,
  keep, length, eqb, leb, if◌then◌else◌,
}
use lead_generation_api_zyla.Prelude.Int.{pos}
use lead_generation_api_zyla.Prelude.Text.{mem, join}
use lead_generation_api_zyla.Errors.{
  AppError, Detail, texts, Raised, app, authentication, authorization, provider_request, Result, ok,
  err, app_error, ◌>>=◌, ◌>>◌,
}
use lead_generation_api_zyla.Env.{Env}
use lead_generation_api_zyla.Json.{num}
use lead_generation_api_zyla.Models.{Db}
use lead_generation_api_zyla.Security.{constant_time_equal}
use lead_generation_api_zyla.Operations.{total_of}

-- a character of `[A-Za-z0-9._-]`
abbrev pub is_id_char : Char → Bool
is_id_char c =
    (leb 97 (code c) && leb (code c) 122)
    || ((leb 65 (code c) && leb (code c) 90)
        || ((leb 48 (code c) && leb (code c) 57) || mem_code (code c)))
  where
    mem_code : ℕ → Bool
    mem_code n = eqb n 46 || (eqb n 95 || eqb n 45)

unfoldable pub are_id_chars : String → Bool
are_id_chars String.[] = true
are_id_chars (String.◌∷◌ c s) = is_id_char c && are_id_chars s

-- `request_id_pattern.fullmatch`
abbrev pub is_request_id : String → Bool
is_request_id s = are_id_chars s && (leb 1 (count s) && leb (count s) 128)

-- the id that the middleware gives to a request
abbrev pub request_id_of : String → String → String
request_id_of hex supplied = if is_request_id supplied then supplied else str_append "req_" hex

-- `error_payload`
pub record ErrorBody : Type 0 where
  pub code : String
  pub message : String
  pub request_id : String
  pub details : List (String × Detail)

pub record Response : Type 0 where
  pub status_code : ℕ
  pub body : ErrorBody
  pub headers : List (String × String)

abbrev pub error_payload : String → AppError → ErrorBody
error_payload request_id e = record {
  code = e.code;
  message = e.message;
  request_id = request_id;
  details = e.details;
}

-- what a route or the framework raises
pub data Failure : Type 0 where
  raised : Raised → Failure
  validation : List String → Failure
  http_exception : ℕ → Option String → Failure

abbrev plain : String → String → ℕ → AppError
plain code message status = record {
  code = code;
  message = message;
  status_code = status;
  details = [];
}

abbrev answer : String → AppError → List (String × String) → Response
answer request_id e headers = record {
  status_code = e.status_code;
  body = error_payload request_id e;
  headers = headers;
}

abbrev pub bearer_header : List (String × String)
bearer_header = ("WWW-Authenticate", "Bearer") ∷ []

-- `code_by_status.get(status, …)`
abbrev pub code_by_status : Env → ℕ → String
code_by_status env status =
    if eqb status 404
    then "NOT_FOUND"
    else if eqb status 405
    then "METHOD_NOT_ALLOWED"
    else str_append "HTTP_" (env.repr (num (pos status)))

-- `exc.detail if isinstance(exc.detail, str) else …`
abbrev pub detail_text : Option String → String
detail_text none = "HTTP request failed."
detail_text (some detail) = detail

-- the handler of each class of exception
unfoldable pub handle : Env → String → Failure → Response
handle env id (raised (app e)) = answer id e []
handle env id (raised (authentication message)) =
    answer id (plain "UNAUTHORIZED" message 401) bearer_header
handle env id (raised (authorization message)) = answer id (plain "FORBIDDEN" message 403) []
handle env id (raised (provider_request message)) =
    answer id (plain "PROVIDER_UNAVAILABLE" "The configured data provider is unavailable." 502) []
handle env id (raised _) =
    answer id (plain "INTERNAL_ERROR" "An unexpected server error occurred." 500) []
handle env id (validation fields) =
    answer id
      (record {
        code = "INVALID_REQUEST";
        message = "Request validation failed.";
        status_code = 422;
        details = ("fields", texts fields) ∷ [];
      })
      []
handle env id (http_exception status detail) =
    answer id (plain (code_by_status env status) (detail_text detail) status)
      (if eqb status 401 then bearer_header else [])

-- the headers that `request_context` sets on a response
abbrev pub context_headers : Env → String → List (String × String)
context_headers env id =
    ("X-Request-Id", id)
    ∷ ("X-API-Version", "v1")
    ∷ ("X-Content-Type-Options", "nosniff")
    ∷ ("X-Frame-Options", "DENY")
    ∷ ("Referrer-Policy", "no-referrer")
    ∷ ("X-Response-Time-Ms", env.repr (num (pos env.latency_ms)))
    ∷ []

-- is it answered by the handler of `Exception`, which Starlette runs outside the other middleware
abbrev pub is_outer : Failure → Bool
is_outer (raised (app e)) = false
is_outer (raised (authentication message)) = false
is_outer (raised (authorization message)) = false
is_outer (raised (provider_request message)) = false
is_outer (raised _) = true
is_outer (validation fields) = false
is_outer (http_exception status detail) = false

-- `request_context`, for a request that fails: an exception that is answered outside passes through it
unfoldable pub failed_request : Env → String → String → Failure → Response
failed_request env hex supplied failure =
    let id = request_id_of hex supplied in
    let response = handle env id failure in
    if is_outer failure
    then response
    else record response { headers = response.headers ++ context_headers env id }

-- `live`: the status is "ok" beside this id
abbrev pub live : String → String
live request_id = request_id

-- `ready`, where a statement on the database may raise
abbrev pub ready : Bool → String → Result String
ready reachable request_id =
    if reachable
    then ok request_id
    else err (app_error "NOT_READY" "Required dependencies are unavailable." 503)

-- the numbers of `metrics`: requests, credits and jobs that are queued or running
pub record Counters : Type 0 where
  pub requests : ℕ
  pub credits_used : ℕ
  pub jobs_in_progress : ℕ

abbrev pub counters : Db → Counters
counters db = record {
  requests = length db.usage_records;
  credits_used = total_of (λ r. r.credits_used) db.usage_records;
  jobs_in_progress =
      length (keep (λ j. mem j.status ("QUEUED" ∷ "RUNNING" ∷ [])) db.background_jobs);
}

-- the lines of the body
abbrev pub exposition : Env → Counters → String
exposition env c = join "\n" (
    "# HELP lead_api_requests_total Total recorded API requests."
    ∷ "# TYPE lead_api_requests_total counter"
    ∷ str_append "lead_api_requests_total " (env.repr (num (pos c.requests)))
    ∷ "# HELP lead_api_credits_used_total Total credits recorded as used."
    ∷ "# TYPE lead_api_credits_used_total counter"
    ∷ str_append "lead_api_credits_used_total " (env.repr (num (pos c.credits_used)))
    ∷ "# HELP lead_api_jobs_in_progress Number of queued or running jobs."
    ∷ "# TYPE lead_api_jobs_in_progress gauge"
    ∷ str_append "lead_api_jobs_in_progress " (env.repr (num (pos c.jobs_in_progress)))
    ∷ ""
    ∷ [])

abbrev metrics_denied : {A : Type 0} → Result A
metrics_denied = err (authentication "metrics authentication required")

abbrev pub check_metrics_token : String → Option String → Result (Unit {0})
check_metrics_token expected none = if expected == "" then ok tt else metrics_denied
check_metrics_token expected (some token) =
    if expected == ""
    then ok tt
    else (do same ← constant_time_equal token expected; (if same then ok tt else metrics_denied))

-- `metrics`, with `settings.metrics_enabled` and `settings.metrics_token`
pub metrics : Env → Bool → String → Option String → Db → Result String
metrics env enabled expected token db =
    if enabled
    then (do check_metrics_token expected token; ok (exposition env (counters db)))
    else err (app_error "NOT_FOUND" "Metrics are disabled." 404)

-- ===== src/Settings/Tests.antt =====
-- A configuration that `validate` accepts in production.
use lead_generation_api_zyla.Prelude.{
  String, ◌==◌, ◌≡◌, ◌⊎◌, refl, true, false, Option, none, some, List, [], ◌∷◌, All, find,
}
use lead_generation_api_zyla.Prelude.Int.{pos}
use lead_generation_api_zyla.Prelude.Text.{
  startswith, lower, lower_char, upper, strip, lstrip, rstrip, split_at,
}
use lead_generation_api_zyla.Errors.{ok}
use lead_generation_api_zyla.Settings.{Settings, validate}
use lead_generation_api_zyla.Settings.Loading.{read_numbers, load_settings}
use lead_generation_api_zyla.Settings.Required.{IsGiven, required, hosted_defaults_refused}
use lead_generation_api_zyla.Settings.Safety.{IsHostedSafe, IsZylaSafe, validate-IsSafe}

abbrev secret : String
secret = "0123456789abcdef0123456789abcdef"

abbrev pub production : Settings
production = record {
  app_name = "Lead Generation API";
  environment = "production";
  database_url = "postgresql://db/leads";
  db_pool_size = pos 10;
  db_max_overflow = pos 20;
  db_pool_recycle_seconds = pos 1800;
  db_pool_timeout_seconds = pos 30;
  jwt_secret = secret;
  jwt_algorithm = "HS256";
  access_token_minutes = pos 60;
  api_key_pepper = secret;
  default_credits = pos 100;
  rate_limit_per_minute = pos 60;
  rate_limit_backend = "redis";
  redis_url = "redis://redis:6379/0";
  cors_origins = "https://example.com" ∷ [];
  auto_create_schema = false;
  idempotency_backend = "redis";
  idempotency_ttl_seconds = pos 86400;
  queue_backend = "redis";
  queue_stream = "jobs";
  queue_group = "workers";
  queue_consumer = "worker";
  queue_block_ms = pos 5000;
  provider_mode = "http";
  provider_name = "licensed";
  provider_url = "https://provider.example.com";
  provider_token = "token";
  provider_auth_scheme = "bearer";
  provider_timeout_ms = pos 15000;
  provider_data_source = "licensed data";
  provider_use_policy = "CONTRACT";
  pricing_model = "One credit per lead.";
  free_trial_credits = pos 25;
  billing_webhook_secret = secret;
  allow_synthetic_in_production = false;
  metrics_enabled = true;
  metrics_token = secret;
  log_level = "INFO";
  data_retention_days = pos 365;
  zyla_enabled = true;
  zyla_auth_mode = "shared_token";
  zyla_shared_token = secret;
  zyla_tenant_id = "zyla";
  zyla_tenant_name = "Zyla";
  zyla_tenant_slug = "zyla";
  zyla_default_credits = pos 1000;
  zyla_max_limit = pos 50;
  zyla_allow_synthetic = false;
}

accepted : validate production ≡ ok tt
unfolding validate startswith
accepted = refl

validate-IsSafe_example :
    IsHostedSafe production × ((production.zyla_enabled ≡ false) ⊎ IsZylaSafe production)
validate-IsSafe_example = validate-IsSafe production accepted refl

-- the variables of a hosted process
variables : List (String × String)
variables =
    ("APP_ENV", " Production ")
    ∷ ("JWT_SECRET", secret)
    ∷ ("API_KEY_PEPPER", secret)
    ∷ ("DATABASE_URL", "postgresql://db/leads")
    ∷ ("RATE_LIMIT_BACKEND", "redis")
    ∷ ("IDEMPOTENCY_BACKEND", "redis")
    ∷ ("AUTO_CREATE_SCHEMA", "no")
    ∷ ("BILLING_WEBHOOK_SECRET", secret)
    ∷ ("METRICS_TOKEN", secret)
    ∷ ("PROVIDER_MODE", "http")
    ∷ ("PROVIDER_URL", "https://provider.example.com")
    ∷ ("PROVIDER_TOKEN", "token")
    ∷ []

abbrev value_of : Option (String × String) → Option String
value_of none = none
value_of (some (_, value)) = some value

getenv : String → Option String
unfolding variables
getenv name = value_of (find (λ f. f.0 == name) variables)

hosted_defaults_refused_example :
    All (IsGiven getenv) required
    × (IsGiven getenv "PROVIDER_MODE" ⊎ IsGiven getenv "ALLOW_SYNTHETIC_IN_PRODUCTION")
unfolding getenv variables load_settings read_numbers validate lower lower_char upper strip lstrip
    rstrip split_at startswith
hosted_defaults_refused_example =
    hosted_defaults_refused getenv (λ t. some (pos 60)) (λ t. some (pos 15000)) _ refl refl refl

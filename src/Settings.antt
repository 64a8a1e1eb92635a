-- ===== src/Settings.antt =====
-- The settings of app/config.py, with `validate`. `provider_timeout_seconds` is counted in milliseconds.
pub mod Loading
pub mod Safety
pub mod Required
pub mod Tests
use Prim.Native.String.{count}
use lead_generation_api_zyla.Prelude.{
  ℕ, ◌≤◌, String, Bool, true, false, not, ◌&&◌, ◌||◌, ◌==◌, List, [], ◌∷◌, ltb, if◌then◌else◌,
}
use lead_generation_api_zyla.Prelude.Int.{ℤ, pos, ltb_ℤ, leb_ℤ}
use lead_generation_api_zyla.Prelude.Text.{mem, startswith}
use lead_generation_api_zyla.Errors.{Result, ok, err, value_error, raise_if, ◌>>=◌, ◌>>◌}

pub record Settings : Type 0 where
  pub app_name : String
  pub environment : String
  pub database_url : String
  pub db_pool_size : ℤ
  pub db_max_overflow : ℤ
  pub db_pool_recycle_seconds : ℤ
  pub db_pool_timeout_seconds : ℤ
  pub jwt_secret : String
  pub jwt_algorithm : String
  pub access_token_minutes : ℤ
  pub api_key_pepper : String
  pub default_credits : ℤ
  pub rate_limit_per_minute : ℤ
  pub rate_limit_backend : String
  pub redis_url : String
  pub cors_origins : List String
  pub auto_create_schema : Bool
  pub idempotency_backend : String
  pub idempotency_ttl_seconds : ℤ
  pub queue_backend : String
  pub queue_stream : String
  pub queue_group : String
  pub queue_consumer : String
  pub queue_block_ms : ℤ
  pub provider_mode : String
  pub provider_name : String
  pub provider_url : String
  pub provider_token : String
  pub provider_auth_scheme : String
  pub provider_timeout_ms : ℤ
  pub provider_data_source : String
  pub provider_use_policy : String
  pub pricing_model : String
  pub free_trial_credits : ℤ
  pub billing_webhook_secret : String
  pub allow_synthetic_in_production : Bool
  pub metrics_enabled : Bool
  pub metrics_token : String
  pub log_level : String
  pub data_retention_days : ℤ
  pub zyla_enabled : Bool
  pub zyla_auth_mode : String
  pub zyla_shared_token : String
  pub zyla_tenant_id : String
  pub zyla_tenant_name : String
  pub zyla_tenant_slug : String
  pub zyla_default_credits : ℤ
  pub zyla_max_limit : ℤ
  pub zyla_allow_synthetic : Bool

abbrev negative : ℤ → Bool
negative z = ltb_ℤ z (pos 0)

abbrev pub not_positive : ℤ → Bool
not_positive z = leb_ℤ z (pos 0)

abbrev pub empty : String → Bool
empty s = s == ""

-- `len(s) < n`
abbrev pub shorter : String → ℕ → Bool
shorter s n = ltb (count s) n

abbrev pub longer : String → ℕ → Bool
longer s n = ltb n (count s)

-- `self.environment in {"production", "staging"}`
abbrev pub is_hosted : Settings → Bool
is_hosted s = mem s.environment ("production" ∷ "staging" ∷ [])

abbrev pub forbidden : List String
forbidden =
    "dev-only-change-me" ∷ "dev-only-api-key-pepper" ∷ "replace-with-a-long-random-secret"
    ∷ "replace-with-a-long-random-pepper" ∷ []

abbrev refuse : Bool → String → Result (Unit {0})
refuse b message = raise_if b (value_error message)

-- the checks of every environment
pub validate_basic : Settings → Result (Unit {0})
validate_basic s = do
  refuse (not_positive s.access_token_minutes) "ACCESS_TOKEN_MINUTES must be positive"
  refuse (negative s.default_credits || not_positive s.rate_limit_per_minute)
      "DEFAULT_CREDITS and RATE_LIMIT_PER_MINUTE are invalid"
  refuse (ltb_ℤ s.idempotency_ttl_seconds (pos 60)) "IDEMPOTENCY_TTL_SECONDS must be at least 60"
  refuse
      (not_positive s.db_pool_size
        || (negative s.db_max_overflow
            || (not_positive s.db_pool_recycle_seconds || not_positive s.db_pool_timeout_seconds)))
      "database pool settings are invalid"
  refuse (not (mem s.provider_mode ("synthetic" ∷ "http" ∷ [])))
      "PROVIDER_MODE must be synthetic or http"
  refuse (not_positive s.provider_timeout_ms) "PROVIDER_TIMEOUT_SECONDS must be positive"
  refuse (not (mem s.provider_auth_scheme ("bearer" ∷ "x-api-key" ∷ [])))
      "PROVIDER_AUTH_SCHEME must be bearer or x-api-key"
  refuse (negative s.free_trial_credits) "FREE_TRIAL_CREDITS must be non-negative"
  refuse
      ((s.provider_mode == "http")
        && (empty s.provider_url || (empty s.provider_token || empty s.provider_name)))
      "http provider mode requires PROVIDER_URL, PROVIDER_TOKEN, and PROVIDER_NAME"

-- the checks of a hosted Zyla edition
pub validate_zyla_hosted : Settings → Result (Unit {0})
validate_zyla_hosted s = do
  refuse (not (s.zyla_auth_mode == "shared_token") || shorter s.zyla_shared_token 32)
      "enabled hosted Zyla APIs require ZYLA_AUTH_MODE=shared_token and a strong ZYLA_SHARED_TOKEN"
  refuse ((s.provider_mode == "synthetic") && not s.zyla_allow_synthetic)
      "hosted Zyla APIs require a licensed non-synthetic provider"

-- the checks of an enabled Zyla edition
pub validate_zyla : Settings → Result (Unit {0})
unfolding validate_zyla_hosted
validate_zyla s = do
  refuse (not (mem s.zyla_auth_mode ("shared_token" ∷ "public" ∷ [])))
      "ZYLA_AUTH_MODE must be shared_token or public"
  refuse (empty s.zyla_tenant_id || longer s.zyla_tenant_id 36)
      "ZYLA_TENANT_ID must be a non-empty value of at most 36 characters"
  refuse (empty s.zyla_tenant_slug || longer s.zyla_tenant_slug 120)
      "ZYLA_TENANT_SLUG must be a non-empty value of at most 120 characters"
  refuse
      (not_positive s.zyla_default_credits
        || (not_positive s.zyla_max_limit || ltb_ℤ (pos 100) s.zyla_max_limit))
      "ZYLA_DEFAULT_CREDITS and ZYLA_MAX_LIMIT are invalid"
  if is_hosted s then validate_zyla_hosted s else ok tt

-- the checks of production and staging
pub validate_hosted : Settings → Result (Unit {0})
validate_hosted s = do
  refuse (mem s.jwt_secret forbidden || shorter s.jwt_secret 32)
      "JWT_SECRET must be a strong production secret"
  refuse (mem s.api_key_pepper forbidden || shorter s.api_key_pepper 32)
      "API_KEY_PEPPER must be a strong production secret"
  refuse
      (not (
        startswith s.database_url "postgresql://"
        || startswith s.database_url "postgresql+psycopg://"))
      "production requires PostgreSQL"
  refuse (not (s.rate_limit_backend == "redis")) "production requires RATE_LIMIT_BACKEND=redis"
  refuse (not (s.idempotency_backend == "redis")) "production requires IDEMPOTENCY_BACKEND=redis"
  refuse (not (s.queue_backend == "redis")) "production requires QUEUE_BACKEND=redis"
  refuse s.auto_create_schema
      "production requires AUTO_CREATE_SCHEMA=false and an explicit migration step"
  refuse (mem "*" s.cors_origins) "production does not allow wildcard CORS"
  refuse (s.metrics_enabled && shorter s.metrics_token 32)
      "production metrics require METRICS_TOKEN with at least 32 characters"
  refuse ((s.provider_mode == "synthetic") && not s.allow_synthetic_in_production)
      "production requires an approved non-synthetic provider"
  refuse
      ((s.provider_mode == "http")
        && (empty s.provider_url || (empty s.provider_token || empty s.provider_data_source)))
      "http provider mode requires PROVIDER_URL, PROVIDER_TOKEN, and PROVIDER_DATA_SOURCE"
  refuse (shorter s.billing_webhook_secret 32)
      "production requires BILLING_WEBHOOK_SECRET with at least 32 characters"

-- `Settings.validate`
pub validate : Settings → Result (Unit {0})
unfolding validate_basic validate_zyla validate_hosted
validate s = do
  validate_basic s
  if s.zyla_enabled then validate_zyla s else ok tt
  if is_hosted s then validate_hosted s else ok tt

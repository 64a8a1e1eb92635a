-- ===== src/Settings/Loading.antt =====
-- The fields of `Settings` of app/config.py, read from the environment of the process: `getenv` is what
-- `os.getenv` finds, and `int_of` and `milliseconds_of` are `int` and `float` of a text, with nothing for
-- a `ValueError`.
use lead_generation_api_zyla.Prelude.{
  String, Bool, true, false, not, ◌==◌, Option, none, some, List, [], ◌∷◌, map, keep, if◌then◌else◌,
}
use lead_generation_api_zyla.Prelude.Int.{ℤ}
use lead_generation_api_zyla.Prelude.Text.{mem, lower, upper, strip, split_comma}
use lead_generation_api_zyla.Errors.{Result, ok, err, value_error, ◌>>=◌}
use lead_generation_api_zyla.Settings.{Settings}

-- `_TRUE_VALUES`
abbrev pub true_values : List String
true_values = "1" ∷ "true" ∷ "yes" ∷ "on" ∷ []

abbrev pub or_default : String → Option String → String
or_default default none = default
or_default default (some value) = value

-- `str(default)`
abbrev text_of_bool : Bool → String
text_of_bool b = if b then "True" else "False"

abbrev converted : Option ℤ → Result ℤ
converted none = err (value_error "invalid literal")
converted (some z) = ok z

-- the fields that are numbers
pub record Numbers : Type 0 where
  pub db_pool_size : ℤ
  pub db_max_overflow : ℤ
  pub db_pool_recycle_seconds : ℤ
  pub db_pool_timeout_seconds : ℤ
  pub access_token_minutes : ℤ
  pub default_credits : ℤ
  pub rate_limit_per_minute : ℤ
  pub idempotency_ttl_seconds : ℤ
  pub queue_block_ms : ℤ
  pub provider_timeout_ms : ℤ
  pub free_trial_credits : ℤ
  pub data_retention_days : ℤ
  pub zyla_default_credits : ℤ
  pub zyla_max_limit : ℤ

module _ (getenv : String → Option String) where
  -- `os.getenv(name, default)`
  abbrev pub env_text : String → String → String
  env_text name default = or_default default (getenv name)

  -- `os.getenv(name, default).strip().lower()`
  abbrev pub env_word : String → String → String
  env_word name default = lower (strip (env_text name default))

  -- `_bool`
  abbrev pub env_bool : String → Bool → Bool
  env_bool name default = mem (env_word name (text_of_bool default)) true_values

  -- `_csv`
  abbrev pub env_csv : String → String → List String
  env_csv name default =
      map strip (keep (λ value. not (strip value == "")) (split_comma (env_text name default)))

  module _ (int_of milliseconds_of : String → Option ℤ) where
    abbrev env_int : String → String → Result ℤ
    env_int name default = converted (int_of (env_text name default))

    unfoldable pub read_numbers : Result Numbers
    read_numbers = do
      db_pool_size ← env_int "DB_POOL_SIZE" "20"
      db_max_overflow ← env_int "DB_MAX_OVERFLOW" "40"
      db_pool_recycle_seconds ← env_int "DB_POOL_RECYCLE_SECONDS" "3600"
      db_pool_timeout_seconds ← env_int "DB_POOL_TIMEOUT_SECONDS" "30"
      access_token_minutes ← env_int "ACCESS_TOKEN_MINUTES" "30"
      default_credits ← env_int "DEFAULT_CREDITS" "100"
      rate_limit_per_minute ← env_int "RATE_LIMIT_PER_MINUTE" "60"
      idempotency_ttl_seconds ← env_int "IDEMPOTENCY_TTL_SECONDS" "86400"
      queue_block_ms ← env_int "QUEUE_BLOCK_MS" "5000"
      provider_timeout_ms ← converted (milliseconds_of (env_text "PROVIDER_TIMEOUT_SECONDS" "15"))
      free_trial_credits ← env_int "FREE_TRIAL_CREDITS" "0"
      data_retention_days ← env_int "DATA_RETENTION_DAYS" "365"
      zyla_default_credits ← env_int "ZYLA_DEFAULT_CREDITS" "1000000"
      zyla_max_limit ← env_int "ZYLA_MAX_LIMIT" "25"
      ok (record {
        db_pool_size = db_pool_size;
        db_max_overflow = db_max_overflow;
        db_pool_recycle_seconds = db_pool_recycle_seconds;
        db_pool_timeout_seconds = db_pool_timeout_seconds;
        access_token_minutes = access_token_minutes;
        default_credits = default_credits;
        rate_limit_per_minute = rate_limit_per_minute;
        idempotency_ttl_seconds = idempotency_ttl_seconds;
        queue_block_ms = queue_block_ms;
        provider_timeout_ms = provider_timeout_ms;
        free_trial_credits = free_trial_credits;
        data_retention_days = data_retention_days;
        zyla_default_credits = zyla_default_credits;
        zyla_max_limit = zyla_max_limit;
      })

  abbrev pub settings_of : Numbers → Settings
  settings_of n = record {
    app_name = env_text "APP_NAME" "Lead Generation API";
    environment = env_word "APP_ENV" "development";
    database_url = env_text "DATABASE_URL" "sqlite:///./lead_generation.db";
    db_pool_size = n.db_pool_size;
    db_max_overflow = n.db_max_overflow;
    db_pool_recycle_seconds = n.db_pool_recycle_seconds;
    db_pool_timeout_seconds = n.db_pool_timeout_seconds;
    jwt_secret = env_text "JWT_SECRET" "dev-only-change-me";
    jwt_algorithm = env_text "JWT_ALGORITHM" "HS256";
    access_token_minutes = n.access_token_minutes;
    api_key_pepper = env_text "API_KEY_PEPPER" "dev-only-api-key-pepper";
    default_credits = n.default_credits;
    rate_limit_per_minute = n.rate_limit_per_minute;
    rate_limit_backend = env_word "RATE_LIMIT_BACKEND" "memory";
    redis_url = env_text "REDIS_URL" "redis://localhost:6379/0";
    cors_origins = env_csv "CORS_ORIGINS" "http://localhost:3000";
    auto_create_schema = env_bool "AUTO_CREATE_SCHEMA" true;
    idempotency_backend = env_word "IDEMPOTENCY_BACKEND" "memory";
    idempotency_ttl_seconds = n.idempotency_ttl_seconds;
    queue_backend = env_word "QUEUE_BACKEND" "redis";
    queue_stream = env_text "QUEUE_STREAM" "lead-generation-jobs";
    queue_group = env_text "QUEUE_GROUP" "lead-generation-workers";
    queue_consumer = env_text "QUEUE_CONSUMER" (env_text "HOSTNAME" "worker");
    queue_block_ms = n.queue_block_ms;
    provider_mode = env_word "PROVIDER_MODE" "synthetic";
    provider_name = strip (env_text "PROVIDER_NAME" "approved_http_provider");
    provider_url = env_text "PROVIDER_URL" "";
    provider_token = env_text "PROVIDER_TOKEN" "";
    provider_auth_scheme = env_word "PROVIDER_AUTH_SCHEME" "bearer";
    provider_timeout_ms = n.provider_timeout_ms;
    provider_data_source = strip (
        env_text "PROVIDER_DATA_SOURCE"
          "Deployment-specific licensed B2B data provider; configure before marketplace launch.");
    provider_use_policy = strip (env_text "PROVIDER_USE_POLICY" "PROVIDER_CONTRACT_REQUIRED");
    pricing_model = strip (
        env_text "PRICING_MODEL"
          "One credit per returned lead; marketplace price is deployment-defined.");
    free_trial_credits = n.free_trial_credits;
    billing_webhook_secret = env_text "BILLING_WEBHOOK_SECRET" "";
    allow_synthetic_in_production = env_bool "ALLOW_SYNTHETIC_IN_PRODUCTION" false;
    metrics_enabled = env_bool "METRICS_ENABLED" true;
    metrics_token = env_text "METRICS_TOKEN" "";
    log_level = upper (env_text "LOG_LEVEL" "INFO");
    data_retention_days = n.data_retention_days;
    zyla_enabled = env_bool "ZYLA_ENABLED" false;
    zyla_auth_mode = env_word "ZYLA_AUTH_MODE" "shared_token";
    zyla_shared_token = env_text "ZYLA_SHARED_TOKEN" "";
    zyla_tenant_id = env_text "ZYLA_TENANT_ID" "00000000-0000-0000-0000-000000000001";
    zyla_tenant_name = env_text "ZYLA_TENANT_NAME" "Zyla Marketplace Consumers";
    zyla_tenant_slug = env_text "ZYLA_TENANT_SLUG" "zyla-marketplace";
    zyla_default_credits = n.zyla_default_credits;
    zyla_max_limit = n.zyla_max_limit;
    zyla_allow_synthetic = env_bool "ZYLA_ALLOW_SYNTHETIC" false;
  }

  -- `Settings()`
  unfoldable pub load_settings : (int_of milliseconds_of : String → Option ℤ) → Result Settings
  load_settings int_of milliseconds_of = do
    n ← read_numbers int_of milliseconds_of
    ok (settings_of n)

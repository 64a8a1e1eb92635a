-- ===== src/Settings/Safety.antt =====
-- About `Settings.validate` of app/config.py: what it makes sure of in a hosted environment.
use Prim.Native.String.{count}
use lead_generation_api_zyla.Prelude.{
  ◌≤◌, String, Bool, true, false, not, ◌&&◌, ◌||◌, ◌==◌, ◌≡◌, ◌≢◌, ◌⊎◌, inl, inr, Bool-cases, refl,
  if◌then◌else◌, ◌∷◌, [], arith, eq_iff,
}
use lead_generation_api_zyla.Prelude.Text.{mem, startswith}
use lead_generation_api_zyla.Prelude.Int.{pos, ltb_ℤ}
use lead_generation_api_zyla.Errors.{Result, ok, err, raise_if-eq-ok, raise_if-then, ◌>>◌}
use lead_generation_api_zyla.Settings.{
  Settings, is_hosted, forbidden, shorter, longer, empty, not_positive, validate_basic,
  validate_zyla_hosted, validate_zyla, validate_hosted, validate,
}

-- what production and staging require
pub record IsHostedSafe (s : Settings) : Type 0 where
  pub long_jwt_secret : 32 ≤ count s.jwt_secret
  pub own_jwt_secret : mem s.jwt_secret forbidden ≡ false
  pub long_pepper : 32 ≤ count s.api_key_pepper
  pub own_pepper : mem s.api_key_pepper forbidden ≡ false
  pub postgres :
      (startswith s.database_url "postgresql://"
        || startswith s.database_url "postgresql+psycopg://")
      ≡ true
  pub shared_rate_limit : s.rate_limit_backend ≡ "redis"
  pub shared_idempotency : s.idempotency_backend ≡ "redis"
  pub shared_queue : s.queue_backend ≡ "redis"
  pub migrated : s.auto_create_schema ≡ false
  pub no_wildcard : mem "*" s.cors_origins ≡ false
  pub long_metrics_token : (s.metrics_enabled ≡ false) ⊎ (32 ≤ count s.metrics_token)
  pub approved_provider : (s.provider_mode ≢ "synthetic") ⊎ (s.allow_synthetic_in_production ≡ true)
  pub long_webhook_secret : 32 ≤ count s.billing_webhook_secret

-- what they require of an enabled Zyla edition
pub record IsZylaSafe (s : Settings) : Type 0 where
  pub shared_token : s.zyla_auth_mode ≡ "shared_token"
  pub long_shared_token : 32 ≤ count s.zyla_shared_token
  pub licensed_provider : (s.provider_mode ≢ "synthetic") ⊎ (s.zyla_allow_synthetic ≡ true)

sequence :
    (m : Result (Unit {0})) {rest : Result (Unit {0})} {u : Unit {0}}
    → (m >> rest) ≡ ok u
    → (m ≡ ok tt) × (rest ≡ ok u)
sequence (ok _) h = (refl, h)
sequence (err _) h = cc

long : (b : Bool) (t : String) → (b || shorter t 32) ≡ false → 32 ≤ count t
long true t h = cc
long false t h = ground arith

same : (a b : String) → not (a == b) ≡ false → a ≡ b
same a b h = ground (arith, eq_iff a b)

holds : (b : Bool) → not b ≡ false → b ≡ true
holds true h = refl
holds false h = cc

first_false : (a b : Bool) → (a || b) ≡ false → a ≡ false
first_false true b h = cc
first_false false b h = refl

long_if : (on : Bool) (t : String) → (on && shorter t 32) ≡ false → (on ≡ false) ⊎ (32 ≤ count t)
long_if false t h = inl refl
long_if true t h = inr (long false t h)

approved :
    (mode : String) (allowed : Bool)
    → ((mode == "synthetic") && not allowed) ≡ false
    → (mode ≢ "synthetic") ⊎ (allowed ≡ true)
approved mode true h = inr refl
approved mode false h = inl (λ on. ground (arith, eq_iff mode "synthetic"))

chosen :
    (b : Bool) {m : Result (Unit {0})} → b ≡ true → (if b then m else ok tt) ≡ ok tt → m ≡ ok tt
chosen true on h = h
chosen false on h = cc

hosted-IsHostedSafe : (s : Settings) → validate_hosted s ≡ ok tt → IsHostedSafe s
unfolding validate_hosted
hosted-IsHostedSafe s h =
    let (jwt, h1) = raise_if-then (mem s.jwt_secret forbidden || shorter s.jwt_secret 32) _ h in
    let (pepper, h2) =
      raise_if-then (mem s.api_key_pepper forbidden || shorter s.api_key_pepper 32) _ h1 in
    let (database, h3) =
      raise_if-then
        (not (
          startswith s.database_url "postgresql://"
          || startswith s.database_url "postgresql+psycopg://"))
        _ h2 in
    let (limit, h4) = raise_if-then (not (s.rate_limit_backend == "redis")) _ h3 in
    let (idem, h5) = raise_if-then (not (s.idempotency_backend == "redis")) _ h4 in
    let (queue, h6) = raise_if-then (not (s.queue_backend == "redis")) _ h5 in
    let (schema, h7) = raise_if-then s.auto_create_schema _ h6 in
    let (cors, h8) = raise_if-then (mem "*" s.cors_origins) _ h7 in
    let (metrics, h9) = raise_if-then (s.metrics_enabled && shorter s.metrics_token 32) _ h8 in
    let (provider, h10) =
      raise_if-then ((s.provider_mode == "synthetic") && not s.allow_synthetic_in_production) _
        h9 in
    let (_, h11) =
      raise_if-then
        ((s.provider_mode == "http")
          && (empty s.provider_url || (empty s.provider_token || empty s.provider_data_source)))
        _ h10 in
    let webhook = raise_if-eq-ok (shorter s.billing_webhook_secret 32) _ h11 in
    record {
      long_jwt_secret = long (mem s.jwt_secret forbidden) s.jwt_secret jwt;
      own_jwt_secret = first_false (mem s.jwt_secret forbidden) _ jwt;
      long_pepper = long (mem s.api_key_pepper forbidden) s.api_key_pepper pepper;
      own_pepper = first_false (mem s.api_key_pepper forbidden) _ pepper;
      postgres =
          holds
            (startswith s.database_url "postgresql://"
              || startswith s.database_url "postgresql+psycopg://")
            database;
      shared_rate_limit = same s.rate_limit_backend "redis" limit;
      shared_idempotency = same s.idempotency_backend "redis" idem;
      shared_queue = same s.queue_backend "redis" queue;
      migrated = schema;
      no_wildcard = cors;
      long_metrics_token = long_if s.metrics_enabled s.metrics_token metrics;
      approved_provider = approved s.provider_mode s.allow_synthetic_in_production provider;
      long_webhook_secret = long false s.billing_webhook_secret webhook;
    }

zyla_hosted-IsZylaSafe : (s : Settings) → validate_zyla_hosted s ≡ ok tt → IsZylaSafe s
unfolding validate_zyla_hosted
zyla_hosted-IsZylaSafe s h =
    let (token, h1) =
      raise_if-then (not (s.zyla_auth_mode == "shared_token") || shorter s.zyla_shared_token 32) _
        h in
    let provider =
      raise_if-eq-ok ((s.provider_mode == "synthetic") && not s.zyla_allow_synthetic) _ h1 in
    record {
      shared_token = same s.zyla_auth_mode "shared_token" (first_false _ _ token);
      long_shared_token = long (not (s.zyla_auth_mode == "shared_token")) s.zyla_shared_token token;
      licensed_provider = approved s.provider_mode s.zyla_allow_synthetic provider;
    }

zyla-IsZylaSafe : (s : Settings) → validate_zyla s ≡ ok tt → is_hosted s ≡ true → IsZylaSafe s
unfolding validate_zyla
zyla-IsZylaSafe s h hosted =
    let (_, h1) = raise_if-then (not (mem s.zyla_auth_mode ("shared_token" ∷ "public" ∷ []))) _ h in
    let (_, h2) = raise_if-then (empty s.zyla_tenant_id || longer s.zyla_tenant_id 36) _ h1 in
    let (_, h3) = raise_if-then (empty s.zyla_tenant_slug || longer s.zyla_tenant_slug 120) _ h2 in
    let (_, h4) =
      raise_if-then
        (not_positive s.zyla_default_credits
          || (not_positive s.zyla_max_limit || ltb_ℤ (pos 100) s.zyla_max_limit))
        _ h3 in
    zyla_hosted-IsZylaSafe s (chosen _ hosted h4)

zyla_if :
    (s : Settings)
    → (s.zyla_enabled ≡ true) ⊎ (s.zyla_enabled ≡ false)
    → (if s.zyla_enabled then validate_zyla s else ok tt) ≡ ok tt
    → is_hosted s ≡ true
    → (s.zyla_enabled ≡ false) ⊎ IsZylaSafe s
zyla_if s (inl on) h hosted = inr (zyla-IsZylaSafe s (chosen _ on h) hosted)
zyla_if s (inr off) h hosted = inl off

-- A configuration that `validate` accepts in production or staging has secrets of at least 32
-- characters for tokens, API keys, billing events and, when metrics are on, metrics, of which those for
-- tokens and API keys are none of the four published defaults and placeholders; keeps its tables in
-- PostgreSQL, and rate limits, idempotency keys and the queue in Redis; creates no schema and allows no
-- wildcard origin; and serves synthetic leads only where that is allowed. An enabled Zyla edition then
-- takes a shared token of at least 32 characters and serves synthetic leads only where that is allowed.
pub validate-IsSafe :
    (s : Settings)
    → validate s ≡ ok tt
    → is_hosted s ≡ true
    → IsHostedSafe s × ((s.zyla_enabled ≡ false) ⊎ IsZylaSafe s)
unfolding validate
validate-IsSafe s h hosted =
    let (_, h1) = sequence (validate_basic s) h in
    let (zyla, h2) = sequence (if s.zyla_enabled then validate_zyla s else ok tt) h1 in
    (hosted-IsHostedSafe s (chosen _ hosted h2), zyla_if s (Bool-cases s.zyla_enabled) zyla hosted)

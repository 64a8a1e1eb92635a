-- ===== src/Settings/Required.antt =====
-- About `Settings` and `Settings.validate` of app/config.py: the variables that a hosted process needs.
use Prim.Native.String.{count}
use lead_generation_api_zyla.Prelude.{
  ◌≤◌, String, Bool, true, false, ◌||◌, ◌≡◌, ◌≢◌, ◌⊎◌, inl, inr, refl, subst, Option, none, List,
  [], ◌∷◌, All, arith, eq_iff,
}
use lead_generation_api_zyla.Prelude.Int.{ℤ}
use lead_generation_api_zyla.Prelude.Text.{mem, lower, strip, startswith}
use lead_generation_api_zyla.Errors.{ok, >>=-eq-ok}
use lead_generation_api_zyla.Settings.{Settings, is_hosted, validate}
use lead_generation_api_zyla.Settings.Safety.{IsHostedSafe, validate-IsSafe}
use lead_generation_api_zyla.Settings.Loading.{
  Numbers, true_values, or_default, read_numbers, settings_of, load_settings,
}

-- the environment has the variable
abbrev pub IsGiven : (String → Option String) → String → Type 0
IsGiven getenv name = getenv name ≢ none

-- the variables whose default no hosted process is started with
abbrev pub required : List String
required =
    "APP_ENV" ∷ "JWT_SECRET" ∷ "API_KEY_PEPPER" ∷ "DATABASE_URL" ∷ "RATE_LIMIT_BACKEND"
    ∷ "IDEMPOTENCY_BACKEND" ∷ "AUTO_CREATE_SCHEMA" ∷ "BILLING_WEBHOOK_SECRET" ∷ []

-- a text that has a property which its default lacks was read from the environment
read_from {ℓ} :
    (P : String → Type ℓ) (default : String) (o : Option String)
    → P (or_default default o)
    → ¬ P default
    → o ≢ none
read_from P default o p lacks e = lacks (subst (λ o'. P (or_default default o')) e p)

abbrev is_hosted_word : String → Bool
is_hosted_word t = mem (lower (strip t)) ("production" ∷ "staging" ∷ [])

abbrev is_postgres : String → Bool
is_postgres t = startswith t "postgresql://" || startswith t "postgresql+psycopg://"

module _ (getenv : String → Option String) (n : Numbers) where
  hosted-AreGiven :
      is_hosted (settings_of getenv n) ≡ true
      → IsHostedSafe (settings_of getenv n)
      → All (IsGiven getenv) required
  unfolding lower strip startswith
  hosted-AreGiven hosted safe =
      let short = λ (t : String). 32 ≤ count t in
      let shared = λ (t : String). lower (strip t) ≡ "redis" in
      (
        read_from (λ t. is_hosted_word t ≡ true) "development" (getenv "APP_ENV") hosted (λ e. cc),
        (
          read_from short "dev-only-change-me" (getenv "JWT_SECRET") safe.long_jwt_secret
              (λ e. omega arith),
          (
            read_from short "dev-only-api-key-pepper" (getenv "API_KEY_PEPPER") safe.long_pepper
                (λ e. omega arith),
            (
              read_from (λ t. is_postgres t ≡ true) "sqlite:///./lead_generation.db"
                  (getenv "DATABASE_URL") safe.postgres (λ e. cc),
              (
                read_from shared "memory" (getenv "RATE_LIMIT_BACKEND") safe.shared_rate_limit
                    (λ e. ground (arith, eq_iff "memory" "redis")),
                (
                  read_from shared "memory" (getenv "IDEMPOTENCY_BACKEND") safe.shared_idempotency
                      (λ e. ground (arith, eq_iff "memory" "redis")),
                  (
                    read_from (λ t. mem (lower (strip t)) true_values ≡ false) "True"
                        (getenv "AUTO_CREATE_SCHEMA") safe.migrated (λ e. cc),
                    (
                      read_from short "" (getenv "BILLING_WEBHOOK_SECRET") safe.long_webhook_secret
                          (λ e. omega arith),
                      tt,
                    ),
                  ),
                ),
              ),
            ),
          ),
        ),
      )

  -- synthetic leads are served by default, and a hosted process does not allow them by default
  provider-IsChosen :
      IsHostedSafe (settings_of getenv n)
      → IsGiven getenv "PROVIDER_MODE" ⊎ IsGiven getenv "ALLOW_SYNTHETIC_IN_PRODUCTION"
  unfolding lower strip
  provider-IsChosen safe = elim safe.approved_provider [
    | inl other ↦ inl (
        read_from (λ t. lower (strip t) ≢ "synthetic") "synthetic" (getenv "PROVIDER_MODE") other
          (λ ne. ne refl))
    | inr allowed ↦ inr (
        read_from (λ t. mem (lower (strip t)) true_values ≡ true) "False"
          (getenv "ALLOW_SYNTHETIC_IN_PRODUCTION") allowed (λ e. cc))
  ]

-- A process whose settings are read from its environment and accepted by `validate` as those of
-- production or staging has set, in its environment: APP_ENV, JWT_SECRET, API_KEY_PEPPER, DATABASE_URL,
-- RATE_LIMIT_BACKEND, IDEMPOTENCY_BACKEND, AUTO_CREATE_SCHEMA and BILLING_WEBHOOK_SECRET; and it has set
-- PROVIDER_MODE or ALLOW_SYNTHETIC_IN_PRODUCTION. So none of these runs hosted by its default.
pub hosted_defaults_refused :
    (getenv : String → Option String) (int_of milliseconds_of : String → Option ℤ) (s : Settings)
    → load_settings getenv int_of milliseconds_of ≡ ok s
    → validate s ≡ ok tt
    → is_hosted s ≡ true
    → All (IsGiven getenv) required
      × (IsGiven getenv "PROVIDER_MODE" ⊎ IsGiven getenv "ALLOW_SYNTHETIC_IN_PRODUCTION")
unfolding load_settings
hosted_defaults_refused getenv int_of milliseconds_of s loaded accepted hosted =
    let (n, _, same) = >>=-eq-ok (read_numbers getenv int_of milliseconds_of) _ loaded in
    let equal : s ≡ settings_of getenv n = cc in
    let safe = (validate-IsSafe s accepted hosted).0 in
    let safe_n = subst IsHostedSafe equal safe in
    (
      hosted-AreGiven getenv n (subst (λ x. is_hosted x ≡ true) equal hosted) safe_n,
      provider-IsChosen getenv n safe_n,
    )

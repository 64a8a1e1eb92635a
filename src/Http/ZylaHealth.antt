-- ===== src/Http/ZylaHealth.antt =====
-- `zyla_metadata` of app/zyla.py, and `zyla_health` of app/main.py. A dict of texts is a list.
use lead_generation_api_zyla.Prelude.{String, Bool, ◌==◌, List, [], ◌∷◌, if◌then◌else◌}
use lead_generation_api_zyla.Errors.{Result, ok, err, app_error}
use lead_generation_api_zyla.Env.{Env}
use lead_generation_api_zyla.Json.{num}
use lead_generation_api_zyla.Settings.{Settings}

-- `zyla_metadata`
abbrev pub zyla_metadata : Env → Settings → List (String × String)
zyla_metadata env s =
    let synthetic = s.provider_mode == "synthetic" in
    ("edition", "zyla-hosted-api")
    ∷ ("owner", "Sadeq Obaid")
    ∷ ("provider", if synthetic then "synthetic_provider" else s.provider_name)
    ∷ ("provider_mode", s.provider_mode)
    ∷ (
      "data_source",
      if synthetic
          then "Built-in deterministic fixture records; development and demonstrations only."
          else s.provider_data_source,
    )
    ∷ ("data_policy", if synthetic then "SYNTHETIC_DEMO_ONLY" else s.provider_use_policy)
    ∷ ("pricing_model", s.pricing_model)
    ∷ ("free_trial_credits", env.repr (num s.free_trial_credits))
    ∷ ("authentication", "Authorization: Bearer <Zyla API key>")
    ∷ ("endpoint_method", "GET or POST")
    ∷ []

-- `zyla_health`, where a statement on the database may raise
pub zyla_health : Env → Settings → Bool → String → Result (List (String × String))
zyla_health env s reachable request_id =
    if s.zyla_enabled
    then if reachable
      then ok (("status", "ok") ∷ ("request_id", request_id) ∷ zyla_metadata env s)
      else err (app_error "NOT_READY" "The hosted API is not ready." 503)
    else err (app_error "NOT_FOUND" "The Zyla edition is disabled." 404)

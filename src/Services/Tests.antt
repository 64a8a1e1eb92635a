-- ===== src/Services/Tests.antt =====
-- A concrete score: the insurance fixture under an industry filter.
use lead_generation_api_zyla.Prelude.{◌≡◌, refl, none}
use lead_generation_api_zyla.Errors.{ok}
use lead_generation_api_zyla.Providers.{ProviderLead}
use lead_generation_api_zyla.Search.Tests.{demo_env, demo_call}
use lead_generation_api_zyla.Services.{
  ScoredLead, score_provider_lead, scored, points, intent_points,
}
use lead_generation_api_zyla.Services.Scores.{IsScoreOf, score_provider_lead-IsScoreOf}
use lead_generation_api_zyla.Json.{end, str, field}

abbrev lead : ProviderLead
lead = record {
  provider = "p";
  company =
      field "name" (str "A") (field "industry" (str "insurance") (field "country" (str "SA") end));
  contact = none;
  observed_at = "";
  use_policy = "";
  data_status = "LIVE";
}

abbrev score : ScoredLead
score = scored lead (record {
  industry = 20;
  country = 5;
  job_title = 10;
  technology = 5;
  company_size = 8;
  intent = 0;
})

runs : score_provider_lead demo_env lead demo_call.payload.filters ≡ ok score
unfolding score_provider_lead points intent_points
runs = refl

score_provider_lead-IsScoreOf_example : IsScoreOf lead score
score_provider_lead-IsScoreOf_example =
    score_provider_lead-IsScoreOf demo_env lead demo_call.payload.filters score runs

-- ===== src/Services/Scores.antt =====
-- About `score_provider_lead` of app/services.py: the range of a score.
use lead_generation_api_zyla.Prelude.{ℕ, ◌≤◌, ◌≡◌, refl, Bool, true, false, arith}
use lead_generation_api_zyla.Errors.{ok, Holds, Holds-bind, Holds-eq-ok}
use lead_generation_api_zyla.Env.{Env}
use lead_generation_api_zyla.Json.{Json, lookup, get}
use lead_generation_api_zyla.Schemas.{LeadFilters}
use lead_generation_api_zyla.Models.{Breakdown}
use lead_generation_api_zyla.Providers.{ProviderLead}
use lead_generation_api_zyla.Services.{
  ScoredLead, matches_set, technologies_of, in_range, points, intent_points, total, clamp_score,
  scored, score_provider_lead,
}

-- what a score says of its record
abbrev pub IsScoreOf : ProviderLead → ScoredLead → Type 0
IsScoreOf lead s =
    (s.source ≡ lead)
    × (s.lead_score ≡ total s.breakdown)
    × (s.icp_score ≡ s.lead_score)
    × (s.lead_score ≤ 90)

points_bound :
    (given matched : Bool) (hit neutral : ℕ)
    → neutral ≤ hit
    → points given matched hit neutral ≤ hit
unfolding points
points_bound true true hit neutral h = omega arith
points_bound true false hit neutral h = omega arith
points_bound false matched hit neutral h = ground arith

intent_bound : (signal : Json) → intent_points signal ≤ 15
unfolding intent_points
intent_bound signal = ground arith

scored-IsScoreOf :
    (lead : ProviderLead) (b : Breakdown)
    → b.industry ≤ 20
    → b.country ≤ 10
    → b.job_title ≤ 20
    → b.technology ≤ 10
    → b.company_size ≤ 15
    → b.intent ≤ 15
    → IsScoreOf lead (scored lead b)
unfolding total clamp_score
scored-IsScoreOf lead b h1 h2 h3 h4 h5 h6 = (refl, omega arith, refl, omega arith)

score-Holds :
    (env : Env) (lead : ProviderLead) (f : LeadFilters)
    → Holds (IsScoreOf lead) (score_provider_lead env lead f)
unfolding score_provider_lead
score-Holds env lead f =
    let ten : 10 ≤ 20 = omega arith in
    let five : 5 ≤ 10 = omega arith in
    let eight : 8 ≤ 15 = omega arith in
    let P = IsScoreOf lead in
    Holds-bind P (matches_set lead "industry" f.industries) _ λ by_industry.
      Holds-bind P (matches_set lead "country" f.countries) _ λ by_country.
        Holds-bind P (technologies_of (lookup "technologies" lead.company)) _ λ values.
          Holds-bind P (in_range f (get lead.company "employee_count")) _ λ fits.
            scored-IsScoreOf lead _ (points_bound _ _ 20 10 ten) (points_bound _ _ 10 5 five)
              (points_bound _ _ 20 10 ten) (points_bound _ _ 10 5 five)
              (points_bound _ _ 15 8 eight) (intent_bound _)

-- A score that is returned is the plain sum of its six entries and at most 90: the clamp to the range
-- from 0 to 100 never changes it. It equals the ICP score and keeps the record that it scores.
pub score_provider_lead-IsScoreOf :
    (env : Env) (lead : ProviderLead) (f : LeadFilters) (s : ScoredLead)
    → score_provider_lead env lead f ≡ ok s
    → IsScoreOf lead s
score_provider_lead-IsScoreOf env lead f s h =
    Holds-eq-ok (IsScoreOf lead) (score-Holds env lead f) h

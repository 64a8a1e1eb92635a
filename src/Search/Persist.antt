-- ===== src/Search/Persist.antt =====
-- The loop of app/search_service.py over the chosen leads, and the response it builds.
pub mod Answers
use Prim.Native.String.{◌++◌ as str_append}
use lead_generation_api_zyla.Prelude.{
  ℕ, ◌+◌, String, Bool, true, false, not, ◌&&◌, ◌==◌, Option, none, some, List, [], ◌∷◌, ◌++◌, map,
  find, leb, if◌then◌else◌,
}
use lead_generation_api_zyla.Prelude.Text.{upper}
use lead_generation_api_zyla.Errors.{Result, ok, err, value_error}
use lead_generation_api_zyla.Errors
use mathlib.Core.Option
use lead_generation_api_zyla.Exec.{Exec, pure, lift, gets, modify, ◌>>=◌, ◌>>◌}
use lead_generation_api_zyla.Env.{Env}
use lead_generation_api_zyla.Json.{
  Json, null, str, Fields, end, field, lookup, get, item, text_column, text_required, int_column,
}
use lead_generation_api_zyla.Schemas.Responses.{
  CompanyResponse, ContactResponse, ScoresResponse, QualityResponse, ProvenanceResponse,
  LeadResponse,
}
use lead_generation_api_zyla.Models.{Company, Contact, Lead, Catalog}
use lead_generation_api_zyla.Services.{ScoredLead, domain_of, completeness}
use lead_generation_api_zyla.Providers.{ProviderLead, or_else}
use lead_generation_api_zyla.Search.Rows.{get_or_create_company, get_or_create_contact, create_lead}

abbrev company_response : Company → CompanyResponse
company_response c = record {
  id = c.id;
  name = c.name;
  website = c.website;
  domain = c.canonical_domain;
  industry = c.industry;
  country = c.country;
  employee_count = c.employee_count;
  data_status = c.data_status;
}

abbrev contact_response : Contact → ContactResponse
contact_response c = record {
  id = c.id;
  first_name = c.first_name;
  last_name = c.last_name;
  job_title = c.job_title;
  email = c.email;
  data_status = c.data_status;
}

pub score_category : ℕ → String
score_category n = if leb 70 n then "HIGH" else if leb 40 n then "MEDIUM" else "LOW"

abbrev pub scores_response : ScoredLead → ScoresResponse
scores_response s = record {
  lead_score = s.lead_score;
  score_category = score_category s.lead_score;
  icp_score = s.icp_score;
  icp_match = leb 70 s.icp_score;
  breakdown = s.breakdown;
  rule_set_version = "mvp_v1";
}

-- `quality_for`
abbrev quality_response : ProviderLead → QualityResponse
quality_response source = record {
  completeness = completeness source;
  freshness = 70;
  confidence = 95;
  source_count = 1;
  provenance_available = true;
}

module _ (env : Env) (tenant_id : String) where
  -- `datetime.fromisoformat(s)`
  abbrev iso : String → Result ℕ
  iso s = elim (env.from_iso s) [ none ↦ err (value_error s) | some t ↦ ok t ]

  abbrev fixture_notice : Json
  fixture_notice =
      str "Built-in deterministic fixture records; development and demonstrations only."

  unfoldable pub provenance_response : ProviderLead → Result ProvenanceResponse
  provenance_response source = Errors.◌>>=◌ (iso source.observed_at) λ at.
      Errors.◌>>=◌
        (text_column (
          or_else (get source.company "data_source")
            (if upper source.data_status == "SYNTHETIC" then fixture_notice else null)))
        λ origin. ok (record {
          provider = source.provider;
          observed_at = at;
          use_policy = source.use_policy;
          data_status = source.data_status;
          data_source = origin;
        })

  -- the body of the loop over the scored leads
  unfoldable pub persist_item : ScoredLead → Exec Catalog LeadResponse
  unfolding get_or_create_company get_or_create_contact create_lead provenance_response
  persist_item scored = do
    company ← get_or_create_company env tenant_id scored.source.company
    contact ← get_or_create_contact env tenant_id company.id scored.source.contact
    lead ← create_lead env tenant_id scored company.id (Option.map (λ c. c.id) contact)
    provenance ← lift (provenance_response scored.source)
    pure (record {
      id = lead.id;
      record_status = lead.status;
      company = company_response company;
      contact = Option.map contact_response contact;
      scores = scores_response scored;
      quality = quality_response scored.source;
      provenance = provenance ∷ [];
    })

  unfoldable pub persist_items : List ScoredLead → Exec Catalog (List LeadResponse)
  persist_items [] = pure []
  persist_items (scored ∷ rest) = do
    response ← persist_item scored
    responses ← persist_items rest
    pure (response ∷ responses)

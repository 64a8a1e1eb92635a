-- ===== src/Schemas/Responses.antt =====
-- The response models of app/schemas.py that a lead search returns.
use lead_generation_api_zyla.Prelude.{ℕ, String, Bool, Option, List}
use lead_generation_api_zyla.Prelude.Int.{ℤ}
use lead_generation_api_zyla.Models.{Breakdown}

pub record CompanyResponse : Type 0 where
  pub id : String
  pub name : String
  pub website : Option String
  pub domain : Option String
  pub industry : Option String
  pub country : Option String
  pub employee_count : Option ℤ
  pub data_status : String

-- `email_verification` is always None
pub record ContactResponse : Type 0 where
  pub id : String
  pub first_name : Option String
  pub last_name : Option String
  pub job_title : Option String
  pub email : Option String
  pub data_status : String

pub record ScoresResponse : Type 0 where
  pub lead_score : ℕ
  pub score_category : String
  pub icp_score : ℕ
  pub icp_match : Bool
  pub breakdown : Breakdown
  pub rule_set_version : String

-- `accuracy_estimate` is always None
pub record QualityResponse : Type 0 where
  pub completeness : ℕ
  pub freshness : ℕ
  pub confidence : ℕ
  pub source_count : ℕ
  pub provenance_available : Bool

pub record ProvenanceResponse : Type 0 where
  pub provider : String
  pub observed_at : ℕ
  pub use_policy : String
  pub data_status : String
  pub data_source : Option String

pub record LeadResponse : Type 0 where
  pub id : String
  pub record_status : String
  pub company : CompanyResponse
  pub contact : Option ContactResponse
  pub scores : ScoresResponse
  pub quality : QualityResponse
  pub provenance : List ProvenanceResponse

pub record PaginationResponse : Type 0 where
  pub limit : ℕ
  pub next_cursor : Option String
  pub has_more : Bool

pub record UsageResponse : Type 0 where
  pub credits_reserved : ℕ
  pub credits_used : ℕ
  pub credits_remaining : ℤ

pub record LeadSearchResponse : Type 0 where
  pub request_id : String
  pub data_rows : List LeadResponse
  pub pagination : PaginationResponse
  pub usage : UsageResponse

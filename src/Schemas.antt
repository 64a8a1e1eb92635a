-- ===== src/Schemas.antt =====
-- The requests and responses of app/schemas.py that the search service reads and returns.
pub mod Responses
pub mod Accounts
pub mod Operations
use lead_generation_api_zyla.Prelude.{ℕ, String, List, Option}

pub record EmployeeRange : Type 0 where
  pub min : Option ℕ
  pub max : Option ℕ

pub record LeadFilters : Type 0 where
  pub countries : List String
  pub industries : List String
  pub employee_count : Option EmployeeRange
  pub job_titles : List String
  pub technologies : List String
  pub lead_score_min : Option ℕ

pub data SortField : Type 0 where
  lead_score company_name updated_at : SortField

pub data Direction : Type 0 where
  asc desc : Direction

pub record SortRequest : Type 0 where
  pub field : SortField
  pub direction : Direction

pub record LeadSearchRequest : Type 0 where
  pub filters : LeadFilters
  pub include : List String
  pub limit : ℕ
  pub cursor : Option String
  pub sort : SortRequest

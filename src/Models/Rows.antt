-- ===== src/Models/Rows.antt =====
-- The rows of app/models.py. A text column is a `String`, a nullable column an `Option`, an
-- integer column a signed integer or, where no code writes a negative number, a natural number.
-- A time is a number of microseconds. Columns that no code reads are left out.
use lead_generation_api_zyla.Prelude.{ℕ, String, List, Option}
use lead_generation_api_zyla.Prelude.Int.{ℤ}

pub record Tenant : Type 0 where
  pub id : String
  pub name : String
  pub slug : String
  pub status : String
  pub credits_balance : ℤ

pub record User : Type 0 where
  pub id : String
  pub tenant_id : String
  pub email : String
  pub password_hash : String
  pub role : String

pub record ApiKey : Type 0 where
  pub id : String
  pub tenant_id : String
  pub name : String
  pub environment : String
  pub key_prefix : String
  pub secret_hash : String
  pub scopes : List String
  pub status : String
  pub created_at : ℕ
  pub last_used_at : Option ℕ

pub record Company : Type 0 where
  pub id : String
  pub tenant_id : String
  pub name : String
  pub website : Option String
  pub canonical_domain : Option String
  pub industry : Option String
  pub country : Option String
  pub employee_count : Option ℤ
  pub data_status : String

pub record Contact : Type 0 where
  pub id : String
  pub tenant_id : String
  pub company_id : String
  pub first_name : Option String
  pub last_name : Option String
  pub job_title : Option String
  pub email : Option String
  pub data_status : String

-- the six entries of `score_breakdown`
pub record Breakdown : Type 0 where
  pub industry : ℕ
  pub country : ℕ
  pub job_title : ℕ
  pub technology : ℕ
  pub company_size : ℕ
  pub intent : ℕ

pub record Lead : Type 0 where
  pub id : String
  pub tenant_id : String
  pub company_id : String
  pub contact_id : Option String
  pub lead_score : ℕ
  pub icp_score : ℕ
  pub score_breakdown : Breakdown
  pub status : String

-- the columns `filters` (a copy of the request's) and `id` are carried as they are
pub record Search (F : Type 0) : Type 0 where
  pub id : String
  pub tenant_id : String
  pub request_hash : String
  pub filters : F
  pub result_count : ℕ
  pub credits_used : ℕ
  pub created_at : ℕ

pub record UsageRecord : Type 0 where
  pub tenant_id : String
  pub api_key_id : Option String
  pub endpoint : String
  pub request_id : String
  pub credits_used : ℕ
  pub response_status : ℕ
  pub provider : Option String
  pub latency_ms : Option ℕ
  pub created_at : ℕ

pub record CreditLedger : Type 0 where
  pub tenant_id : String
  pub amount : ℤ
  pub reason : String
  pub reference_id : String
  pub metadata_json : List (String × String)

pub record IdempotencyRecord : Type 0 where
  pub scope_key : String
  pub request_fingerprint : String
  pub expires_at : ℕ

pub record BackgroundJob : Type 0 where
  pub id : String
  pub tenant_id : Option String
  pub kind : String
  pub status : String
  pub attempts : ℕ
  pub last_error : Option String
  pub created_at : ℕ
  pub updated_at : ℕ
  pub completed_at : Option ℕ

pub record Suppression : Type 0 where
  pub id : String
  pub tenant_id : String
  pub subject_type : String
  pub subject_hash : String
  pub reason : String
  pub created_at : ℕ

pub record DataSubjectRequest : Type 0 where
  pub id : String
  pub tenant_id : String
  pub request_type : String
  pub subject_hash : String
  pub status : String
  pub created_at : ℕ
  pub completed_at : Option ℕ

pub record BillingEvent : Type 0 where
  pub provider : String
  pub event_id : String
  pub tenant_id : String
  pub event_type : String
  pub credits_granted : ℤ

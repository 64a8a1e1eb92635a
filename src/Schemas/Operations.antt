-- ===== src/Schemas/Operations.antt =====
-- The requests and responses of app/schemas.py about privacy, jobs and usage, with their validators.
use lead_generation_api_zyla.Prelude.{ℕ, String, Option}
use lead_generation_api_zyla.Errors.{Result, ok, ◌>>◌}
use lead_generation_api_zyla.Schemas.Accounts.{bounded}

pub data SubjectType : Type 0 where
  email domain company contact : SubjectType

abbrev pub subject_type_text : SubjectType → String
subject_type_text email = "email"
subject_type_text domain = "domain"
subject_type_text company = "company"
subject_type_text contact = "contact"

pub record SuppressionRequest : Type 0 where
  pub subject_type : SubjectType
  pub subject : String
  pub reason : String

pub suppression_request : SubjectType → String → String → Result SuppressionRequest
suppression_request subject_type subject reason = do
  bounded 1 320 subject
  bounded 2 255 reason
  ok (record { subject_type = subject_type; subject = subject; reason = reason })

-- `status` is always "ACTIVE"
pub record SuppressionResponse : Type 0 where
  pub id : String
  pub subject_type : String
  pub created_at : ℕ

pub data RequestType : Type 0 where
  access deletion rectification suppression : RequestType

abbrev pub request_type_text : RequestType → String
request_type_text access = "access"
request_type_text deletion = "deletion"
request_type_text rectification = "rectification"
request_type_text suppression = "suppression"

pub record DataSubjectRequestCreate : Type 0 where
  pub request_type : RequestType
  pub subject : String

pub data_subject_request_create : RequestType → String → Result DataSubjectRequestCreate
data_subject_request_create request_type subject = do
  bounded 1 320 subject
  ok (record { request_type = request_type; subject = subject })

pub record DataSubjectRequestResponse : Type 0 where
  pub id : String
  pub request_type : String
  pub status : String
  pub created_at : ℕ
  pub completed_at : Option ℕ

pub record JobResponse : Type 0 where
  pub id : String
  pub kind : String
  pub status : String
  pub attempts : ℕ
  pub created_at : ℕ
  pub updated_at : ℕ
  pub completed_at : Option ℕ
  pub last_error : Option String

-- `totals`
pub record Totals : Type 0 where
  pub requests : ℕ
  pub credits_used : ℕ
  pub leads_returned : ℕ

-- `period` is from "all" to the time that is kept here
pub record UsageSummaryResponse : Type 0 where
  pub request_id : String
  pub to : ℕ
  pub totals : Totals

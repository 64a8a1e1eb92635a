-- ===== src/Schemas/Accounts.antt =====
-- The requests and responses of app/schemas.py about accounts and API keys, with their validators:
-- each `…_request` builds the model from the decoded fields of a body, or refuses it.
use Prim.Native.Nat.{Ordering}
use Prim.Native.String.{count}
use Prim.Native.String
use lead_generation_api_zyla.Prelude.{
  ℕ, String, Bool, true, false, not, ◌||◌, ◌==◌, Option, List, [], ◌∷◌, map, keep, length, ltb,
}
use lead_generation_api_zyla.Prelude.Int.{ℤ}
use lead_generation_api_zyla.Prelude.Text.{strip, lower}
use lead_generation_api_zyla.Errors.{Raised, Result, ok, unexpected, raise_if, ◌>>◌}

-- what a validator raises; the route is not reached
abbrev pub validation_error : Raised
validation_error = unexpected "RequestValidationError"

-- `Field(min_length=low, max_length=high)` of a text
abbrev pub bounded : ℕ → ℕ → String → Result (Unit {0})
bounded low high s = raise_if (ltb (count s) low || ltb high (count s)) validation_error

pub record RegisterRequest : Type 0 where
  pub tenant_name : String
  pub email : String
  pub password : String

-- `normalize_email`
unfoldable pub normalize_email : String → String
normalize_email value = lower (strip value)

pub register_request : String → String → String → Result RegisterRequest
register_request tenant_name email password = do
  bounded 2 200 tenant_name
  bounded 3 320 email
  bounded 12 128 password
  ok (record { tenant_name = tenant_name; email = normalize_email email; password = password })

pub record LoginRequest : Type 0 where
  pub email : String
  pub password : String

pub login_request : String → String → Result LoginRequest
login_request email password = do
  bounded 3 320 email
  bounded 1 128 password
  ok (record { email = normalize_email email; password = password })

-- `token_type` is always "bearer"
pub record TokenResponse : Type 0 where
  pub access_token : String
  pub expires_in : ℕ

pub record UserResponse : Type 0 where
  pub id : String
  pub tenant_id : String
  pub email : String
  pub role : String

pub record TenantResponse : Type 0 where
  pub id : String
  pub name : String
  pub slug : String
  pub status : String
  pub credits_remaining : ℤ

pub record MeResponse : Type 0 where
  pub user : UserResponse
  pub tenant : TenantResponse

-- `Literal["test", "production"]`
pub data Environment : Type 0 where
  test production : Environment

pub record CreateApiKeyRequest : Type 0 where
  pub name : String
  pub environment : Environment
  pub scopes : List String

-- put a text into an ordered list, once
unfoldable pub insert_text : String → List String → List String
insert_text s [] = s ∷ []
insert_text s (x ∷ xs) =
    let rest = insert_text s xs in
    elim (String.compare s x) [
      | Ordering.lt ↦ s ∷ x ∷ xs
      | Ordering.eq ↦ x ∷ xs
      | Ordering.gt ↦ x ∷ rest
    ]

-- `sorted({…})`
unfoldable pub sorted_set : List String → List String
unfolding insert_text
sorted_set [] = []
sorted_set (s ∷ ss) = insert_text s (sorted_set ss)

-- `clean_scopes`
unfoldable pub clean_scopes : List String → List String
unfolding sorted_set
clean_scopes values = sorted_set (keep (λ s. not (s == "")) (map strip values))

abbrev pub is_empty : List String → Bool
is_empty [] = true
is_empty (s ∷ ss) = false

pub create_api_key_request : String → Environment → List String → Result CreateApiKeyRequest
create_api_key_request name environment scopes = do
  bounded 1 100 name
  raise_if (ltb (length scopes) 1 || ltb 20 (length scopes)) validation_error
  raise_if (is_empty (clean_scopes scopes)) validation_error
  ok (record { name = name; environment = environment; scopes = clean_scopes scopes })

pub record ApiKeyResponse : Type 0 where
  pub id : String
  pub name : String
  pub environment : String
  pub key_prefix : String
  pub scopes : List String
  pub status : String
  pub created_at : ℕ
  pub last_used_at : Option ℕ

-- `CreateApiKeyResponse`: the fields of `ApiKeyResponse`, and the secret
pub record CreateApiKeyResponse : Type 0 where
  pub key : ApiKeyResponse
  pub secret : String

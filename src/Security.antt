-- ===== src/Security.antt =====
-- app/security.py: who is calling, and with which scopes. The digests, the password hasher and the
-- token library are parameters; a token is decoded at a time, since it expires.
use Prim.Native.Char.{code}
use Prim.Native.String.{◌++◌ as str_append}
use lead_generation_api_zyla.Prelude.{
  ℕ, ◌+◌, ◌*◌, String, Bool, true, ◌&&◌, ◌||◌, ◌==◌, Option, none, some, List, [], ◌∷◌, find,
  update_where, if◌then◌else◌, ltb,
}
use lead_generation_api_zyla.Prelude.Text.{mem, lower, startswith, take_text}
use lead_generation_api_zyla.Errors.{Result, ok, err, authentication, authorization, unexpected}
use lead_generation_api_zyla.Exec.{Exec}
use lead_generation_api_zyla.Env.{Env}
use lead_generation_api_zyla.Json.{Json, str, Fields, get}
use lead_generation_api_zyla.Models.{User, ApiKey, Db}

-- the payload of an access token
pub record Claims : Type 0 where
  pub sub : String
  pub tenant_id : String
  pub role : String
  pub aud : String
  pub iat : ℕ
  pub exp : ℕ

-- what security.py takes from libraries and from the settings
pub record Library : Type 0 where
  -- `hashlib.sha256(text.encode()).hexdigest()`
  pub sha256 : String → String
  -- `password_hasher.hash`, with the salt that it draws
  pub hash : String → String → String
  -- whether `password_hasher.verify(password_hash, password)` returns
  pub verify : String → String → Bool
  -- `jwt.encode(claims, secret, algorithm=algorithm)`
  pub encode : Claims → String → String → String
  -- `jwt.decode(token, secret, algorithms=algorithms, audience=audience)` at a time, with nothing for a
  -- `PyJWTError`
  pub decode : ℕ → String → String → List String → String → Option Fields
  -- `settings.jwt_secret` and `settings.jwt_algorithm`
  pub jwt_secret : String
  pub jwt_algorithm : String
  -- `settings.access_token_minutes`, which `Settings.validate` makes positive
  pub access_token_minutes : ℕ

pub record AuthContext : Type 0 where
  pub tenant_id : String
  pub actor_id : Option String
  pub role : String
  pub scopes : List String
  pub api_key_id : Option String

-- `_require_scope`
abbrev pub require_scope : AuthContext → String → Result (Unit {0})
require_scope context scope = elim context.api_key_id [
  | none ↦ ok tt
  | some key ↦
      if mem scope context.scopes
      then ok tt
      else err (authorization (str_append "missing required scope: " scope))
]

-- `HTTPAuthorizationCredentials`
pub record Credentials : Type 0 where
  pub scheme : String
  pub token : String

-- ticks of the clock in a minute
abbrev pub minute : ℕ
minute = 60000000

unfoldable pub is_ascii : String → Bool
is_ascii String.[] = true
is_ascii (String.◌∷◌ c s) = ltb (code c) 128 && is_ascii s

-- `constant_time_equal`: `hmac.compare_digest` refuses texts that are not ASCII
abbrev pub constant_time_equal : String → String → Result Bool
constant_time_equal left right =
    if is_ascii left && is_ascii right then ok (left == right) else err (unexpected "TypeError")

abbrev pub key_prefix_of : String → String
key_prefix_of environment = if environment == "production" then "lg_live_" else "lg_test_"

-- `ApiKey.secret_hash == digest, ApiKey.status == "ACTIVE"`
abbrev pub is_active_key : String → ApiKey → Bool
is_active_key digest k = (k.secret_hash == digest) && (k.status == "ACTIVE")

abbrev pub key_context : ApiKey → AuthContext
key_context k = record {
  tenant_id = k.tenant_id;
  actor_id = none;
  role = "API_CLIENT";
  scopes = k.scopes;
  api_key_id = some k.id;
}

abbrev pub user_context : User → AuthContext
user_context user = record {
  tenant_id = user.tenant_id;
  actor_id = some user.id;
  role = user.role;
  scopes = "*" ∷ [];
  api_key_id = none;
}

module _ (env : Env) (lib : Library) where
  -- `verify_password`
  abbrev pub verify_password : String → String → Bool
  verify_password password password_hash = lib.verify password_hash password

  unfoldable pub claims_of : User → Claims
  claims_of user = record {
    sub = user.id;
    tenant_id = user.tenant_id;
    role = user.role;
    aud = "lead-generation-api";
    iat = env.now;
    exp = env.now + lib.access_token_minutes * minute;
  }

  -- `create_access_token`: the token, and the seconds that it is valid
  unfoldable pub create_access_token : User → String × ℕ
  unfolding claims_of
  create_access_token user =
      (lib.encode (claims_of user) lib.jwt_secret lib.jwt_algorithm, lib.access_token_minutes * 60)

  -- `_digest_api_key`
  unfoldable pub digest_api_key : String → String
  digest_api_key secret = lib.sha256 (str_append env.api_key_pepper (str_append ":" secret))

  -- `create_api_key`, for the secret that is drawn: the raw key, its visible prefix and its digest
  unfoldable pub create_api_key : String → String → String × String × String
  create_api_key secret environment =
      let prefix = key_prefix_of environment in
      let raw_key = str_append prefix secret in
      (raw_key, str_append prefix (take_text 8 secret), digest_api_key raw_key)

  -- `key.last_used_at = now`
  abbrev pub touch : ApiKey → ApiKey
  touch k = record k { last_used_at = some env.now }

  abbrev pub with_key : Option ApiKey → Exec Db AuthContext
  with_key none db = (err (authentication "invalid API key"), db)
  with_key (some k) db = (
    ok (key_context k),
    record db { api_keys = update_where (λ x. x.id == k.id) touch db.api_keys },
  )

  abbrev pub with_user : Option User → Result AuthContext
  with_user none = err (authentication "user not found")
  with_user (some user) = ok (user_context user)

  -- `payload.get("sub")` and `payload.get("tenant_id")`, which both have to be texts
  abbrev pub with_claims : Json → Json → Db → Result AuthContext
  with_claims (str user_id) (str tenant_id) db =
      with_user (find (λ u. (u.id == user_id) && (u.tenant_id == tenant_id)) db.users)
  with_claims _ _ db = err (authentication "invalid access token claims")

  abbrev pub with_payload : Option Fields → Db → Result AuthContext
  with_payload none db = err (authentication "invalid or expired access token")
  with_payload (some payload) db = with_claims (get payload "sub") (get payload "tenant_id") db

  -- the two kinds of bearer token
  abbrev pub with_token : String → Exec Db AuthContext
  with_token token db =
      if startswith token "lg_test_" || startswith token "lg_live_"
      then with_key (find (is_active_key (digest_api_key token)) db.api_keys) db
      else (
        with_payload
            (lib.decode env.now token lib.jwt_secret (lib.jwt_algorithm ∷ []) "lead-generation-api")
            db,
        db,
      )

  -- `get_auth_context`
  unfoldable pub get_auth_context : Option Credentials → Exec Db AuthContext
  get_auth_context none db = (err (authentication "authentication required"), db)
  get_auth_context (some credentials) db =
      if lower credentials.scheme == "bearer"
      then with_token credentials.token db
      else (err (authentication "authentication required"), db)

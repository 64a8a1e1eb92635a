-- ===== src/Accounts.antt =====
-- The routes of app/main.py for accounts and API keys. `salt` and `secret` are what the libraries
-- draw; a request that raises is rolled back when its session is closed.
pub mod Tokens
pub mod Keys
pub mod Revocation
pub mod Books
pub mod Frames
pub mod Tests
use Prim.Native.String.{◌++◌ as str_append}
use lead_generation_api_zyla.Prelude.{
  ℕ, ◌+◌, String, Bool, true, false, not, ◌&&◌, ◌||◌, ◌==◌, Option, none, some, List, [], ◌∷◌, ◌++◌,
  map, find, any, keep, update_where, newest_first, if◌then◌else◌,
}
use lead_generation_api_zyla.Prelude.Int.{ℤ, pos, eqb_ℤ}
use lead_generation_api_zyla.Prelude.Text.{lower, split_at, join, is_word, take_text}
use lead_generation_api_zyla.Errors.{Raised, Result, ok, err, app_error, ◌>>=◌, ◌>>◌}
use lead_generation_api_zyla.Exec.{Exec}
use lead_generation_api_zyla.Env.{Env}
use lead_generation_api_zyla.Models.{
  Tenant, User, ApiKey, CreditLedger, Db, ledger_taken, integrity_error, transaction,
}
use lead_generation_api_zyla.Settings.{Settings}
use lead_generation_api_zyla.Schemas.Accounts.{
  RegisterRequest, LoginRequest, TokenResponse, UserResponse, TenantResponse, MeResponse,
  Environment, test, production, CreateApiKeyRequest, ApiKeyResponse, CreateApiKeyResponse,
}
use lead_generation_api_zyla.Security.{
  Library, AuthContext, require_scope, create_access_token, create_api_key, verify_password,
}

-- the tables after `n` more uuids have been drawn
abbrev pub drew : ℕ → Db → Db
drew n db = record db { catalog = record (db.catalog) { drawn = db.catalog.drawn + n } }

-- `re.sub(r"[^a-z0-9]+", "-", name.lower()).strip("-") or "tenant"`: the words, joined by dashes
unfoldable pub slug_of : String → String
slug_of name =
    let slug =
      join "-" (keep (λ w. not (w == "")) (split_at (λ c. not (is_word c)) (lower name))) in
    if slug == "" then "tenant" else slug

abbrev pub slug_taken : String → List Tenant → Bool
slug_taken slug = any (λ t. t.slug == slug)

-- the slug of a new tenant, where `suffix` is `uuid4().hex[:8]`
unfoldable pub free_slug : String → String → List Tenant → String
unfolding slug_of
free_slug name suffix tenants =
    let slug = slug_of name in
    if slug_taken slug tenants then str_append slug (str_append "-" suffix) else slug

-- `settings.free_trial_credits or settings.default_credits`
abbrev pub registration_credits : Settings → ℤ
registration_credits s =
    if eqb_ℤ s.free_trial_credits (pos 0) then s.default_credits else s.free_trial_credits

abbrev pub environment_text : Environment → String
environment_text test = "test"
environment_text production = "production"

abbrev pub key_response : ApiKey → ApiKeyResponse
key_response k = record {
  id = k.id;
  name = k.name;
  environment = k.environment;
  key_prefix = k.key_prefix;
  scopes = k.scopes;
  status = k.status;
  created_at = k.created_at;
  last_used_at = k.last_used_at;
}

-- the commit, with `unique=True` of `secret_hash`
abbrev pub store_key : ApiKey → String → Exec Db CreateApiKeyResponse
store_key k raw_key db =
    if any (λ x. x.secret_hash == k.secret_hash) db.api_keys
    then (integrity_error, drew 1 db)
    else (
      ok (record { key = key_response k; secret = raw_key }),
      record (drew 1 db) { api_keys = db.api_keys ++ k ∷ [] },
    )

abbrev pub after_scope : {A : Type 0} → Result (Unit {0}) → Exec Db A → Exec Db A
after_scope (err e) rest db = (err e, db)
after_scope (ok _) rest db = rest db

-- `key.status = "REVOKED"`
abbrev pub revoke : ApiKey → ApiKey
revoke k = record k { status = "REVOKED" }

abbrev pub is_own_key : String → AuthContext → ApiKey → Bool
is_own_key key_id context k = (k.id == key_id) && (k.tenant_id == context.tenant_id)

abbrev pub revoke_found : Option ApiKey → Exec Db (Unit {0})
revoke_found none db = (err (app_error "NOT_FOUND" "API key was not found." 404), db)
revoke_found (some k) db =
    (ok tt, record db { api_keys = update_where (λ x. x.id == k.id) revoke db.api_keys })

-- `list_keys`
unfoldable pub list_keys : AuthContext → Db → Result (List ApiKeyResponse)
list_keys context db = do
  require_scope context "keys:read"
  ok (
      map key_response (
        newest_first (λ k. k.created_at)
          (keep (λ k. k.tenant_id == context.tenant_id) db.api_keys)))

-- `revoke_key`
pub revoke_key : String → AuthContext → Exec Db (Unit {0})
revoke_key key_id context =
    after_scope (require_scope context "keys:write")
      (λ db. revoke_found (find (is_own_key key_id context) db.api_keys) db)

module _ (env : Env) (lib : Library) where
  abbrev pub token_response : User → TokenResponse
  token_response user =
      let (token, seconds) = create_access_token env lib user in
      record { access_token = token; expires_in = seconds }

  module _ (settings : Settings) (salt suffix : String) (payload : RegisterRequest) where
    -- the ids of the new rows
    abbrev pub tenant_id_of : Db → String
    tenant_id_of db = env.uuid db.catalog.drawn

    abbrev pub new_tenant : Db → Tenant
    new_tenant db = record {
      id = tenant_id_of db;
      name = payload.tenant_name;
      slug = free_slug payload.tenant_name suffix db.tenants;
      status = "ACTIVE";
      credits_balance = registration_credits settings;
    }

    abbrev pub new_user : Db → User
    new_user db = record {
      id = env.uuid (db.catalog.drawn + 1);
      tenant_id = tenant_id_of db;
      email = payload.email;
      password_hash = lib.hash salt payload.password;
      role = "TENANT_ADMIN";
    }

    abbrev pub grant_row : Db → CreditLedger
    grant_row db = record {
      tenant_id = tenant_id_of db;
      amount = registration_credits settings;
      reason =
          if eqb_ℤ settings.free_trial_credits (pos 0)
          then "registration_grant"
          else "registration_free_trial";
      reference_id = str_append "registration:" (tenant_id_of db);
      metadata_json = ("email", payload.email) ∷ [];
    }

    abbrev registered : Db → Db
    registered db = record (drew 2 db) {
      tenants = db.tenants ++ new_tenant db ∷ [];
      users = db.users ++ new_user db ∷ [];
      credit_ledger = db.credit_ledger ++ grant_row db ∷ [];
    }

    -- the flush and the commit, with their unique constraints
    abbrev pub store_account : Exec Db TokenResponse
    store_account db =
        if slug_taken (new_tenant db).slug db.tenants
          || ledger_taken (grant_row db) db.credit_ledger
        then (integrity_error, drew 2 db)
        else (ok (token_response (new_user db)), registered db)

    -- `register`
    pub register : Exec Db TokenResponse
    register = transaction store_account

  abbrev unauthorized : Raised
  unauthorized = app_error "UNAUTHORIZED" "Invalid email or password." 401

  abbrev pub log_in : LoginRequest → Option User → Result TokenResponse
  log_in payload none = err unauthorized
  log_in payload (some user) =
      if verify_password env lib payload.password user.password_hash
      then ok (token_response user)
      else err unauthorized

  -- `login`
  pub login : LoginRequest → Db → Result TokenResponse
  login payload db = log_in payload (find (λ u. u.email == payload.email) db.users)

  abbrev pub actor : AuthContext → List User → Option User
  actor context users = elim context.actor_id [
    | none ↦ none
    | some id ↦
        if id == ""
        then none
        else find (λ u. (u.id == id) && (u.tenant_id == context.tenant_id)) users
  ]

  abbrev pub user_response : AuthContext → Tenant → Option User → UserResponse
  user_response context t none = record {
    id = "api-client";
    tenant_id = t.id;
    email = "";
    role = context.role;
  }
  user_response context t (some u) = record {
    id = u.id;
    tenant_id = u.tenant_id;
    email = u.email;
    role = u.role;
  }

  abbrev pub profile : AuthContext → List User → Option Tenant → Result MeResponse
  profile context users none = err (app_error "TENANT_NOT_FOUND" "Tenant was not found." 404)
  profile context users (some t) = ok (record {
    user = user_response context t (actor context users);
    tenant = record {
      id = t.id;
      name = t.name;
      slug = t.slug;
      status = t.status;
      credits_remaining = t.credits_balance;
    };
  })

  -- `me`
  unfoldable pub me : AuthContext → Db → Result MeResponse
  me context db = profile context db.users (find (λ t. t.id == context.tenant_id) db.tenants)

  abbrev pub new_key : String → AuthContext → CreateApiKeyRequest → String → ApiKey
  new_key secret context payload id =
      let (raw_key, visible_prefix, digest) =
        create_api_key env lib secret (environment_text payload.environment) in
      record {
        id = id;
        tenant_id = context.tenant_id;
        name = payload.name;
        environment = environment_text payload.environment;
        key_prefix = visible_prefix;
        secret_hash = digest;
        scopes = payload.scopes;
        status = "ACTIVE";
        created_at = env.now;
        last_used_at = none;
      }

  -- `create_key`
  pub create_key : String → AuthContext → CreateApiKeyRequest → Exec Db CreateApiKeyResponse
  create_key secret context payload = after_scope (require_scope context "keys:write") (λ db.
      store_key (new_key secret context payload (env.uuid db.catalog.drawn))
        (create_api_key env lib secret (environment_text payload.environment)).0 db)

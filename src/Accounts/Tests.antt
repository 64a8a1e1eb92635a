-- ===== src/Accounts/Tests.antt =====
-- Concrete runs of the account and key routes, with the token library of Accounts/Frames.
use lead_generation_api_zyla.Prelude.{
  String, true, ◌&&◌, ◌||◌, ◌==◌, ◌≡◌, refl, find, none, some, [], ◌∷◌, arith, eq_iff,
}
use lead_generation_api_zyla.Prelude.Text.{
  startswith, drop_prefix, lower, split_at, join, take_text,
}
use lead_generation_api_zyla.Errors.{Result, ok, err, authentication}
use lead_generation_api_zyla.Models.{User, ApiKey, Db, ledger_taken, transaction}
use lead_generation_api_zyla.Ledger.{IsReconciled}
use lead_generation_api_zyla.Settings.Tests.{production as production_settings}
use lead_generation_api_zyla.Schemas.Accounts.{
  RegisterRequest, LoginRequest, TokenResponse, CreateApiKeyRequest, CreateApiKeyResponse,
  production,
}
use lead_generation_api_zyla.Security.{
  Library, digest_api_key, create_api_key, user_context, get_auth_context,
}
use lead_generation_api_zyla.Accounts.{
  register, login, create_key, revoke_key, new_user, new_key, token_response, key_response,
  free_slug, slug_of,
}
use lead_generation_api_zyla.Accounts.Books.{register-IsReconciled}
use lead_generation_api_zyla.Accounts.Tokens.{registered_token, login_token}
use lead_generation_api_zyla.Accounts.Frames.{frame_lib, frame_lib-DecodesTokens}
use lead_generation_api_zyla.Accounts.Keys.{created_key_authenticates}
use lead_generation_api_zyla.Accounts.Revocation.{
  HasUniqueHashes, revoked_key_fails, keys-HasUniqueHashes,
}
use lead_generation_api_zyla.Search.Tests.{demo_env, demo_db, demo-IsReconciled}

-- it decodes what it encodes, with the same secret, algorithm and audience
abbrev pub demo_lib : Library
demo_lib = frame_lib

abbrev registration : RegisterRequest
registration = record {
  tenant_name = "Acme GmbH";
  email = "a@acme.example";
  password = "long-password";
}

abbrev registered : Db
registered =
    (register demo_env demo_lib production_settings "salt" "1234abcd" registration demo_db).1

abbrev user : User
user = new_user demo_env demo_lib production_settings "salt" "1234abcd" registration demo_db

register-IsReconciled_example : IsReconciled registered
register-IsReconciled_example =
    register-IsReconciled demo_env demo_lib production_settings "salt" "1234abcd" registration
      demo_db ((λ e. ground (arith, eq_iff "t1" "u")), tt)
      ((λ e. ground (arith, eq_iff "u" "t1")), tt) demo-IsReconciled

register_run :
    register demo_env demo_lib production_settings "salt" "1234abcd" registration demo_db
    ≡ (ok (token_response demo_env demo_lib user), registered)
unfolding register transaction ledger_taken free_slug slug_of lower split_at join
register_run = refl

abbrev answer : TokenResponse
answer = token_response demo_env demo_lib user

registered_token_example :
    get_auth_context
      (record demo_env { now = 2500000 })
      demo_lib
      (some (record { scheme = "Bearer"; token = answer.access_token }))
      registered
    ≡ (ok (user_context user), registered)
registered_token_example =
    registered_token demo_env demo_lib production_settings "salt" "1234abcd" registration demo_db
      registered answer 2500000 tt register_run (frame_lib-DecodesTokens _ _) (omega arith)
      (omega arith)

abbrev credentials : LoginRequest
credentials = record { email = "a@acme.example"; password = "long-password" }

login_run : login demo_env demo_lib credentials registered ≡ ok answer
unfolding login register transaction ledger_taken free_slug slug_of lower split_at join
login_run = refl

found_by_email : find (λ u. u.email == credentials.email) registered.users ≡ some user
unfolding register transaction ledger_taken free_slug slug_of lower split_at join
found_by_email = refl

found_by_id :
    find (λ u. (u.id == user.id) && (u.tenant_id == user.tenant_id)) registered.users ≡ some user
unfolding register transaction ledger_taken free_slug slug_of lower split_at join
found_by_id = refl

login_token_example :
    (demo_lib.verify user.password_hash credentials.password ≡ true)
    × (get_auth_context
          (record demo_env { now = 2500000 })
          demo_lib
          (some (record { scheme = "Bearer"; token = answer.access_token }))
          registered
        ≡ (ok (user_context user), registered))
login_token_example =
    login_token demo_env demo_lib credentials registered answer 2500000 user found_by_email
      found_by_id login_run (frame_lib-DecodesTokens _ _) (omega arith) (omega arith)

abbrev key_request : CreateApiKeyRequest
key_request = record { name = "ci"; environment = production; scopes = "leads:search" ∷ [] }

abbrev created : Result CreateApiKeyResponse × Db
created = create_key demo_env demo_lib "secret-secret" (user_context user) key_request registered

abbrev key : ApiKey
key =
    new_key demo_env demo_lib "secret-secret" (user_context user) key_request
      (demo_env.uuid registered.catalog.drawn)

abbrev raw_key : String
raw_key = "lg_live_secret-secret"

abbrev key_answer : CreateApiKeyResponse
key_answer = record { key = key_response key; secret = raw_key }

create_run : created ≡ (ok key_answer, created.1)
unfolding create_key create_api_key digest_api_key register transaction ledger_taken free_slug
    slug_of lower split_at join take_text
create_run = refl

created_key_authenticates_example :
    (get_auth_context
      (record demo_env { now = 5000 })
      demo_lib
      (some (record { scheme = "Bearer"; token = raw_key }))
      created.1).0
    ≡ ok (record {
      tenant_id = "u";
      actor_id = none;
      role = "API_CLIENT";
      scopes = "leads:search" ∷ [];
      api_key_id = some key.id;
    })
created_key_authenticates_example =
    created_key_authenticates demo_env demo_lib "secret-secret" (user_context user) key_request
      registered key_answer created.1 5000 create_run

abbrev revoked : Db
revoked = (revoke_key key.id (user_context user) created.1).1

key_found : find (λ k. (k.id == key.id) && (k.tenant_id == "u")) created.1.api_keys ≡ some key
unfolding create_key create_api_key digest_api_key register transaction ledger_taken free_slug
    slug_of lower split_at join take_text
key_found = refl

revoke_run : revoke_key key.id (user_context user) created.1 ≡ (ok tt, revoked)
unfolding revoke_key create_key create_api_key digest_api_key register transaction ledger_taken
    free_slug slug_of lower split_at join take_text
revoke_run = refl

one_key : HasUniqueHashes created.1.api_keys
unfolding create_key create_api_key digest_api_key register transaction ledger_taken free_slug
    slug_of lower split_at join take_text
one_key = (tt, tt)

same_digest : digest_api_key demo_env demo_lib raw_key ≡ key.secret_hash
unfolding create_api_key digest_api_key
same_digest = refl

raw_key_is_raw : (startswith raw_key "lg_test_" || startswith raw_key "lg_live_") ≡ true
unfolding startswith drop_prefix
raw_key_is_raw = refl

revoked_key_fails_example :
    get_auth_context
      (record demo_env { now = 6000 })
      demo_lib
      (some (record { scheme = "Bearer"; token = raw_key }))
      revoked
    ≡ (err (authentication "invalid API key"), revoked)
revoked_key_fails_example =
    revoked_key_fails demo_env demo_lib key.id raw_key (user_context user) created.1 revoked key
      6000 one_key key_found same_digest raw_key_is_raw revoke_run

keys-HasUniqueHashes_example :
    HasUniqueHashes (get_auth_context demo_env demo_lib none created.1).1.api_keys
    × HasUniqueHashes
        (create_key demo_env demo_lib "other" (user_context user) key_request created.1).1.api_keys
    × HasUniqueHashes (revoke_key key.id (user_context user) created.1).1.api_keys
keys-HasUniqueHashes_example =
    keys-HasUniqueHashes demo_env demo_lib none "other" key.id (user_context user) key_request
      created.1 one_key

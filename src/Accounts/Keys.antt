-- ===== src/Accounts/Keys.antt =====
-- About `create_key`, `revoke_key` and `get_auth_context`: which keys authenticate.
use Prim.Native.String.{◌++◌ as str_append}
use lead_generation_api_zyla.Prelude.{
  ℕ, String, true, false, ◌||◌, ◌==◌, ◌≡◌, refl, none, some, List, [], ◌∷◌, ◌++◌, any, find,
  find-append, arith, eq_iff, Bool-cases, inl, inr,
}
use lead_generation_api_zyla.Prelude.Text.{startswith, lower, startswith-append}
use lead_generation_api_zyla.Errors.{Result, ok, err}
use lead_generation_api_zyla.Env.{Env}
use lead_generation_api_zyla.Models.{ApiKey, Db}
use lead_generation_api_zyla.Schemas.Accounts.{CreateApiKeyRequest, CreateApiKeyResponse}
use lead_generation_api_zyla.Security.{
  Library, AuthContext, digest_api_key, create_api_key, key_prefix_of, is_active_key, with_key,
  get_auth_context, require_scope,
}
use lead_generation_api_zyla.Accounts.{
  environment_text, new_key, key_response, store_key, after_scope, create_key,
}

-- a raw key is told from an access token by its prefix
pub is_raw_key :
    (environment secret : String)
    → (startswith (str_append (key_prefix_of environment) secret) "lg_test_"
        || startswith (str_append (key_prefix_of environment) secret) "lg_live_")
      ≡ true
is_raw_key environment secret = elim (Bool-cases (environment == "production")) [
  | inl e ↦ rw e (ground (arith, startswith-append secret "lg_live_"))
  | inr e ↦ rw e (ground (arith, startswith-append secret "lg_test_"))
]

-- a digest that no row has, active or not
none_taken :
    (digest : String) (keys : List ApiKey)
    → any (λ x. x.secret_hash == digest) keys ≡ false
    → find (is_active_key digest) keys ≡ none
none_taken digest [] h = refl
none_taken digest (x ∷ keys) h = ground (arith, none_taken digest keys)

module _ (env : Env) (lib : Library) where
  -- a request with a key: whether it is known
  pub with_raw_key :
      (later : ℕ) (token : String) (db : Db)
      → (startswith token "lg_test_" || startswith token "lg_live_") ≡ true
      → get_auth_context
          (record env { now = later })
          lib
          (some (record { scheme = "Bearer"; token = token }))
          db
        ≡ with_key
            (record env { now = later })
            lib
            (find (is_active_key (digest_api_key env lib token)) db.api_keys)
            db
  unfolding get_auth_context lower digest_api_key
  with_raw_key later token db h = rw h refl

  -- what a creation that returns has stored
  pub record Created (k : ApiKey) (raw_key : String) (db : Db) (r : CreateApiKeyResponse) (db' : Db)
      : Type 0 where
    pub is_new : any (λ x. x.secret_hash == k.secret_hash) db.api_keys ≡ false
    pub answered : r ≡ record { key = key_response k; secret = raw_key }
    pub stored : db'.api_keys ≡ db.api_keys ++ k ∷ []

  store_key-Created :
      (k : ApiKey) (raw_key : String) (db : Db) (r : CreateApiKeyResponse) (db' : Db)
      → store_key k raw_key db ≡ (ok r, db')
      → Created k raw_key db r db'
  store_key-Created k raw_key db r db' h =
      elim (Bool-cases (any (λ x. x.secret_hash == k.secret_hash) db.api_keys)) [
        | inl e ↦ ground arith
        | inr e ↦ record { is_new = e; answered = ground arith; stored = ground arith }
      ]

  abbrev pub raw_key_of : String → CreateApiKeyRequest → String
  raw_key_of secret payload =
      (create_api_key env lib secret (environment_text payload.environment)).0

  pub create_key-Created :
      (secret : String) (context : AuthContext) (payload : CreateApiKeyRequest) (db : Db)
      (r : CreateApiKeyResponse) (db' : Db)
      → create_key env lib secret context payload db ≡ (ok r, db')
      → Created
          (new_key env lib secret context payload (env.uuid db.catalog.drawn))
          (raw_key_of secret payload)
          db
          r
          db'
  unfolding create_key
  create_key-Created secret context payload db r db' h = go (require_scope context "keys:write") h
    where
      go :
          (q : Result (Unit {0}))
          → after_scope q
              (λ d.
                store_key
                  (new_key env lib secret context payload (env.uuid d.catalog.drawn))
                  (raw_key_of secret payload)
                  d)
              db
            ≡ (ok r, db')
          → Created
              (new_key env lib secret context payload (env.uuid db.catalog.drawn))
              (raw_key_of secret payload)
              db
              r
              db'
      go (ok _) e = store_key-Created _ _ db r db' e
      go (err x) e = cc

  -- A secret that `create_key` returned authenticates: at any later time a request with it as its
  -- bearer token acts for the tenant that created the key, with the scopes that were asked for, under
  -- the id that was returned.
  pub created_key_authenticates :
      (secret : String) (context : AuthContext) (payload : CreateApiKeyRequest) (db : Db)
      (r : CreateApiKeyResponse) (db' : Db) (later : ℕ)
      → create_key env lib secret context payload db ≡ (ok r, db')
      → (get_auth_context
          (record env { now = later })
          lib
          (some (record { scheme = "Bearer"; token = r.secret }))
          db').0
        ≡ ok (record {
          tenant_id = context.tenant_id;
          actor_id = none;
          role = "API_CLIENT";
          scopes = payload.scopes;
          api_key_id = some r.key.id;
        })
  unfolding create_api_key
  created_key_authenticates secret context payload db r db' later h =
      let c = create_key-Created secret context payload db r db' h in
      let k = new_key env lib secret context payload (env.uuid db.catalog.drawn) in
      let raw = str_append (key_prefix_of (environment_text payload.environment)) secret in
      let found : find (is_active_key (digest_api_key env lib raw)) db'.api_keys ≡ some k =
        rw c.stored (
          find-append (is_active_key (digest_api_key env lib raw)) db.api_keys k
            (none_taken (digest_api_key env lib raw) db.api_keys c.is_new)
            (ground (arith, eq_iff (digest_api_key env lib raw) (digest_api_key env lib raw)))) in
      rw
        (
          c.answered,
          with_raw_key later raw db' (is_raw_key (environment_text payload.environment) secret),
          found,
        )
        refl

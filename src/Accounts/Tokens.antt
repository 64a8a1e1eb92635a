-- ===== src/Accounts/Tokens.antt =====
-- About `register`, `login` and `get_auth_context`: whom an access token stands for.
use lead_generation_api_zyla.Prelude.{
  ℕ, ◌+◌, ◌*◌, ◌/◌, ◌≤◌, ◌<◌, String, true, false, ◌&&◌, ◌||◌, ◌==◌, ◌≡◌, ◌≢◌, refl, ap, subst,
  none, some, List, [], ◌∷◌, ◌++◌, All, find, find-append, arith, eq_iff,
}
use lead_generation_api_zyla.Prelude.Text.{startswith, lower}
use lead_generation_api_zyla.Errors.{ok}
use lead_generation_api_zyla.Env.{Env}
use lead_generation_api_zyla.Idempotency.{second}
use lead_generation_api_zyla.Json.{Fields, str, get}
use lead_generation_api_zyla.Models.{User, Db, ledger_taken, transaction-eq-ok, unless-eq-ok}
use lead_generation_api_zyla.Settings.{Settings}
use lead_generation_api_zyla.Schemas.Accounts.{RegisterRequest, LoginRequest, TokenResponse}
use lead_generation_api_zyla.Security.{
  Claims, Library, minute, claims_of, create_access_token, user_context, get_auth_context,
}
use lead_generation_api_zyla.Accounts.{
  token_response, new_user, new_tenant, grant_row, slug_taken, store_account, register, log_in,
  login,
}

-- What the code relies on of the token library, for a secret and an algorithm that fit each other: a
-- token decodes, with the secret, algorithm and audience of its encoding, to a payload with its claims, if
-- it was not issued in the future and has not expired; its times are cut to whole seconds. And no token
-- looks like an API key.
pub record DecodesTokens (lib : Library) (secret algorithm : String) : Type 0 where
  pub decodes :
      (c : Claims) (now : ℕ)
      → c.iat ≤ now
      → now < c.exp / second * second
      → (payload : Fields) × (lib.decode now
            (lib.encode c secret algorithm)
            secret
            (algorithm ∷ [])
            c.aud
          ≡ some payload)
        × (get payload "sub" ≡ str c.sub)
        × (get payload "tenant_id" ≡ str c.tenant_id)
  pub not_raw_key :
      (c : Claims)
      → (startswith (lib.encode c secret algorithm) "lg_test_"
          || startswith (lib.encode c secret algorithm) "lg_live_")
        ≡ false

no_user :
    (id tenant_id : String) (users : List User)
    → All (λ u. id ≢ u.id) users
    → find (λ u. (u.id == id) && (u.tenant_id == tenant_id)) users ≡ none
no_user id tenant_id [] h = refl
no_user id tenant_id (u ∷ users) (n, h) =
    ground (arith, eq_iff u.id id, no_user id tenant_id users h)

module _ (env : Env) (lib : Library) where
  -- a request with the token of a user who is found
  token-context :
      (user : User) (later : ℕ) (db : Db)
      → find (λ u. (u.id == user.id) && (u.tenant_id == user.tenant_id)) db.users ≡ some user
      → env.now ≤ later
      → later < (env.now + lib.access_token_minutes * minute) / second * second
      → DecodesTokens lib lib.jwt_secret lib.jwt_algorithm
      → get_auth_context
          (record env { now = later })
          lib
          (some (record { scheme = "Bearer"; token = (token_response env lib user).access_token }))
          db
        ≡ (ok (user_context user), db)
  unfolding get_auth_context create_access_token claims_of lower
  token-context user later db found issued fresh law =
      let (payload, decoded, sub, tenant) =
        law.decodes (claims_of env lib user) later issued fresh in
      rw (law.not_raw_key (claims_of env lib user), decoded, sub, tenant, found) refl

  module _ (settings : Settings) (salt suffix : String) (payload : RegisterRequest) where
    -- what a registration that returns has stored
    record Opened (db : Db) (r : TokenResponse) (db' : Db) : Type 0 where
      answered : r ≡ token_response env lib (new_user env lib settings salt suffix payload db)
      users : db'.users ≡ db.users ++ new_user env lib settings salt suffix payload db ∷ []

    store_account-Opened :
        (db : Db) (r : TokenResponse) (db' : Db)
        → store_account env lib settings salt suffix payload db ≡ (ok r, db')
        → Opened db r db'
    store_account-Opened db r db' h =
        let refused =
          slug_taken (new_tenant env lib settings salt suffix payload db).slug db.tenants
          || ledger_taken (grant_row env lib settings salt suffix payload db) db.credit_ledger in
        let (_, answered, stored) = unless-eq-ok refused _ _ h in
        record { answered = answered; users = ap (λ s. s.users) stored }

    -- A registration's token authenticates: if the uuid drawn for the user is no user's yet, then from its
    -- issue to the whole second in which it expires a request with it acts for the new user and the new
    -- tenant.
    pub registered_token :
        (db db' : Db) (r : TokenResponse) (later : ℕ)
        → All (λ u. env.uuid (db.catalog.drawn + 1) ≢ u.id) db.users
        → register env lib settings salt suffix payload db ≡ (ok r, db')
        → DecodesTokens lib lib.jwt_secret lib.jwt_algorithm
        → env.now ≤ later
        → later < (env.now + lib.access_token_minutes * minute) / second * second
        → get_auth_context
            (record env { now = later })
            lib
            (some (record { scheme = "Bearer"; token = r.access_token }))
            db'
          ≡ (ok (user_context (new_user env lib settings salt suffix payload db)), db')
    unfolding register
    registered_token db db' r later apart h law issued fresh =
        let user = new_user env lib settings salt suffix payload db in
        let o = store_account-Opened db r db' (transaction-eq-ok _ db r db' h) in
        let found : find (λ u. (u.id == user.id) && (u.tenant_id == user.tenant_id)) db'.users
            ≡ some user =
          rw o.users (
            find-append (λ u. (u.id == user.id) && (u.tenant_id == user.tenant_id)) db.users user
              (no_user user.id user.tenant_id db.users apart)
              (ground (arith, eq_iff user.id user.id, eq_iff user.tenant_id user.tenant_id))) in
        rw o.answered (token-context user later db' found issued fresh law)

  -- A login that returns gave the password of the first user of its email address, and from the issue
  -- of its token to the whole second in which it expires a request with it acts for that user, if the
  -- user is found by id and tenant, and changes no table.
  pub login_token :
      (payload : LoginRequest) (db : Db) (r : TokenResponse) (later : ℕ) (user : User)
      → find (λ u. u.email == payload.email) db.users ≡ some user
      → find (λ u. (u.id == user.id) && (u.tenant_id == user.tenant_id)) db.users ≡ some user
      → login env lib payload db ≡ ok r
      → DecodesTokens lib lib.jwt_secret lib.jwt_algorithm
      → env.now ≤ later
      → later < (env.now + lib.access_token_minutes * minute) / second * second
      → (lib.verify user.password_hash payload.password ≡ true)
        × (get_auth_context
              (record env { now = later })
              lib
              (some (record { scheme = "Bearer"; token = r.access_token }))
              db
            ≡ (ok (user_context user), db))
  unfolding login
  login_token payload db r later user first found h law issued fresh =
      let h' = subst (λ o. log_in env lib payload o ≡ ok r) first h in
      let verified : lib.verify user.password_hash payload.password ≡ true = ground arith in
      let answered : r ≡ token_response env lib user = ground arith in
      (verified, rw answered (token-context user later db found issued fresh law))

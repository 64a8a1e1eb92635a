-- ===== src/Accounts/Revocation.antt =====
-- About `revoke_key` and `get_auth_context` of app/main.py and app/security.py: keys after revocation.
use lead_generation_api_zyla.Prelude.{
  ℕ, String, Bool, true, false, ◌||◌, ◌==◌, ◌≡◌, ◌≢◌, refl, sym, ◌∙◌, subst, Option, none, some,
  List, [], ◌∷◌, ◌++◌, All, All-append, any, find, update_where, arith, eq_iff, Bool-cases, inl,
  inr,
}
use lead_generation_api_zyla.Prelude.Text.{startswith, lower}
use lead_generation_api_zyla.Errors.{Result, ok, err, authentication}
use lead_generation_api_zyla.Env.{Env}
use lead_generation_api_zyla.Models.{ApiKey, Db}
use lead_generation_api_zyla.Security.{
  Library, AuthContext, Credentials, with_token, create_api_key, digest_api_key, is_active_key,
  get_auth_context, require_scope, touch, with_key,
}
use lead_generation_api_zyla.Exec.{Exec}
use lead_generation_api_zyla.Schemas.Accounts.{CreateApiKeyRequest}
use lead_generation_api_zyla.Accounts.{
  create_key, new_key, store_key, environment_text, after_scope, revoke, is_own_key, revoke_found,
  revoke_key,
}
use lead_generation_api_zyla.Accounts.Keys.{with_raw_key}

-- `unique=True` of `secret_hash`: no two rows have one digest
abbrev pub HasUniqueHashes : List ApiKey → Type 0
HasUniqueHashes [] = Unit
HasUniqueHashes (k ∷ keys) = All (λ x. x.secret_hash ≢ k.secret_hash) keys × HasUniqueHashes keys

-- An update that keeps digests keeps them unique.
same_hashes :
    (p : ApiKey → Bool) (f : ApiKey → ApiKey) (h : String) (keys : List ApiKey)
    → ((k : ApiKey) → (f k).secret_hash ≡ k.secret_hash)
    → All (λ x. x.secret_hash ≢ h) keys
    → All (λ x. x.secret_hash ≢ h) (update_where p f keys)
same_hashes p f h [] same ne = tt
same_hashes p f h (k ∷ keys) same (n, ne) = elim (Bool-cases (p k)) [
  | inl e ↦ rw e ((λ q. n (sym (same k) ∙ q)), same_hashes p f h keys same ne)
  | inr e ↦ rw e (n, same_hashes p f h keys same ne)
]

pub update-HasUniqueHashes :
    (p : ApiKey → Bool) (f : ApiKey → ApiKey) (keys : List ApiKey)
    → ((k : ApiKey) → (f k).secret_hash ≡ k.secret_hash)
    → HasUniqueHashes keys
    → HasUniqueHashes (update_where p f keys)
update-HasUniqueHashes p f [] same h = tt
update-HasUniqueHashes p f (k ∷ keys) same (ne, h) = elim (Bool-cases (p k)) [
  | inl e ↦
      rw (e, same k)
        (same_hashes p f k.secret_hash keys same ne, update-HasUniqueHashes p f keys same h)
  | inr e ↦
      rw e (same_hashes p f k.secret_hash keys same ne, update-HasUniqueHashes p f keys same h)
]

-- A row that is found shares its digest with no row that has none of it.
find_ne :
    (p : ApiKey → Bool) (h : String) (keys : List ApiKey) (k : ApiKey)
    → All (λ x. x.secret_hash ≢ h) keys
    → find p keys ≡ some k
    → k.secret_hash ≢ h
find_ne p h [] k ne f = cc
find_ne p h (x ∷ keys) k (n, ne) f = elim (Bool-cases (p x)) [
  | inl e ↦ let same : x ≡ k = ground arith in subst (λ y. y.secret_hash ≢ h) same n
  | inr e ↦ find_ne p h keys k ne (ground arith)
]

-- no active key has a digest that no key has
none_active :
    (digest : String) (keys : List ApiKey)
    → All (λ x. x.secret_hash ≢ digest) keys
    → find (is_active_key digest) keys ≡ none
none_active digest [] h = refl
none_active digest (x ∷ keys) (n, h) =
    ground (arith, eq_iff x.secret_hash digest, none_active digest keys h)

-- After the revocation of a key no active key has its digest.
find_revoked :
    (p : ApiKey → Bool) (keys : List ApiKey) (k : ApiKey)
    → HasUniqueHashes keys
    → find p keys ≡ some k
    → find (is_active_key k.secret_hash) (update_where (λ x. x.id == k.id) revoke keys) ≡ none
find_revoked p [] k u f = cc
find_revoked p (x ∷ keys) k (ne, u) f = elim (Bool-cases (p x)) [
  | inl e ↦
      let same : x ≡ k = ground arith in
      let rest = none_active k.secret_hash (update_where (λ y. y.id == k.id) revoke keys) (
        same_hashes (λ y. y.id == k.id) revoke k.secret_hash keys (λ y. refl)
          (subst (λ y. All (λ z. z.secret_hash ≢ y.secret_hash) keys) same ne)) in
      let own : (x.id == k.id) ≡ true =
        subst (λ y. (x.id == y.id) ≡ true) same (ground (arith, eq_iff x.id x.id)) in
      rw own (ground (arith, rest))
  | inr e ↦
      let later : find p keys ≡ some k = ground arith in
      let apart = find_ne p x.secret_hash keys k ne later in
      let rest = find_revoked p keys k u later in
      elim (Bool-cases (x.id == k.id)) [
        | inl own ↦ rw own (ground (arith, rest))
        | inr other ↦ rw other (ground (arith, rest, eq_iff x.secret_hash k.secret_hash))
      ]
]

module _ (env : Env) (lib : Library) where
  -- A key that was revoked authenticates no more: where no two keys share a digest, a request with the
  -- key's secret, at any time after the revocation, is refused as an invalid API key and changes no
  -- table.
  pub revoked_key_fails :
      (key_id token : String) (context : AuthContext) (db db' : Db) (k : ApiKey) (later : ℕ)
      → HasUniqueHashes db.api_keys
      → find (is_own_key key_id context) db.api_keys ≡ some k
      → digest_api_key env lib token ≡ k.secret_hash
      → (startswith token "lg_test_" || startswith token "lg_live_") ≡ true
      → revoke_key key_id context db ≡ (ok tt, db')
      → get_auth_context
          (record env { now = later })
          lib
          (some (record { scheme = "Bearer"; token = token }))
          db'
        ≡ (err (authentication "invalid API key"), db')
  unfolding revoke_key
  revoked_key_fails key_id token context db db' k later unique found digest raw h =
      let gone = find_revoked (is_own_key key_id context) db.api_keys k unique found in
      let rows = revoked_rows (require_scope context "keys:write") h in
      rw (with_raw_key env lib later token db' raw, rows, digest, gone) refl
    where
      revoked_rows :
          (q : Result (Unit {0}))
          → after_scope q (λ d. revoke_found (find (is_own_key key_id context) d.api_keys) d) db
            ≡ (ok tt, db')
          → db'.api_keys ≡ update_where (λ x. x.id == k.id) revoke db.api_keys
      revoked_rows (err x) e = cc
      revoked_rows (ok _) e =
          let e' = subst (λ o. revoke_found o db ≡ (ok tt, db')) found e in ground arith

fresh_hash :
    (h : String) (keys : List ApiKey)
    → any (λ x. x.secret_hash == h) keys ≡ false
    → All (λ x. h ≢ x.secret_hash) keys
fresh_hash h [] n = tt
fresh_hash h (x ∷ keys) n = (
  (λ e. ground (arith, eq_iff x.secret_hash h)),
  fresh_hash h keys (ground (arith, eq_iff x.secret_hash h)),
)

append-HasUniqueHashes :
    (keys : List ApiKey) (k : ApiKey)
    → HasUniqueHashes keys
    → All (λ x. k.secret_hash ≢ x.secret_hash) keys
    → HasUniqueHashes (keys ++ k ∷ [])
append-HasUniqueHashes [] k u n = (tt, tt)
append-HasUniqueHashes (x ∷ keys) k (ne, u) (n, ns) = (
  All-append (λ y. y.secret_hash ≢ x.secret_hash) keys (k ∷ []) ne (n, tt),
  append-HasUniqueHashes keys k u ns,
)

stored-HasUniqueHashes :
    (k : ApiKey) (raw_key : String) (db : Db)
    → HasUniqueHashes db.api_keys
    → HasUniqueHashes (store_key k raw_key db).1.api_keys
stored-HasUniqueHashes k raw_key db u =
    elim (Bool-cases (any (λ x. x.secret_hash == k.secret_hash) db.api_keys)) [
      | inl e ↦ rw e u
      | inr e ↦
          rw e (append-HasUniqueHashes db.api_keys k u (fresh_hash k.secret_hash db.api_keys e))
    ]

revoked-HasUniqueHashes :
    (found : Option ApiKey) (db : Db)
    → HasUniqueHashes db.api_keys
    → HasUniqueHashes (revoke_found found db).1.api_keys
revoked-HasUniqueHashes none db u = u
revoked-HasUniqueHashes (some k) db u =
    update-HasUniqueHashes (λ x. x.id == k.id) revoke db.api_keys (λ x. refl) u

after_scope-HasUniqueHashes :
    {A : Type 0} (q : Result (Unit {0})) (rest : Exec Db A) (db : Db)
    → HasUniqueHashes db.api_keys
    → HasUniqueHashes (rest db).1.api_keys
    → HasUniqueHashes (after_scope q rest db).1.api_keys
after_scope-HasUniqueHashes (ok _) rest db u h = h
after_scope-HasUniqueHashes (err e) rest db u h = u

module _ (env : Env) (lib : Library) where
  key_used-HasUniqueHashes :
      (found : Option ApiKey) (db : Db)
      → HasUniqueHashes db.api_keys
      → HasUniqueHashes (with_key env lib found db).1.api_keys
  key_used-HasUniqueHashes none db u = u
  key_used-HasUniqueHashes (some k) db u =
      update-HasUniqueHashes (λ x. x.id == k.id) (touch env lib) db.api_keys (λ x. refl) u

  token_used-HasUniqueHashes :
      (token : String) (db : Db)
      → HasUniqueHashes db.api_keys
      → HasUniqueHashes (with_token env lib token db).1.api_keys
  token_used-HasUniqueHashes token db u =
      elim (Bool-cases (startswith token "lg_test_" || startswith token "lg_live_")) [
        | inl e ↦ rw e (
            key_used-HasUniqueHashes
              (find (is_active_key (digest_api_key env lib token)) db.api_keys) db u)
        | inr e ↦ rw e u
      ]

  used-HasUniqueHashes :
      (credentials : Option Credentials) (db : Db)
      → HasUniqueHashes db.api_keys
      → HasUniqueHashes (get_auth_context env lib credentials db).1.api_keys
  unfolding get_auth_context
  used-HasUniqueHashes none db u = u
  used-HasUniqueHashes (some c) db u = elim (Bool-cases (lower c.scheme == "bearer")) [
    | inl e ↦ rw e (token_used-HasUniqueHashes c.token db u)
    | inr e ↦ rw e u
  ]

  -- Where no two keys share a digest, none do after a request is authenticated, after a key is
  -- created and after one is revoked, whether these return or raise.
  pub keys-HasUniqueHashes :
      (credentials : Option Credentials) (secret key_id : String) (context : AuthContext)
      (payload : CreateApiKeyRequest) (db : Db)
      → HasUniqueHashes db.api_keys
      → HasUniqueHashes (get_auth_context env lib credentials db).1.api_keys
        × HasUniqueHashes (create_key env lib secret context payload db).1.api_keys
        × HasUniqueHashes (revoke_key key_id context db).1.api_keys
  unfolding create_key revoke_key
  keys-HasUniqueHashes credentials secret key_id context payload db u = (
    used-HasUniqueHashes credentials db u,
    after_scope-HasUniqueHashes (require_scope context "keys:write") _ db u (
        stored-HasUniqueHashes (new_key env lib secret context payload (env.uuid db.catalog.drawn))
          (create_api_key env lib secret (environment_text payload.environment)).0 db u),
    after_scope-HasUniqueHashes (require_scope context "keys:write") _ db u
        (revoked-HasUniqueHashes (find (is_own_key key_id context) db.api_keys) db u),
  )

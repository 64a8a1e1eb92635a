-- ===== src/Marketplace/Authorized.antt =====
-- About `authorize_zyla_request` of app/zyla.py and the marketplace routes: who may search.
use Prim.Native.Char.{code}
use lead_generation_api_zyla.Prelude.{
  ℕ, String, true, ◌==◌, ◌≡◌, ◌≢◌, refl, ◌⊎◌, inl, inr, eqb, Bool-cases, arith, eq_iff,
}
use lead_generation_api_zyla.Prelude.Int.{pos, ltb_ℤ}
use lead_generation_api_zyla.Prelude.Text.{lower, partition}
use lead_generation_api_zyla.Errors.{Raised, Result, ok, err, ◌>>=◌}
use lead_generation_api_zyla.Env.{Env}
use lead_generation_api_zyla.Schemas.{LeadSearchRequest}
use lead_generation_api_zyla.Schemas.Responses.{LeadSearchResponse}
use lead_generation_api_zyla.Settings.{Settings}
use lead_generation_api_zyla.Providers.{LeadProvider}
use lead_generation_api_zyla.Routes.{Incoming, App}
use lead_generation_api_zyla.Zyla.{RawQuery, parse_zyla_query, query_to_payload}
use lead_generation_api_zyla.Marketplace.{
  check_token, authorize_zyla_request, if_authorized, execute_zyla_search, zyla_search_post,
  run_query, zyla_search_get,
}

-- a bearer token that is the shared one, which is set
abbrev pub IsShared : Settings → String × String → Type 0
IsShared s (scheme, token) =
    (lower scheme ≡ "bearer") × (token ≡ s.zyla_shared_token) × (s.zyla_shared_token ≢ "")

-- the edition is on, and open to the public or to the header
abbrev pub IsAuthorized : Settings → String → Type 0
IsAuthorized s authorization =
    (s.zyla_enabled ≡ true)
    × ((s.zyla_auth_mode ≡ "public") ⊎ IsShared s (partition (λ c. eqb (code c) 32) authorization))

-- an answer that is an error, with nothing changed
abbrev pub IsRefused : App → Result LeadSearchResponse × App → Type 0
IsRefused server answer = (e : Raised) × (answer ≡ (err e, server))

checked-IsShared :
    (s : Settings) (scheme token : String)
    → check_token s scheme token ≡ ok tt
    → IsShared s (scheme, token)
checked-IsShared s scheme token h = (
  ground (arith, eq_iff (lower scheme) "bearer"),
  ground (arith, eq_iff token s.zyla_shared_token),
  (λ e. ground (arith, eq_iff s.zyla_shared_token "")),
)

authorize_zyla_request-IsAuthorized :
    (s : Settings) (authorization : String)
    → authorize_zyla_request s authorization ≡ ok tt
    → IsAuthorized s authorization
unfolding authorize_zyla_request
authorize_zyla_request-IsAuthorized s authorization h = elim (Bool-cases s.zyla_enabled) [
  | inr off ↦ absurd (ground arith)
  | inl on ↦ elim (Bool-cases (s.zyla_auth_mode == "public")) [
    | inl p ↦ (on, inl (ground (arith, eq_iff s.zyla_auth_mode "public")))
    | inr q ↦
        let parts = partition (λ c. eqb (code c) 32) authorization in
        (on, inr (checked-IsShared s parts.0 parts.1 (ground arith)))
  ]
]

module _ (env : Env) (ttl_seconds : ℕ) (provider : LeadProvider) (s : Settings)
    (authorization : String) where
  executed :
      (r : Incoming) (server : App)
      → IsRefused server (execute_zyla_search env ttl_seconds provider s authorization r server)
        ⊎ IsAuthorized s authorization
  unfolding execute_zyla_search
  executed r server = go (authorize_zyla_request s authorization) refl
    where
      go :
          (q : Result (Unit {0}))
          → authorize_zyla_request s authorization ≡ q
          → IsRefused server (if_authorized env ttl_seconds provider s authorization r q server)
            ⊎ IsAuthorized s authorization
      go (err e) h = inl (e, refl)
      go (ok _) h = inr (authorize_zyla_request-IsAuthorized s authorization h)

  -- A marketplace search by POST or by GET, whatever it asks for, is refused with an error and changes
  -- neither the limiter, the stored responses nor a table, unless the edition is enabled and either is
  -- public or is given, in a bearer header, the shared token, which is not empty.
  pub marketplace_is_guarded :
      (r : Incoming) (raw : RawQuery) (server : App)
      → (IsRefused server (zyla_search_post env ttl_seconds provider s authorization r server)
          ⊎ IsAuthorized s authorization)
        × (IsRefused server (zyla_search_get env ttl_seconds provider s authorization raw r server)
            ⊎ IsAuthorized s authorization)
  unfolding zyla_search_post zyla_search_get
  marketplace_is_guarded r raw server = (
    elim (Bool-cases (ltb_ℤ s.zyla_max_limit (pos r.payload.limit))) [
      | inl e ↦ rw e (inl (_, refl))
      | inr e ↦ rw e (executed r server)
    ],
    go (do query ← parse_zyla_query env s raw; query_to_payload query),
  )
    where
      go :
          (q : Result LeadSearchRequest)
          → IsRefused server (run_query env ttl_seconds provider s authorization r q server)
            ⊎ IsAuthorized s authorization
      go (err e) = inl (e, refl)
      go (ok payload) = executed (record r { payload = payload }) server

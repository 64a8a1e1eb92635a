-- ===== src/Marketplace/Books.antt =====
-- About the marketplace routes of app/main.py and `ensure_zyla_tenant` of app/zyla.py, against the
-- contract of Ledger.
use Prim.Native.String.{◌++◌ as str_append}
use lead_generation_api_zyla.Prelude.{
  ℕ, String, Bool, true, false, ◌==◌, ◌≡◌, ◌≢◌, refl, Option, none, some, List, [], ◌∷◌, All, any,
  find, Bool-cases, inl, inr, arith, eq_iff,
}
use lead_generation_api_zyla.Prelude.Int.{pos, ltb_ℤ}
use lead_generation_api_zyla.Errors.{Result, ok, err, ◌>>=◌}
use lead_generation_api_zyla.Env.{Env}
use lead_generation_api_zyla.Schemas.{LeadSearchRequest}
use lead_generation_api_zyla.Schemas.Responses.{LeadSearchResponse}
use lead_generation_api_zyla.Models.{Tenant, CreditLedger, Db, ledger_taken, transaction}
use lead_generation_api_zyla.Ledger.{
  IsReconciled, HasNoRows, open-IsReconciled, transaction-IsReconciled,
}
use lead_generation_api_zyla.Settings.{Settings}
use lead_generation_api_zyla.Providers.{LeadProvider}
use lead_generation_api_zyla.RateLimit.{Limiter, check}
use lead_generation_api_zyla.Replay.{Process}
use lead_generation_api_zyla.Replay.Keeps.{replay_safe-keeps}
use lead_generation_api_zyla.Search.Reconciled.{execute-IsReconciled}
use lead_generation_api_zyla.Routes.{Incoming, App, search_once, call_of}
use lead_generation_api_zyla.Zyla.{
  RawQuery, zyla_tenant, reserve_entry, check_tenant, commit_tenant, provision, check_or_provision,
  ensure_zyla_tenant, parse_zyla_query, query_to_payload,
}
use lead_generation_api_zyla.Marketplace.{
  authorize_zyla_request, zyla_scope, zyla_context, if_admitted, if_provisioned, if_authorized,
  execute_zyla_search, zyla_search_post, run_query, zyla_search_get,
}

abbrev has_tenant : String → List Tenant → Bool
has_tenant id = any (λ t. t.id == id)

-- the foreign key of the ledger: the tenant of every row is in its table
abbrev pub AreOwned : Db → Type 0
AreOwned db = All (λ r. any (λ t. t.id == r.tenant_id) db.tenants ≡ true) db.credit_ledger

absent :
    (id : String) (tenants : List Tenant)
    → find (λ t. t.id == id) tenants ≡ none
    → has_tenant id tenants ≡ false
absent id [] h = refl
absent id (t ∷ tenants) h = ground (arith, absent id tenants)

absent-ne :
    (id : String) (tenants : List Tenant)
    → find (λ t. t.id == id) tenants ≡ none
    → All (λ t. id ≢ t.id) tenants
absent-ne id [] h = tt
absent-ne id (t ∷ tenants) h =
    ((λ e. ground (arith, eq_iff t.id id)), absent-ne id tenants (ground arith))

owned-HasNoRows :
    (id : String) (tenants : List Tenant) (rows : List CreditLedger)
    → has_tenant id tenants ≡ false
    → All (λ r. has_tenant r.tenant_id tenants ≡ true) rows
    → HasNoRows id rows
owned-HasNoRows id tenants [] gone h = tt
owned-HasNoRows id tenants (r ∷ rows) gone (o, h) =
    ((λ e. absurd (clash (rw e gone) o)), owned-HasNoRows id tenants rows gone h)
  where
    clash : {b : Bool} → b ≡ false → b ≡ true → ⊥
    clash e f = cc

module _ (s : Settings) where
  committed-IsReconciled :
      (db : Db)
      → find (λ t. t.id == s.zyla_tenant_id) db.tenants ≡ none
      → AreOwned db
      → IsReconciled db
      → IsReconciled (commit_tenant s db).1
  unfolding reserve_entry
  committed-IsReconciled db gone owned h =
      elim (Bool-cases (ledger_taken (reserve_entry s) db.credit_ledger)) [
        | inl e ↦ rw e h
        | inr e ↦ rw e (
            open-IsReconciled (zyla_tenant s) (reserve_entry s) db.credit_ledger db.tenants refl
              refl
              (owned-HasNoRows s.zyla_tenant_id db.tenants db.credit_ledger
                (absent s.zyla_tenant_id db.tenants gone) owned)
              (absent-ne s.zyla_tenant_id db.tenants gone) h)
      ]

  checked-IsReconciled :
      (t : Tenant) (db : Db) → IsReconciled db → IsReconciled (check_tenant s t db).1
  checked-IsReconciled t db h = elim (Bool-cases (t.slug == s.zyla_tenant_slug)) [
    | inr e ↦ rw e h
    | inl e ↦ elim (Bool-cases (t.status == "ACTIVE")) [ inl k ↦ rw (e, k) h | inr k ↦ rw (e, k) h ]
  ]

  ensure-IsReconciled :
      (db : Db) → AreOwned db → IsReconciled db → IsReconciled (ensure_zyla_tenant s db).1
  unfolding ensure_zyla_tenant
  ensure-IsReconciled db owned h = go (find (λ t. t.id == s.zyla_tenant_id) db.tenants) refl
    where
      slug_free :
          (other : Option Tenant)
          → find (λ t. t.id == s.zyla_tenant_id) db.tenants ≡ none
          → IsReconciled (provision s other db).1
      slug_free none gone = committed-IsReconciled db gone owned h
      slug_free (some other) gone = h

      go :
          (q : Option Tenant)
          → find (λ t. t.id == s.zyla_tenant_id) db.tenants ≡ q
          → IsReconciled (check_or_provision s q db).1
      go none gone = slug_free (find (λ t. t.slug == s.zyla_tenant_slug) db.tenants) gone
      go (some t) found = checked-IsReconciled t db h

module _ (env : Env) (ttl_seconds : ℕ) (provider : LeadProvider) (s : Settings)
    (authorization : String) where
  module _ (r : Incoming) where
    admitted-IsReconciled :
        (id : String) (q : Result (Unit {0}) × Limiter) (p : Process Db LeadSearchResponse)
        → IsReconciled p.db
        → IsReconciled (if_admitted env ttl_seconds provider s authorization r id q p).1.process.db
    admitted-IsReconciled id (ok _, limiter) p h =
        replay_safe-keeps ttl_seconds (search_once env ttl_seconds provider (zyla_context id) r)
          IsReconciled
          (execute-IsReconciled env (call_of env ttl_seconds provider (zyla_context id) r) provider
            r.asked_at r.outcome)
          r.started r.finished (zyla_scope id r.idempotency_key) r.request_fingerprint p h
    admitted-IsReconciled id (err e, limiter) p h = h

    provisioned-IsReconciled :
        (q : Result Tenant × Db) (server : App)
        → IsReconciled q.1
        → IsReconciled
            (if_provisioned env ttl_seconds provider s authorization r q server).1.process.db
    provisioned-IsReconciled (err e, db) server h = h
    provisioned-IsReconciled (ok t, db) server h =
        admitted-IsReconciled t.id (check r.ticks (str_append "zyla:" t.id) server.limiter)
          (record (server.process) { db = db }) h

    executed-IsReconciled :
        (server : App)
        → AreOwned server.process.db
        → IsReconciled server.process.db
        → IsReconciled
            (execute_zyla_search env ttl_seconds provider s authorization r server).1.process.db
    unfolding execute_zyla_search
    executed-IsReconciled server owned h = go (authorize_zyla_request s authorization)
      where
        go :
            (q : Result (Unit {0}))
            → IsReconciled
                (if_authorized env ttl_seconds provider s authorization r q server).1.process.db
        go (err e) = h
        go (ok _) =
            provisioned-IsReconciled (transaction (ensure_zyla_tenant s) server.process.db) server (
              transaction-IsReconciled (ensure_zyla_tenant s) server.process.db h
                (ensure-IsReconciled s server.process.db owned h))

  -- If every balance is the sum of its ledger rows and every ledger row has its tenant before a
  -- marketplace search, by POST or by GET, then every balance is the sum of its ledger rows after it,
  -- that of a marketplace tenant provisioned on the way included, whatever the answer.
  pub marketplace-IsReconciled :
      (r : Incoming) (raw : RawQuery) (server : App)
      → AreOwned server.process.db
      → IsReconciled server.process.db
      → IsReconciled
          (zyla_search_post env ttl_seconds provider s authorization r server).1.process.db
        × IsReconciled
            (zyla_search_get env ttl_seconds provider s authorization raw r server).1.process.db
  unfolding zyla_search_post zyla_search_get
  marketplace-IsReconciled r raw server owned h = (
    elim (Bool-cases (ltb_ℤ s.zyla_max_limit (pos r.payload.limit))) [
      | inl e ↦ rw e h
      | inr e ↦ rw e (executed-IsReconciled r server owned h)
    ],
    go (do query ← parse_zyla_query env s raw; query_to_payload query),
  )
    where
      go :
          (q : Result LeadSearchRequest)
          → IsReconciled
              (run_query env ttl_seconds provider s authorization r q server).1.process.db
      go (err e) = h
      go (ok payload) = executed-IsReconciled (record r { payload = payload }) server owned h

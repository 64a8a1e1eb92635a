-- ===== src/Routes/Shared.antt =====
-- `search_leads` of app/main.py over any limiter and any store: over Redis as in production, and where a
-- call of either raises.
use Prim.Native.String.{◌++◌ as str_append}
use lead_generation_api_zyla.Prelude.{
  ℕ, String, Option, none, some, Bool, true, false, ◌==◌, Bool-cases, inl, inr,
}
use lead_generation_api_zyla.Errors.{Raised, Result, ok, err}
use lead_generation_api_zyla.Exec.{Exec}
use lead_generation_api_zyla.Env.{Env}
use lead_generation_api_zyla.Models.{Db}
use lead_generation_api_zyla.Ledger.{IsReconciled}
use lead_generation_api_zyla.Providers.{LeadProvider}
use lead_generation_api_zyla.Schemas.Responses.{LeadSearchResponse}
use lead_generation_api_zyla.Idempotency.{IdempotencyHit}
use lead_generation_api_zyla.Replay.Stores.{
  Calls, raise_after, after_put, finish_over, run_reserved_over, run_looked_up_over, replay_over,
}
use lead_generation_api_zyla.Search.Reconciled.{execute-IsReconciled}
use lead_generation_api_zyla.Security.{AuthContext, require_scope}
use lead_generation_api_zyla.Routes.{Incoming, idempotency_scope, translated, search_once, call_of}

-- `L` is the limiter's state, `S` the store's; `admit` is its `check`
module _ {L S : Type 0} (admit : String → Exec L (Unit {0})) (store : Calls S LeadSearchResponse)
    (env : Env) (ttl_seconds : ℕ) (provider : LeadProvider) (context : AuthContext)
    (r : Incoming) where
  abbrev pub over :
      L → Result LeadSearchResponse × (S × Db) → Result LeadSearchResponse × (L × (S × Db))
  over limiter (answer, w) = (answer, (limiter, w))

  abbrev pub if_admitted_over :
      S × Db → Result (Unit {0}) × L → Result LeadSearchResponse × (L × (S × Db))
  if_admitted_over w (ok _, limiter) = over limiter (
      replay_over store (search_once env ttl_seconds provider context r)
        (idempotency_scope context r.idempotency_key) r.request_fingerprint w)
  if_admitted_over w (err e, limiter) = (err (translated e), (limiter, w))

  abbrev pub if_allowed_over : Result (Unit {0}) → Exec (L × (S × Db)) LeadSearchResponse
  if_allowed_over (err e) server = (err e, server)
  if_allowed_over (ok _) (limiter, w) =
      if_admitted_over w (admit (str_append "tenant:" context.tenant_id) limiter)

  -- `search_leads`
  unfoldable pub search_leads_over : Exec (L × (S × Db)) LeadSearchResponse
  search_leads_over server = if_allowed_over (require_scope context "leads:read") server

-- what a search keeps of the database is kept over any store
module _ {S D B : Type 0} (store : Calls S B) (search : Exec D B) (P : D → Type 0)
    (keeps : (db : D) → P db → P (search db).1) where
  raise_after-keeps :
      (exc : Raised) (db : D) (p : Result (Unit {0}) × S)
      → P db
      → P (raise_after store search exc db p).1.1
  raise_after-keeps exc db (ok _, s) h = h
  raise_after-keeps exc db (err e, s) h = h

  after_put-keeps :
      (key : String) (b : B) (db : D) (p : Result (Unit {0}) × S)
      → P db
      → P (after_put store search key b db p).1.1
  after_put-keeps key b db (ok _, s) h = h
  after_put-keeps key b db (err exc, s) h = raise_after-keeps exc db (store.delete_key key s) h

  finish_over-keeps :
      (key fingerprint : String) (s : S) (q : Result B × D)
      → P q.1
      → P (finish_over store search key fingerprint s q).1.1
  finish_over-keeps key fingerprint s (ok b, db) h =
      after_put-keeps key b db
        (store.put_hit key (record { fingerprint = fingerprint; response_body = b }) s) h
  finish_over-keeps key fingerprint s (err exc, db) h =
      raise_after-keeps exc db (store.delete_key key s) h

  run_reserved_over-keeps :
      (key fingerprint : String) (db : D) (q : Result Bool × S)
      → P db
      → P (run_reserved_over store search key fingerprint db q).1.1
  run_reserved_over-keeps key fingerprint db (ok true, s) h =
      finish_over-keeps key fingerprint s (search db) (keeps db h)
  run_reserved_over-keeps key fingerprint db (ok false, s) h = h
  run_reserved_over-keeps key fingerprint db (err e, s) h = h

  run_looked_up_over-keeps :
      (key fingerprint : String) (db : D) (q : Result (Option (IdempotencyHit B)) × S)
      → P db
      → P (run_looked_up_over store search key fingerprint db q).1.1
  run_looked_up_over-keeps key fingerprint db (ok (some hit), s) h = h
  run_looked_up_over-keeps key fingerprint db (ok none, s) h =
      run_reserved_over-keeps key fingerprint db (store.reserve_key key fingerprint s) h
  run_looked_up_over-keeps key fingerprint db (err e, s) h = h

  replay_over-keeps :
      (scope : Option String) (fingerprint : String) (w : S × D)
      → P w.1
      → P (replay_over store search scope fingerprint w).1.1
  unfolding replay_over
  replay_over-keeps none fingerprint (s, db) h = keeps db h
  replay_over-keeps (some key) fingerprint (s, db) h = elim (Bool-cases (key == "")) [
    | inl e ↦ rw e (keeps db h)
    | inr e ↦ rw e (run_looked_up_over-keeps key fingerprint db (store.get_hit key fingerprint s) h)
  ]

module _ {L S : Type 0} (admit : String → Exec L (Unit {0})) (store : Calls S LeadSearchResponse)
    (env : Env) (ttl_seconds : ℕ) (provider : LeadProvider) (context : AuthContext)
    (r : Incoming) where
  admitted_over-IsReconciled :
      (w : S × Db) (q : Result (Unit {0}) × L)
      → IsReconciled w.1
      → IsReconciled (if_admitted_over admit store env ttl_seconds provider context r w q).1.1.1
  admitted_over-IsReconciled w (ok _, limiter) h =
      replay_over-keeps store (search_once env ttl_seconds provider context r) IsReconciled
        (execute-IsReconciled env (call_of env ttl_seconds provider context r) provider r.asked_at
          r.outcome)
        (idempotency_scope context r.idempotency_key) r.request_fingerprint w h
  admitted_over-IsReconciled w (err e, limiter) h = h

  allowed_over-IsReconciled :
      (q : Result (Unit {0})) (limiter : L) (w : S × Db)
      → IsReconciled w.1
      → IsReconciled
          (if_allowed_over admit store env ttl_seconds provider context r q (limiter, w)).1.1.1
  allowed_over-IsReconciled (err e) limiter w h = h
  allowed_over-IsReconciled (ok _) limiter w h =
      admitted_over-IsReconciled w (admit (str_append "tenant:" context.tenant_id) limiter) h

  -- Over any limiter and any store of responses, also such as raise at any call: if every balance is the
  -- sum of its ledger rows before a request to the search route, so is every balance after it, whatever
  -- the answer.
  search_leads_over-IsReconciled :
      (limiter : L) (s : S) (db : Db)
      → IsReconciled db
      → IsReconciled
          (search_leads_over admit store env ttl_seconds provider context r
            (limiter, (s, db))).1.1.1
  unfolding search_leads_over
  search_leads_over-IsReconciled limiter s db h =
      allowed_over-IsReconciled (require_scope context "leads:read") limiter (s, db) h

-- ===== src/Routes/Accounts.antt =====
-- About `search_leads` of app/main.py: the accounts of all tenants.
use Prim.Native.String.{◌++◌ as str_append}
use lead_generation_api_zyla.Prelude.{ℕ}
use lead_generation_api_zyla.Errors.{Result, ok, err}
use lead_generation_api_zyla.Env.{Env}
use lead_generation_api_zyla.Models.{Db}
use lead_generation_api_zyla.Ledger.{IsReconciled}
use lead_generation_api_zyla.Providers.{LeadProvider}
use lead_generation_api_zyla.RateLimit.{Limiter, check}
use lead_generation_api_zyla.Replay.Keeps.{replay_safe-keeps}
use lead_generation_api_zyla.Schemas.Responses.{LeadSearchResponse}
use lead_generation_api_zyla.Replay.{Process}
use lead_generation_api_zyla.Search.Reconciled.{execute-IsReconciled}
use lead_generation_api_zyla.Security.{AuthContext, require_scope}
use lead_generation_api_zyla.Routes.{
  Incoming, App, idempotency_scope, search_once, call_of, if_admitted, if_allowed, search_leads,
}

module _ (env : Env) (ttl_seconds : ℕ) (provider : LeadProvider) (context : AuthContext)
    (r : Incoming) where
  admitted-IsReconciled :
      (q : Result (Unit {0}) × Limiter) (p : Process Db LeadSearchResponse)
      → IsReconciled p.db
      → IsReconciled (if_admitted env ttl_seconds provider context r q p).1.process.db
  admitted-IsReconciled (ok _, limiter) p h =
      replay_safe-keeps ttl_seconds (search_once env ttl_seconds provider context r) IsReconciled
        (execute-IsReconciled env (call_of env ttl_seconds provider context r) provider r.asked_at
          r.outcome)
        r.started r.finished (idempotency_scope context r.idempotency_key) r.request_fingerprint p h
  admitted-IsReconciled (err e, limiter) p h = h

  allowed-IsReconciled :
      (q : Result (Unit {0})) (server : App)
      → IsReconciled server.process.db
      → IsReconciled (if_allowed env ttl_seconds provider context r q server).1.process.db
  allowed-IsReconciled (err e) server h = h
  allowed-IsReconciled (ok _) server h =
      admitted-IsReconciled (check r.ticks (str_append "tenant:" context.tenant_id) server.limiter)
        server.process h

  -- If every balance is the sum of its ledger rows before a request to the search route, so is every
  -- balance after it, whatever the answer: refused for its scope or rate, replayed, in conflict,
  -- failed or found.
  pub search_leads-IsReconciled :
      (server : App)
      → IsReconciled server.process.db
      → IsReconciled (search_leads env ttl_seconds provider context r server).1.process.db
  unfolding search_leads
  search_leads-IsReconciled server h =
      allowed-IsReconciled (require_scope context "leads:read") server h

-- ===== src/Search/Inversion.antt =====
-- What a search that returns has done, step by step; the later files read it.
use lead_generation_api_zyla.Prelude.{
  false, ◌==◌, ◌≡◌, ◌∙◌, refl, Option, none, some, List, length, find, arith, eq_iff,
}
use lead_generation_api_zyla.Prelude.Int.{pos, ltb_ℤ, ◌-ℤ◌}
use lead_generation_api_zyla.Errors
use lead_generation_api_zyla.Errors.{Result, ok, err}
use lead_generation_api_zyla.Exec.{pure, ◌>>=◌, ◌>>◌, continue, continue-eq-ok}
use lead_generation_api_zyla.Env.{Env}
use lead_generation_api_zyla.Schemas.Responses.{LeadResponse, LeadSearchResponse}
use lead_generation_api_zyla.Models.{Tenant, Catalog, Db}
use lead_generation_api_zyla.Providers.{ProviderLead}
use lead_generation_api_zyla.Services.{ScoredLead}
use lead_generation_api_zyla.Search.Persist.{persist_items}
use lead_generation_api_zyla.Search.Select.{unsuppressed, score_all, choose}
use lead_generation_api_zyla.Search.{
  Call, active_tenant, affordable, plan, settle, charge, search_response, search_body,
}

-- The tenant that a search charges is there and active.
active_tenant-eq-ok :
    (found : Option Tenant) (t : Tenant)
    → active_tenant found ≡ ok t
    → (found ≡ some t) × (t.status ≡ "ACTIVE")
active_tenant-eq-ok none t h = cc
active_tenant-eq-ok (some x) t h = (ground arith, ground (arith, eq_iff x.status "ACTIVE"))

module _ (env : Env) (call : Call) where
  -- the writes of a search that returns
  pub record Charges (tenant : Tenant) (chosen : List ScoredLead) (db : Db) (r : LeadSearchResponse)
      (db' : Db) : Type 0 where
    pub rows : List LeadResponse
    pub catalog : Catalog
    pub is_persisted : persist_items env call.tenant_id chosen db.catalog ≡ (ok rows, catalog)
    pub is_settled :
        settle env call (length rows) (length chosen) (record db { catalog = catalog })
        ≡ (ok tt, db')
    pub is_answered :
        r
        ≡ search_response env call rows
            (length chosen)
            (tenant.credits_balance -ℤ pos (length chosen))

  charge-Charges :
      (tenant : Tenant) (chosen : List ScoredLead) (db : Db) (r : LeadSearchResponse) (db' : Db)
      → charge env call tenant chosen db ≡ (ok r, db')
      → Charges tenant chosen db r db'
  unfolding charge ◌>>=◌
  charge-Charges tenant chosen db r db' h =
      persisted (persist_items env call.tenant_id chosen db.catalog) refl h
    where
      settled :
          (rows : List LeadResponse) (catalog : Catalog)
          → persist_items env call.tenant_id chosen db.catalog ≡ (ok rows, catalog)
          → (q : Result (Unit {0}) × Db)
          → settle env call (length rows) (length chosen) (record db { catalog = catalog }) ≡ q
          → continue q.0
              (λ _. pure (
                search_response env call rows
                  (length chosen)
                  (tenant.credits_balance -ℤ pos (length chosen))))
              q.1
            ≡ (ok r, db')
          → Charges tenant chosen db r db'
      settled rows catalog e (ok _, s) f k = record {
        rows = rows;
        catalog = catalog;
        is_persisted = e;
        is_settled = f ∙ (cc);
        is_answered = cc;
      }
      settled rows catalog e (err _, s) f k = cc

      persisted :
          (p : Result (List LeadResponse) × Catalog)
          → persist_items env call.tenant_id chosen db.catalog ≡ p
          → continue p.0
              (λ rows.
                settle env call (length rows) (length chosen)
                >> pure (
                    search_response env call rows
                      (length chosen)
                      (tenant.credits_balance -ℤ pos (length chosen))))
              (record db { catalog = p.1 })
            ≡ (ok r, db')
          → Charges tenant chosen db r db'
      persisted (ok rows, catalog) e k = settled rows catalog e _ refl k
      persisted (err _, catalog) e k = cc

  -- a search that returns: whom it charges, for what
  pub record Succeeds (records : List ProviderLead) (db : Db) (r : LeadSearchResponse) (db' : Db)
      : Type 0 where
    pub tenant : Tenant
    pub chosen : List ScoredLead
    pub is_found : find (λ t. t.id == call.tenant_id) db.tenants ≡ some tenant
    pub is_active : tenant.status ≡ "ACTIVE"
    pub is_planned : plan env call tenant records db ≡ ok chosen
    pub charges : Charges tenant chosen db r db'

  planned-Succeeds :
      (tenant : Tenant) (records : List ProviderLead) (db : Db) (r : LeadSearchResponse) (db' : Db)
      → find (λ t. t.id == call.tenant_id) db.tenants ≡ some tenant
      → tenant.status ≡ "ACTIVE"
      → continue (plan env call tenant records db) (charge env call tenant) db ≡ (ok r, db')
      → Succeeds records db r db'
  planned-Succeeds tenant records db r db' found active h =
      let (chosen, planned, k) = continue-eq-ok (plan env call tenant records db) _ db h in
      record {
        tenant = tenant;
        chosen = chosen;
        is_found = found;
        is_active = active;
        is_planned = planned;
        charges = charge-Charges tenant chosen db r db' k;
      }

  pub search_body-Succeeds :
      (records : List ProviderLead) (db : Db) (r : LeadSearchResponse) (db' : Db)
      → search_body env call records db ≡ (ok r, db')
      → Succeeds records db r db'
  unfolding search_body ◌>>=◌
  search_body-Succeeds records db r db' h =
      let found = find (λ t. t.id == call.tenant_id) db.tenants in
      let (tenant, active, k) = continue-eq-ok (active_tenant found) _ db h in
      let (is_found, is_active) = active_tenant-eq-ok found tenant active in
      planned-Succeeds tenant records db r db' is_found is_active k

  -- the leads that a plan chose: unsuppressed records, scored, and paid for by the balance
  pub record Plans (tenant : Tenant) (records : List ProviderLead) (db : Db)
      (chosen : List ScoredLead) : Type 0 where
    pub shown : List ProviderLead
    pub scored : List ScoredLead
    pub is_shown : unsuppressed env call.tenant_id db.suppressions records ≡ ok shown
    pub is_scored : score_all env call.payload.filters shown ≡ ok scored
    pub is_chosen : chosen ≡ choose call.payload scored
    pub is_affordable : ltb_ℤ tenant.credits_balance (pos (length chosen)) ≡ false

  scored-Plans :
      (tenant : Tenant) (records : List ProviderLead) (db : Db) (chosen : List ScoredLead)
      (shown : List ProviderLead)
      → unsuppressed env call.tenant_id db.suppressions records ≡ ok shown
      → (scored : Result (List ScoredLead)) → score_all env call.payload.filters shown ≡ scored
      → Errors.◌>>=◌ scored (affordable call tenant) ≡ ok chosen
      → Plans tenant records db chosen
  scored-Plans tenant records db chosen shown e (err _) f h = cc
  scored-Plans tenant records db chosen shown e (ok scored) f h = record {
    shown = shown;
    scored = scored;
    is_shown = e;
    is_scored = f;
    is_chosen = ground arith;
    is_affordable = ground arith;
  }

  pub plan-Plans :
      (tenant : Tenant) (records : List ProviderLead) (db : Db) (chosen : List ScoredLead)
      → plan env call tenant records db ≡ ok chosen
      → Plans tenant records db chosen
  unfolding plan
  plan-Plans tenant records db chosen h =
      let (shown, e, k) =
        Errors.>>=-eq-ok (unsuppressed env call.tenant_id db.suppressions records) _ h in
      scored-Plans tenant records db chosen shown e (score_all env call.payload.filters shown) refl
        k

-- ===== src/Search/Charges.antt =====
-- About `_persist_lead_search` of app/search_service.py: the balance, the ledger, the usage record
-- and the answer.
use lead_generation_api_zyla.Prelude.{
  ℕ, ◌+◌, ◌≤◌, String, false, ◌==◌, ◌≡◌, refl, ap, some, List, [], ◌∷◌, ◌++◌, length, find,
  update_where, eqb, arith, if◌then◌else◌,
}
use lead_generation_api_zyla.Prelude.Int.{pos, ◌-ℤ◌, ◌≤ℤ◌, ltb_ℤ}
use lead_generation_api_zyla.Errors.{ok}
use lead_generation_api_zyla.Exec.{◌>>=◌}
use lead_generation_api_zyla.Env.{Env}
use lead_generation_api_zyla.Schemas.Responses.{LeadResponse, LeadSearchResponse}
use lead_generation_api_zyla.Models.{Tenant, Catalog, Db, transaction-eq-ok}
use lead_generation_api_zyla.Providers.{ProviderLead}
use lead_generation_api_zyla.Services.{ScoredLead}
use lead_generation_api_zyla.Search.Select.{length-choose-le}
use lead_generation_api_zyla.Search.Persist.Answers.{length-Answers, persist_items-Answers}
use lead_generation_api_zyla.Search.{
  Call, spend, charge_entry, usage_entry, search_entry, settle, persist_lead_search,
  search_response,
}
use lead_generation_api_zyla.Search.Inversion.{Succeeds, search_body-Succeeds, plan-Plans}

not_short :
    (t : Tenant) (n : ℕ) → ltb_ℤ t.credits_balance (pos n) ≡ false → pos n ≤ℤ t.credits_balance
not_short t n h = ground arith

module _ (env : Env) (call : Call) where
  -- the tables after the charge of `used` credits for `count` leads
  abbrev after_charge : ℕ → ℕ → Db → Db
  after_charge count used db = record db {
    tenants = update_where (λ t. t.id == call.tenant_id) (spend used) db.tenants;
    catalog = record (db.catalog) { drawn = db.catalog.drawn + 1 };
    searches = db.searches ++ search_entry env call count used (env.uuid db.catalog.drawn) ∷ [];
    usage_records = db.usage_records ++ usage_entry env call used ∷ [];
    credit_ledger =
        if eqb used 0
        then db.credit_ledger
        else db.credit_ledger ++ charge_entry env call used (env.uuid db.catalog.drawn) ∷ [];
  }

  settle-eq-ok :
      (count used : ℕ) (db db' : Db)
      → settle env call count used db ≡ (ok tt, db')
      → db' ≡ after_charge count used db
  unfolding settle ◌>>=◌
  settle-eq-ok count used db db' h = ground arith

  -- the whole effect of a search that returns, on the tables that keep accounts
  pub record Books (db : Db) (r : LeadSearchResponse) (db' : Db) : Type 0 where
    pub tenant : Tenant
    pub search_id : String
    pub is_found : find (λ t. t.id == call.tenant_id) db.tenants ≡ some tenant
    pub is_active : tenant.status ≡ "ACTIVE"
    pub covered : pos (length r.data_rows) ≤ℤ tenant.credits_balance
    pub within_limit : length r.data_rows ≤ call.payload.limit
    pub reported : r.usage.credits_used ≡ length r.data_rows
    pub remaining : r.usage.credits_remaining ≡ tenant.credits_balance -ℤ pos (length r.data_rows)
    pub tenants :
        db'.tenants
        ≡ update_where
            (λ t. t.id == call.tenant_id)
            (λ t. record t { credits_balance = t.credits_balance -ℤ pos (length r.data_rows) })
            db.tenants
    pub ledger : db'.credit_ledger ≡ (
        if eqb (length r.data_rows) 0
        then db.credit_ledger
        else db.credit_ledger ++ charge_entry env call (length r.data_rows) search_id ∷ [])
    pub usage :
        db'.usage_records ≡ db.usage_records ++ usage_entry env call (length r.data_rows) ∷ []
    pub searches :
        db'.searches
        ≡ db.searches
          ++ search_entry env call (length r.data_rows) (length r.data_rows) search_id ∷ []

  -- the answer and the tables, once the counts of rows and chosen leads are known to be one
  rows-Books :
      (db : Db) (tenant : Tenant) (chosen : List ScoredLead) (rows : List LeadResponse)
      (catalog : Catalog) (used : ℕ)
      → length rows ≡ used
      → find (λ t. t.id == call.tenant_id) db.tenants ≡ some tenant
      → tenant.status ≡ "ACTIVE"
      → pos used ≤ℤ tenant.credits_balance
      → used ≤ call.payload.limit
      → Books db
          (search_response env call rows used (tenant.credits_balance -ℤ pos used))
          (after_charge used used (record db { catalog = catalog }))
  unfolding search_response
  rows-Books db tenant chosen rows catalog used e found active covered within = rw (← e) (record {
    tenant = tenant;
    search_id = env.uuid catalog.drawn;
    is_found = found;
    is_active = active;
    covered = rw e covered;
    within_limit = rw e within;
    reported = refl;
    remaining = refl;
    tenants = refl;
    ledger = refl;
    usage = refl;
    searches = refl;
  })

  charges-Books :
      (records : List ProviderLead) (db : Db) (r : LeadSearchResponse) (db' : Db)
      → Succeeds env call records db r db'
      → Books db r db'
  charges-Books records db r db' s =
      let c = s.charges in
      let p = plan-Plans env call s.tenant records db s.chosen s.is_planned in
      let counted : length c.rows ≡ length s.chosen = length-Answers c.rows s.chosen (
        persist_items-Answers env call.tenant_id s.chosen db.catalog c.rows
          (ap (λ q. q.0) c.is_persisted)) in
      let settled =
        settle-eq-ok (length c.rows) (length s.chosen) (record db { catalog = c.catalog }) db'
          c.is_settled in
      rw (c.is_answered, settled, counted)
        (rows-Books db s.tenant s.chosen c.rows c.catalog (length s.chosen) counted s.is_found
          s.is_active (not_short s.tenant (length s.chosen) p.is_affordable)
          (rw p.is_chosen (length-choose-le call.payload p.scored)))

  -- A search that returns charges one credit for each lead in its answer, never more than the
  -- balance or the limit: the active tenant's balance falls by that number, the ledger gains one row
  -- of minus that number (none when no lead was found), and one usage record and one search record
  -- carry it. The answer reports the same number and the balance that is left.
  pub search_charges :
      (records : List ProviderLead) (db : Db) (r : LeadSearchResponse) (db' : Db)
      → persist_lead_search env call records db ≡ (ok r, db')
      → Books db r db'
  unfolding persist_lead_search
  search_charges records db r db' h =
      charges-Books records db r db'
        (search_body-Succeeds env call records db r db' (transaction-eq-ok _ db r db' h))

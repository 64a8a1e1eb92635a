-- ===== src/Search/Reconciled.antt =====
-- About `_persist_lead_search` of app/search_service.py, against the contract of Ledger.
use lead_generation_api_zyla.Prelude.{
  ℕ, String, ◌==◌, ◌≡◌, refl, Option, List, [], ◌∷◌, ◌++◌, length, update_where, All, eqb,
  Bool-cases, inl, inr, arith, if◌then◌else◌,
}
use lead_generation_api_zyla.Prelude.Int.{int_laws}
use lead_generation_api_zyla.Errors.{Result, ok, err}
use lead_generation_api_zyla.Env.{Env}
use lead_generation_api_zyla.Schemas.Responses.{LeadSearchResponse}
use lead_generation_api_zyla.Models.{Tenant, Db, CreditLedger, transaction-eq-err}
use lead_generation_api_zyla.Ledger.{
  IsReconciled, AgreesWith, move-IsReconciled, still-IsReconciled,
}
use lead_generation_api_zyla.Providers.{ProviderLead, LeadProvider}
use lead_generation_api_zyla.Json.{Json}
use lead_generation_api_zyla.Exec.{◌>>=◌, continue}
use lead_generation_api_zyla.Search.{
  fetch, execute_lead_search, Call, spend, charge_entry, persist_lead_search,
}
use lead_generation_api_zyla.Search.Charges.{search_charges}

module _ (env : Env) (call : Call) where
  -- the two tables after a charge of `used` credits
  charged-IsReconciled :
      (used : ℕ) (search_id : String) (tenants : List Tenant) (ledger : List CreditLedger)
      → All (AgreesWith ledger) tenants
      → All
          (AgreesWith
            (if eqb used 0 then ledger else ledger ++ charge_entry env call used search_id ∷ []))
          (update_where (λ t. t.id == call.tenant_id) (spend used) tenants)
  unfolding charge_entry
  charged-IsReconciled used search_id tenants ledger h = elim (Bool-cases (eqb used 0)) [
    | inl e ↦
        let none_used : used ≡ 0 = ground arith in
        rw (none_used) (
          still-IsReconciled call.tenant_id (spend 0) ledger (λ t. refl) (λ t. omega int_laws)
            tenants h)
    | inr e ↦ rw e (
        move-IsReconciled call.tenant_id (spend used) ledger (charge_entry env call used search_id)
          refl (λ t. refl) (λ t. omega int_laws) tenants h)
  ]

  outcome-IsReconciled :
      (records : List ProviderLead) (db : Db) (p : Result LeadSearchResponse × Db)
      → persist_lead_search env call records db ≡ p
      → IsReconciled db
      → IsReconciled p.1
  unfolding persist_lead_search
  outcome-IsReconciled records db (ok r, db') e h =
      let b = search_charges env call records db r db' e in
      rw (b.tenants, b.ledger)
        (charged-IsReconciled (length r.data_rows) b.search_id db.tenants db.credit_ledger h)
  outcome-IsReconciled records db (err x, db') e h = rw (transaction-eq-err _ db x db' e) h

  -- If every balance is the sum of its ledger rows before a search, so is every balance after it,
  -- whether the search returns or raises.
  pub search-IsReconciled :
      (records : List ProviderLead) (db : Db)
      → IsReconciled db
      → IsReconciled (persist_lead_search env call records db).1
  search-IsReconciled records db h = outcome-IsReconciled records db _ refl h

  fetched-IsReconciled :
      (records : Result (List ProviderLead)) (db : Db)
      → IsReconciled db
      → IsReconciled (continue records (persist_lead_search env call) db).1
  fetched-IsReconciled (ok records) db h = search-IsReconciled records db h
  fetched-IsReconciled (err e) db h = h

  -- The same with the provider's call before it.
  pub execute-IsReconciled :
      (provider : LeadProvider) (now : String) (outcome : Option Json) (db : Db)
      → IsReconciled db
      → IsReconciled (execute_lead_search env call provider now outcome db).1
  unfolding execute_lead_search ◌>>=◌
  execute-IsReconciled provider now outcome db h =
      fetched-IsReconciled (fetch env call provider now outcome) db h

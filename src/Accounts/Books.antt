-- ===== src/Accounts/Books.antt =====
-- About `register` of app/main.py, against the contract of Ledger.
use lead_generation_api_zyla.Prelude.{String, ◌||◌, ◌≢◌, refl, All, Bool-cases, inl, inr}
use lead_generation_api_zyla.Env.{Env}
use lead_generation_api_zyla.Models.{Db, ledger_taken}
use lead_generation_api_zyla.Ledger.{
  IsReconciled, HasNoRows, open-IsReconciled, transaction-IsReconciled,
}
use lead_generation_api_zyla.Settings.{Settings}
use lead_generation_api_zyla.Schemas.Accounts.{RegisterRequest}
use lead_generation_api_zyla.Security.{Library}
use lead_generation_api_zyla.Accounts.{new_tenant, grant_row, slug_taken, store_account, register}

module _ (env : Env) (lib : Library) (settings : Settings) (salt suffix : String)
    (payload : RegisterRequest) where
  stored-IsReconciled :
      (db : Db)
      → HasNoRows (env.uuid db.catalog.drawn) db.credit_ledger
      → All (λ t. env.uuid db.catalog.drawn ≢ t.id) db.tenants
      → IsReconciled db
      → IsReconciled (store_account env lib settings salt suffix payload db).1
  stored-IsReconciled db none apart h =
      elim (Bool-cases (
        slug_taken (new_tenant env lib settings salt suffix payload db).slug db.tenants
        || ledger_taken (grant_row env lib settings salt suffix payload db) db.credit_ledger)) [
          | inl e ↦ rw e h
          | inr e ↦ rw e (
              open-IsReconciled (new_tenant env lib settings salt suffix payload db)
                (grant_row env lib settings salt suffix payload db) db.credit_ledger db.tenants refl
                refl none apart h)
        ]

  -- If every balance is the sum of its ledger rows before a registration, and the uuid that it draws
  -- for its tenant is in no row of the ledger or of the tenants, then every balance is the sum of its
  -- ledger rows after it, the new tenant's included, whether the registration returns or raises.
  pub register-IsReconciled :
      (db : Db)
      → HasNoRows (env.uuid db.catalog.drawn) db.credit_ledger
      → All (λ t. env.uuid db.catalog.drawn ≢ t.id) db.tenants
      → IsReconciled db
      → IsReconciled (register env lib settings salt suffix payload db).1
  unfolding register
  register-IsReconciled db none apart h =
      transaction-IsReconciled (store_account env lib settings salt suffix payload) db h
        (stored-IsReconciled db none apart h)

-- ===== src/Models.antt =====
-- app/models.py: the tables, each a list of its rows, oldest first, and what a session does with
-- them: `add` and `flush` append a row after its unique constraint is checked, `rollback` brings
-- the tables back. A uuid that was drawn is not drawn again after a rollback.
mod Rows
pub use Rows.*
use lead_generation_api_zyla.Prelude.{
  ℕ, String, List, Bool, any, ◌&&◌, ◌==◌, ◌≡◌, refl, true, false, if◌then◌else◌, arith,
}
use lead_generation_api_zyla.Errors.{Raised, Result, ok, err, unexpected}
use lead_generation_api_zyla.Exec.{Exec}
use lead_generation_api_zyla.Schemas.{LeadFilters}

-- what one search writes about leads, and the number of uuids drawn so far
pub record Catalog : Type 0 where
  pub companies : List Company
  pub contacts : List Contact
  pub leads : List Lead
  pub drawn : ℕ

pub record Db : Type 0 where
  pub tenants : List Tenant
  pub users : List User
  pub api_keys : List ApiKey
  pub catalog : Catalog
  pub searches : List (Search LeadFilters)
  pub usage_records : List UsageRecord
  pub credit_ledger : List CreditLedger
  pub idempotency_records : List IdempotencyRecord
  pub background_jobs : List BackgroundJob
  pub suppressions : List Suppression
  pub data_subject_requests : List DataSubjectRequest
  pub billing_events : List BillingEvent

-- `IntegrityError`, as the database raises it at a flush or a commit
abbrev pub integrity_error : {A : Type 0} → Result A
integrity_error = err (unexpected "IntegrityError")

-- `UniqueConstraint("tenant_id", "reference_id")`
unfoldable pub ledger_taken : CreditLedger → List CreditLedger → Bool
ledger_taken row = any (λ r. (r.tenant_id == row.tenant_id) && (r.reference_id == row.reference_id))

-- Run an action; when it raises, roll the tables back.
abbrev pub rolled_back : {A : Type 0} → Db → Result A × Db → Result A × Db
rolled_back db (ok a, db') = (ok a, db')
rolled_back db (err e, db') =
    (err e, record db { catalog = record (db.catalog) { drawn = db'.catalog.drawn } })

unfoldable pub transaction : {A : Type 0} → Exec Db A → Exec Db A
transaction m db = rolled_back db (m db)

-- A transaction that returns has kept what its body wrote.
pub transaction-eq-ok :
    {A : Type 0} (m : Exec Db A) (db : Db) (a : A) (db' : Db)
    → transaction m db ≡ (ok a, db')
    → m db ≡ (ok a, db')
unfolding transaction
transaction-eq-ok m db a db' h = ground arith

-- A transaction that raises leaves every table as it was.
pub transaction-eq-err :
    {A : Type 0} (m : Exec Db A) (db : Db) (e : Raised) (db' : Db)
    → transaction m db ≡ (err e, db')
    → db' ≡ record db { catalog = record (db.catalog) { drawn = db'.catalog.drawn } }
unfolding transaction
transaction-eq-err m db e db' h = ground arith

-- A write that is refused where a test holds, and that has returned.
pub unless-eq-ok :
    {A : Type 0} (refused : Bool) (e : Raised) (s : Db) {s' t : Db} {a r : A}
    → ◌≡◌ {A = Result A × Db} (if refused then (err e, s) else (ok a, s')) (ok r, t)
    → (refused ≡ false) × (r ≡ a) × (t ≡ s')
unless-eq-ok true e s h = cc
unless-eq-ok false e s h = (refl, cc, cc)

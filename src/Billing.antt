-- ===== src/Billing.antt =====
-- The billing webhook of app/main.py: `_apply_billing_event`, which grants the credits of a verified
-- event in one transaction.
pub mod Webhook
pub mod Signed
pub mod Grants
pub mod Tests
use Prim.Native.String.{◌++◌ as str_append}
use lead_generation_api_zyla.Prelude.{
  String, Bool, true, false, not, Option, none, some, List, [], ◌∷◌, ◌++◌, ◌==◌, ◌&&◌,
  if◌then◌else◌, find, update_where,
}
use lead_generation_api_zyla.Prelude.Int.{ℤ, ◌+ℤ◌}
use lead_generation_api_zyla.Errors.{Raised, Result, ok, err, app_error}
use lead_generation_api_zyla.Exec.{Exec}
use lead_generation_api_zyla.Models.{
  Tenant, CreditLedger, BillingEvent, Db, ledger_taken, integrity_error, transaction,
}

-- `BillingWebhookResponse.status`
pub data Status : Type 0 where
  processed : Status
  duplicate : Status

pub record BillingWebhookResponse : Type 0 where
  pub event_id : String
  pub status : Status
  pub credits_granted : ℤ

-- the arguments of `_apply_billing_event`
pub record Event : Type 0 where
  pub provider : String
  pub event_id : String
  pub event_type : String
  pub tenant_id : String
  pub credits : ℤ

abbrev pub same_event : Event → BillingEvent → Bool
same_event e row = (row.provider == e.provider) && (row.event_id == e.event_id)

abbrev pub event_entry : Event → BillingEvent
event_entry e = record {
  provider = e.provider;
  event_id = e.event_id;
  tenant_id = e.tenant_id;
  event_type = e.event_type;
  credits_granted = e.credits;
}

unfoldable pub grant_reference : Event → String
grant_reference e = str_append "billing:" (str_append e.provider (str_append ":" e.event_id))

abbrev pub grant_entry : Event → CreditLedger
grant_entry e = record {
  tenant_id = e.tenant_id;
  amount = e.credits;
  reason = "billing_grant";
  reference_id = grant_reference e;
  metadata_json = ("event_type", e.event_type) ∷ [];
}

-- `tenant.credits_balance += credits`
abbrev pub grant : ℤ → Tenant → Tenant
grant credits t = record t { credits_balance = t.credits_balance +ℤ credits }

abbrev pub tenant_not_found : Raised
tenant_not_found = app_error "TENANT_NOT_FOUND" "Tenant was not found or is inactive." 404

-- the rows of a grant, and the commit, at which a ledger reference may turn out to be taken
abbrev pub book : Event → Exec Db BillingWebhookResponse
book e db = if ledger_taken (grant_entry e) db.credit_ledger then (integrity_error, db) else (
  ok (record { event_id = e.event_id; status = processed; credits_granted = e.credits }),
  record db {
    billing_events = db.billing_events ++ event_entry e ∷ [];
    tenants = update_where (λ t. t.id == e.tenant_id) (grant e.credits) db.tenants;
    credit_ledger = db.credit_ledger ++ grant_entry e ∷ [];
  },
)

abbrev pub grant_to : Event → Option Tenant → Exec Db BillingWebhookResponse
grant_to e none db = (err tenant_not_found, db)
grant_to e (some t) db = if t.status == "ACTIVE" then book e db else (err tenant_not_found, db)

-- the look-up of the event, and what follows it
abbrev pub unless_seen : Event → Option BillingEvent → Exec Db BillingWebhookResponse
unless_seen e (some row) db = (
  ok (record { event_id = e.event_id; status = duplicate; credits_granted = row.credits_granted }),
  db,
)
unless_seen e none db = grant_to e (find (λ t. t.id == e.tenant_id) db.tenants) db

-- `_apply_billing_event`
pub apply_billing_event : Event → Exec Db BillingWebhookResponse
apply_billing_event e = transaction (λ db. unless_seen e (find (same_event e) db.billing_events) db)

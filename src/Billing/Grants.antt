-- ===== src/Billing/Grants.antt =====
-- About `_apply_billing_event` of app/main.py: repeated deliveries, and the ledger.
use lead_generation_api_zyla.Prelude.{
  true, ◌==◌, ◌≡◌, refl, sym, subst, Option, none, some, [], ◌∷◌, ◌++◌, find, find-append,
  if◌then◌else◌, arith, eq_iff, Bool-cases, inl, inr, update_where,
}
use lead_generation_api_zyla.Errors.{Result, ok, err}
use lead_generation_api_zyla.Models.{
  Tenant, BillingEvent, Db, ledger_taken, transaction, transaction-eq-ok, transaction-eq-err,
}
use lead_generation_api_zyla.Ledger.{IsReconciled, move-IsReconciled}
use lead_generation_api_zyla.Billing.{
  duplicate, BillingWebhookResponse, Event, same_event, event_entry, grant_entry, grant, book,
  grant_to, unless_seen, tenant_not_found, apply_billing_event,
}

-- what an event that is processed writes
pub record Granted (e : Event) (db : Db) (r : BillingWebhookResponse) (db' : Db) : Type 0 where
  pub is_new : find (same_event e) db.billing_events ≡ none
  pub credits : r.credits_granted ≡ e.credits
  pub events : db'.billing_events ≡ db.billing_events ++ event_entry e ∷ []
  pub tenants : db'.tenants ≡ update_where (λ t. t.id == e.tenant_id) (grant e.credits) db.tenants
  pub ledger : db'.credit_ledger ≡ db.credit_ledger ++ grant_entry e ∷ []

book-Granted :
    (e : Event) (db : Db) (r : BillingWebhookResponse) (db' : Db)
    → find (same_event e) db.billing_events ≡ none
    → book e db ≡ (ok r, db')
    → Granted e db r db'
book-Granted e db r db' new h = elim (Bool-cases (ledger_taken (grant_entry e) db.credit_ledger)) [
  | inl t ↦ ground arith
  | inr f ↦ record {
    is_new = new;
    credits = ground arith;
    events = ground arith;
    tenants = ground arith;
    ledger = ground arith;
  }
]

grant_to-Granted :
    (e : Event) (db : Db) (found : Option Tenant) (r : BillingWebhookResponse) (db' : Db)
    → find (same_event e) db.billing_events ≡ none
    → grant_to e found db ≡ (ok r, db')
    → Granted e db r db'
grant_to-Granted e db none r db' new h = cc
grant_to-Granted e db (some t) r db' new h = elim (Bool-cases (t.status == "ACTIVE")) [
  | inl a ↦
      book-Granted e db r db' new
        (subst (λ b. (if b then book e db else (err tenant_not_found, db)) ≡ (ok r, db')) a h)
  | inr f ↦ ground arith
]

-- The two ways in which an event is answered.
pub data Outcome (e : Event) (db : Db) (r : BillingWebhookResponse) (db' : Db) : Type 0 where
  seen :
      (row : BillingEvent)
      → find (same_event e) db.billing_events ≡ some row
      → r.credits_granted ≡ row.credits_granted
      → db' ≡ db
      → Outcome e db r db'
  granted : Granted e db r db' → Outcome e db r db'

unless_seen-Outcome :
    (e : Event) (db : Db) (found : Option BillingEvent) (r : BillingWebhookResponse) (db' : Db)
    → find (same_event e) db.billing_events ≡ found
    → unless_seen e found db ≡ (ok r, db')
    → Outcome e db r db'
unless_seen-Outcome e db none r db' f h =
    granted (grant_to-Granted e db (find (λ t. t.id == e.tenant_id) db.tenants) r db' f h)
unless_seen-Outcome e db (some row) r db' f h = seen row f (ground arith) (ground arith)

apply-Outcome :
    (e : Event) (db : Db) (r : BillingWebhookResponse) (db' : Db)
    → apply_billing_event e db ≡ (ok r, db')
    → Outcome e db r db'
unfolding apply_billing_event
apply-Outcome e db r db' h =
    unless_seen-Outcome e db (find (same_event e) db.billing_events) r db' refl
      (transaction-eq-ok _ db r db' h)

same_event_refl :
    (e f : Event)
    → f.provider ≡ e.provider
    → f.event_id ≡ e.event_id
    → same_event f (event_entry e) ≡ true
same_event_refl e f p i = ground (arith, eq_iff e.provider f.provider, eq_iff e.event_id f.event_id)

same_event-cong :
    (e f : Event) → f.provider ≡ e.provider → f.event_id ≡ e.event_id → same_event f ≡ same_event e
same_event-cong e f p i = rw (p, i) refl

recorded :
    (e : Event) (db : Db) (r : BillingWebhookResponse) (db' : Db)
    → Outcome e db r db'
    → (row : BillingEvent) × (find (same_event e) db'.billing_events ≡ some row)
      × (row.credits_granted ≡ r.credits_granted)
recorded e db r db' (seen row f c d) = (row, rw d f, sym c)
recorded e db r db' (granted g) = (
  event_entry e,
  rw g.events (
      find-append (same_event e) db.billing_events (event_entry e) g.is_new
        (same_event_refl e e refl refl)),
  sym g.credits,
)

-- When a billing event has been answered, as processed or as a duplicate, then every later delivery
-- with its provider and event id, whatever type, tenant or credits it names, is answered as a
-- duplicate with the credits of the first answer, and changes no table.
pub billing_once :
    (first again : Event) (db db' : Db) (r : BillingWebhookResponse)
    → apply_billing_event first db ≡ (ok r, db')
    → again.provider ≡ first.provider
    → again.event_id ≡ first.event_id
    → apply_billing_event again db' ≡ (
      ok (record {
        event_id = again.event_id;
        status = duplicate;
        credits_granted = r.credits_granted;
      }),
      db',
    )
unfolding apply_billing_event transaction
billing_once first again db db' r h p i =
    let (row, found, credits) = recorded first db r db' (apply-Outcome first db r db' h) in
    rw (same_event-cong first again p i, found, credits) refl

outcome-IsReconciled :
    (e : Event) (db : Db) (p : Result BillingWebhookResponse × Db)
    → apply_billing_event e db ≡ p
    → IsReconciled db
    → IsReconciled p.1
unfolding apply_billing_event
outcome-IsReconciled e db (ok r, db') h books = elim (apply-Outcome e db r db' h) [
  | seen row f c d ↦ rw d books
  | granted g ↦
      rw (g.tenants, g.ledger)
        (move-IsReconciled e.tenant_id (grant e.credits) db.credit_ledger (grant_entry e) refl
          (λ t. refl) (λ t. refl) db.tenants books)
]
outcome-IsReconciled e db (err x, db') h books = rw (transaction-eq-err _ db x db' h) books

-- If every balance is the sum of its ledger rows before a billing event, so is every balance after
-- it, whether the event is granted, a duplicate or refused.
pub billing-IsReconciled :
    (e : Event) (db : Db) → IsReconciled db → IsReconciled (apply_billing_event e db).1
billing-IsReconciled e db books = outcome-IsReconciled e db _ refl books

-- ===== src/Billing/Tests.antt =====
-- Concrete runs of a billing event.
use lead_generation_api_zyla.Prelude.{
  String, Option, none, some, ◌≡◌, refl, ◌⊎◌, ◌==◌, if◌then◌else◌,
}
use lead_generation_api_zyla.Prelude.Int.{ℤ, pos}
use lead_generation_api_zyla.Errors.{Raised, ok, err}
use lead_generation_api_zyla.Models.{Db, transaction, ledger_taken}
use lead_generation_api_zyla.Ledger.{IsReconciled}
use lead_generation_api_zyla.Billing.{
  Event, processed, duplicate, apply_billing_event, grant_reference,
}
use lead_generation_api_zyla.Billing.Grants.{billing_once, billing-IsReconciled}
use lead_generation_api_zyla.Json.{Json, num, str, obj, field, end}
use lead_generation_api_zyla.Prelude.Text.{take_text}
use lead_generation_api_zyla.Security.{is_ascii}
use lead_generation_api_zyla.Billing.Webhook.{read_webhook, billing_webhook}
use lead_generation_api_zyla.Billing.Signed.{IsAccepted, webhook_is_signed}
use lead_generation_api_zyla.Search.Tests.{demo_env, demo_db, demo-IsReconciled}

abbrev bought : Event
bought = record {
  provider = "pay";
  event_id = "e1";
  event_type = "purchase";
  tenant_id = "t1";
  credits = pos 100;
}

-- another delivery of it, for more
abbrev greedy : Event
greedy = record bought { credits = pos 500 }

abbrev paid : Db
paid = (apply_billing_event bought demo_db).1

paid_run :
    apply_billing_event bought demo_db
    ≡ (ok (record { event_id = "e1"; status = processed; credits_granted = pos 100 }), paid)
unfolding apply_billing_event transaction ledger_taken grant_reference
paid_run = refl

billing_once_example :
    apply_billing_event greedy paid
    ≡ (ok (record { event_id = "e1"; status = duplicate; credits_granted = pos 100 }), paid)
billing_once_example =
    billing_once bought greedy demo_db paid
      (record { event_id = "e1"; status = processed; credits_granted = pos 100 }) paid_run refl refl

billing-IsReconciled_example : IsReconciled paid
billing-IsReconciled_example = billing-IsReconciled bought demo_db demo-IsReconciled

-- a decoder of one body
abbrev decode : String → Option Json
decode body =
    if body == "bought"
    then some (
        obj (
          field "provider" (str "pay") (
            field "event_id" (str "e1") (
              field "event_type" (str "purchase")
                (field "tenant_id" (str "t1") (field "credits" (num (pos 100)) end))))))
    else none

abbrev parse_int : String → Option ℤ
parse_int text = none

abbrev signature : Option String
signature = some "sha256=s3cretbought"

webhook_run :
    billing_webhook demo_env "s3cret" decode parse_int signature "bought" demo_db
    ≡ apply_billing_event bought demo_db
unfolding billing_webhook read_webhook is_ascii take_text
webhook_run = refl

webhook_is_signed_example :
    ((e : Raised) × (billing_webhook demo_env "s3cret" decode parse_int signature "bought" demo_db
        ≡ (err e, demo_db)))
    ⊎ ((event : Event) × IsAccepted demo_env "s3cret" decode parse_int signature "bought" event
        × (billing_webhook demo_env "s3cret" decode parse_int signature "bought" demo_db
            ≡ apply_billing_event event demo_db))
webhook_is_signed_example =
    webhook_is_signed demo_env "s3cret" decode parse_int signature "bought" demo_db

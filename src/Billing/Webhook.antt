-- ===== src/Billing/Webhook.antt =====
-- `billing_webhook` of app/main.py. The body is a text; the JSON decoder and `int` of a text are
-- parameters.
use Prim.Native.String.{◌++◌ as str_append}
use lead_generation_api_zyla.Prelude.{ℕ, String, not, ◌||◌, ◌==◌, Option, none, some, if◌then◌else◌}
use lead_generation_api_zyla.Prelude.Int.{ℤ, pos, ltb_ℤ, leb_ℤ}
use lead_generation_api_zyla.Prelude.Text.{take_text}
use lead_generation_api_zyla.Errors.{
  Raised, Result, ok, err, app_error, authentication, raise_if, ◌>>=◌, ◌>>◌,
}
use lead_generation_api_zyla.Env.{Env, text_of}
use lead_generation_api_zyla.Json.{Json, null, bool, num, str, obj, Fields, get, truthy}
use lead_generation_api_zyla.Exec.{Exec}
use lead_generation_api_zyla.Models.{Db}
use lead_generation_api_zyla.Security.{constant_time_equal}
use lead_generation_api_zyla.Billing.{Event, BillingWebhookResponse, apply_billing_event}

abbrev pub invalid_webhook : String → Raised
invalid_webhook message = app_error "INVALID_WEBHOOK" message 422

abbrev pub as_dict : Option Json → Result Fields
as_dict none = err (invalid_webhook "Webhook body must be valid JSON.")
as_dict (some (obj fields)) = ok fields
as_dict (some _) = err (invalid_webhook "Webhook body must be a JSON object.")

-- `settings.billing_webhook_secret`, `request.json()` and `int(text)`
module _ (env : Env) (secret : String) (decode : String → Option Json)
    (parse_int : String → Option ℤ) where
  abbrev pub expected : String → String
  expected body = str_append "sha256=" (env.hmac_sha256 secret body)

  abbrev pub check_signature : Option String → String → Result (Unit {0})
  check_signature none body = err (authentication "invalid webhook signature")
  check_signature (some signature) body = do
    same ← constant_time_equal signature (expected body)
    raise_if (not same) (authentication "invalid webhook signature")

  -- `str(payload.get(key) or default)[:limit]`
  abbrev pub text_field : Fields → String → String → ℕ → String
  text_field payload key default limit =
      let v = get payload key in take_text limit (if truthy v then text_of env v else default)

  abbrev pub int_of_text : Option ℤ → Result ℤ
  int_of_text none = err (invalid_webhook "credits must be an integer.")
  int_of_text (some n) = ok n

  -- `int(v or 0)`
  abbrev pub int_of : Json → Result ℤ
  int_of null = ok (pos 0)
  int_of (bool b) = ok (if b then pos 1 else pos 0)
  int_of (num n) = ok n
  int_of (str s) = if s == "" then ok (pos 0) else int_of_text (parse_int s)
  int_of v = if truthy v then err (invalid_webhook "credits must be an integer.") else ok (pos 0)

  abbrev pub checked_event : Event → Result Event
  checked_event e =
      if (e.event_id == "")
        || ((e.event_type == "")
            || ((e.tenant_id == "") || (leb_ℤ e.credits (pos 0) || ltb_ℤ (pos 1000000) e.credits)))
      then err (invalid_webhook "Webhook event fields are invalid.")
      else ok e

  abbrev pub event_at : Fields → ℤ → Event
  event_at payload credits = record {
    provider = text_field payload "provider" "generic" 80;
    event_id = text_field payload "event_id" "" 200;
    event_type = text_field payload "event_type" "" 100;
    tenant_id = text_field payload "tenant_id" "" 36;
    credits = credits;
  }

  abbrev pub event_of : Fields → Result Event
  event_of payload = do
    credits ← int_of (get payload "credits")
    checked_event (event_at payload credits)

  -- everything before the grant
  unfoldable pub read_webhook : Option String → String → Result Event
  read_webhook signature body = do
    raise_if (secret == "")
        (app_error "BILLING_DISABLED" "Billing webhooks are not configured." 503)
    check_signature signature body
    payload ← as_dict (decode body)
    event_of payload

  abbrev pub grant_event : Result Event → Exec Db BillingWebhookResponse
  grant_event (err e) db = (err e, db)
  grant_event (ok event) db = apply_billing_event event db

  -- `billing_webhook`
  unfoldable pub billing_webhook : Option String → String → Exec Db BillingWebhookResponse
  billing_webhook signature body db = grant_event (read_webhook signature body) db

-- ===== src/Billing/Signed.antt =====
-- About `billing_webhook` of app/main.py: which webhooks reach the ledger.
use Prim.Native.String.{count}
use lead_generation_api_zyla.Prelude.{
  ◌≤◌, String, ◌==◌, ◌≡◌, ◌≢◌, refl, ap, Option, none, some, ◌⊎◌, inl, inr, arith, eq_iff,
}
use lead_generation_api_zyla.Prelude.Int.{ℤ, pos, ◌≤ℤ◌}
use lead_generation_api_zyla.Prelude.Text.{count-take_text-le}
use lead_generation_api_zyla.Errors.{Raised, Result, ok, err, >>=-eq-ok, raise_if-then}
use lead_generation_api_zyla.Env.{Env}
use lead_generation_api_zyla.Json.{Json, Fields, get}
use lead_generation_api_zyla.Models.{Db}
use lead_generation_api_zyla.Billing.{Event, apply_billing_event}
use lead_generation_api_zyla.Billing.Webhook.{
  expected, check_signature, as_dict, int_of, event_at, event_of, read_webhook, grant_event,
  billing_webhook,
}

-- what a grant may be asked for: named, within the widths of the columns, and for a positive amount
pub record IsValid (e : Event) : Type 0 where
  pub event_id : e.event_id ≢ ""
  pub event_type : e.event_type ≢ ""
  pub tenant_id : e.tenant_id ≢ ""
  pub positive : pos 1 ≤ℤ e.credits
  pub bounded : e.credits ≤ℤ pos 1000000
  pub provider_fits : count e.provider ≤ 80
  pub event_id_fits : count e.event_id ≤ 200
  pub event_type_fits : count e.event_type ≤ 100
  pub tenant_id_fits : count e.tenant_id ≤ 36

module _ (env : Env) (secret : String) (decode : String → Option Json)
    (parse_int : String → Option ℤ) where
  event-IsValid :
      (payload : Fields) (f : Event)
      → event_of env secret decode parse_int payload ≡ ok f
      → IsValid f
  event-IsValid payload f h =
      let (credits, e, k) =
        >>=-eq-ok (int_of env secret decode parse_int (get payload "credits")) _ h in
      let event = event_at env secret decode parse_int payload credits in
      let same : event ≡ f = ground (arith, k) in
      rw (← same) (record {
        event_id = λ q. ground (arith, k, eq_iff event.event_id "");
        event_type = λ q. ground (arith, k, eq_iff event.event_type "");
        tenant_id = λ q. ground (arith, k, eq_iff event.tenant_id "");
        positive = ground (arith, k);
        bounded = ground (arith, k);
        provider_fits = count-take_text-le 80 _;
        event_id_fits = count-take_text-le 200 _;
        event_type_fits = count-take_text-le 100 _;
        tenant_id_fits = count-take_text-le 36 _;
      })

  check_signature-eq :
      (signature : Option String) (body : String)
      → check_signature env secret decode parse_int signature body ≡ ok tt
      → signature ≡ some (expected env secret decode parse_int body)
  check_signature-eq none body h = cc
  check_signature-eq (some signature) body h =
      ap some (ground (arith, eq_iff signature (expected env secret decode parse_int body)))

  -- what was read of a webhook that is accepted
  abbrev pub IsAccepted : Option String → String → Event → Type 0
  IsAccepted signature body event =
      (secret ≢ "") × (signature ≡ some (expected env secret decode parse_int body)) × IsValid event

  read-IsAccepted :
      (signature : Option String) (body : String) (event : Event)
      → read_webhook env secret decode parse_int signature body ≡ ok event
      → IsAccepted signature body event
  unfolding read_webhook
  read-IsAccepted signature body event h =
      let (set, rest) = raise_if-then (secret == "") _ h in
      let (u, signed, more) =
        >>=-eq-ok (check_signature env secret decode parse_int signature body) _ rest in
      let (payload, dict, last) = >>=-eq-ok (as_dict (decode body)) _ more in
      (
        (λ e. ground (arith, eq_iff secret "")),
        check_signature-eq signature body (signed),
        event-IsValid payload event last,
      )

  -- A billing webhook is either refused, with no table changed, or is granted as an event that came with
  -- the signature of its body under the secret, which is set, that has an id, a type and a tenant, and
  -- that is for 1 to 1,000,000 credits.
  pub webhook_is_signed :
      (signature : Option String) (body : String) (db : Db)
      → ((e : Raised) × (billing_webhook env secret decode parse_int signature body db
            ≡ (err e, db)))
        ⊎ ((event : Event) × IsAccepted signature body event
            × (billing_webhook env secret decode parse_int signature body db
                ≡ apply_billing_event event db))
  unfolding billing_webhook
  webhook_is_signed signature body db =
      go (read_webhook env secret decode parse_int signature body) refl
    where
      go :
          (q : Result Event)
          → read_webhook env secret decode parse_int signature body ≡ q
          → ((e : Raised) × (grant_event env secret decode parse_int q db ≡ (err e, db)))
            ⊎ ((event : Event) × IsAccepted signature body event
                × (grant_event env secret decode parse_int q db ≡ apply_billing_event event db))
      go (err e) h = inl (e, refl)
      go (ok event) h = inr (event, read-IsAccepted signature body event h, refl)

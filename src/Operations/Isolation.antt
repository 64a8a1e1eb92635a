-- ===== src/Operations/Isolation.antt =====
-- About the routes of app/main.py that only read: what of the tables an answer depends on.
use lead_generation_api_zyla.Prelude.{
  String, Bool, true, false, ◌&&◌, ◌==◌, ◌≡◌, refl, ap, Option, none, some, List, [], ◌∷◌, find,
  keep, Bool-cases, inl, inr,
}
use lead_generation_api_zyla.Errors.{ok}
use lead_generation_api_zyla.Env.{Env}
use lead_generation_api_zyla.Models.{Tenant, Db}
use lead_generation_api_zyla.Security.{Library, AuthContext}
use lead_generation_api_zyla.Accounts.{actor, user_response, profile, me, list_keys}
use lead_generation_api_zyla.Operations.{is_job_of, list_privacy_requests, get_job, usage}

module _ {ℓ} {A : Type ℓ} where
  keep-keep : (p : A → Bool) (xs : List A) → keep p (keep p xs) ≡ keep p xs
  keep-keep p [] = refl
  keep-keep p (x ∷ xs) = elim (Bool-cases (p x)) [
    | inl e ↦ rw (e, e) (ap (λ ys. x ∷ ys) (keep-keep p xs))
    | inr e ↦ rw e (keep-keep p xs)
  ]

  find-keep :
      (p q : A → Bool) (xs : List A)
      → ((x : A) → q x ≡ true → p x ≡ true)
      → find q (keep p xs) ≡ find q xs
  find-keep p q [] h = refl
  find-keep p q (x ∷ xs) h = elim (Bool-cases (q x)) [
    | inl e ↦ rw (h x e, e) refl
    | inr e ↦ elim (Bool-cases (p x)) [
      | inl f ↦ rw (f, e) (find-keep p q xs h)
      | inr f ↦ rw (f, e) (find-keep p q xs h)
    ]
  ]

both : (a b : Bool) → a && b ≡ true → b ≡ true
both true b h = h
both false b h = cc

-- the rows of one tenant, in every table; a record of an idempotency key names no tenant, and none stays
abbrev pub rows_of : String → Db → Db
rows_of tenant_id db = record db {
  tenants = keep (λ t. t.id == tenant_id) db.tenants;
  users = keep (λ u. u.tenant_id == tenant_id) db.users;
  api_keys = keep (λ k. k.tenant_id == tenant_id) db.api_keys;
  catalog = record db.catalog {
    companies = keep (λ c. c.tenant_id == tenant_id) db.catalog.companies;
    contacts = keep (λ c. c.tenant_id == tenant_id) db.catalog.contacts;
    leads = keep (λ l. l.tenant_id == tenant_id) db.catalog.leads;
  };
  searches = keep (λ s. s.tenant_id == tenant_id) db.searches;
  usage_records = keep (λ r. r.tenant_id == tenant_id) db.usage_records;
  credit_ledger = keep (λ r. r.tenant_id == tenant_id) db.credit_ledger;
  idempotency_records = [];
  background_jobs = keep (is_job_of tenant_id) db.background_jobs;
  suppressions = keep (λ r. r.tenant_id == tenant_id) db.suppressions;
  data_subject_requests = keep (λ e. e.tenant_id == tenant_id) db.data_subject_requests;
  billing_events = keep (λ e. e.tenant_id == tenant_id) db.billing_events;
}

module _ (env : Env) (lib : Library) where
  own_actor :
      (context : AuthContext) (db : Db) (id : Option String)
      → actor env lib (record context { actor_id = id }) (rows_of context.tenant_id db).users
        ≡ actor env lib (record context { actor_id = id }) db.users
  own_actor context db none = refl
  own_actor context db (some id) = elim (Bool-cases (id == "")) [
    | inl e ↦ rw e refl
    | inr e ↦ rw e (
        find-keep (λ u. u.tenant_id == context.tenant_id)
          (λ u. (u.id == id) && (u.tenant_id == context.tenant_id)) db.users
          (λ u. both (u.id == id) (u.tenant_id == context.tenant_id)))
  ]

  own_profile :
      (context : AuthContext) (db : Db) (tenant : Option Tenant)
      → profile env lib context (rows_of context.tenant_id db).users tenant
        ≡ profile env lib context db.users tenant
  own_profile context db none = refl
  own_profile context db (some t) =
      ap
        (λ u. ok (record {
          user = user_response env lib context t u;
          tenant = record {
            id = t.id;
            name = t.name;
            slug = t.slug;
            status = t.status;
            credits_remaining = t.credits_balance;
          };
        }))
        (own_actor context db context.actor_id)

  -- Tenants are isolated in what they read: the profile, the list of keys, the list of privacy requests,
  -- a job and the usage totals are answered as they would be if the tables had the rows of the caller's
  -- tenant only.
  pub reads_are_isolated :
      (context : AuthContext) (db : Db) (job_id request_id : String)
      → let own = rows_of context.tenant_id db in
        (me env lib context own ≡ me env lib context db)
        × (list_keys context own ≡ list_keys context db)
        × (list_privacy_requests context own ≡ list_privacy_requests context db)
        × (get_job job_id context own ≡ get_job job_id context db)
        × (usage env request_id context own ≡ usage env request_id context db)
  unfolding me list_keys list_privacy_requests get_job usage
  reads_are_isolated context db job_id request_id =
      let t = context.tenant_id in
      (
        rw (find-keep (λ x. x.id == t) (λ x. x.id == t) db.tenants (λ x e. e))
            (own_profile context db _),
        rw (keep-keep (λ k. k.tenant_id == t) db.api_keys) refl,
        rw (keep-keep (λ e. e.tenant_id == t) db.data_subject_requests) refl,
        rw
            (find-keep (is_job_of t) (λ j. (j.id == job_id) && is_job_of t j) db.background_jobs
              (λ j. both (j.id == job_id) (is_job_of t j)))
            refl,
        rw
            (
              keep-keep (λ r. r.tenant_id == t) db.usage_records,
              keep-keep (λ s. s.tenant_id == t) db.searches,
            )
            refl,
      )

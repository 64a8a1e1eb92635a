-- ===== src/Zyla/Tenancy.antt =====
-- About `ensure_zyla_tenant` of app/zyla.py: repeated calls.
use lead_generation_api_zyla.Prelude.{
  ◌==◌, ◌≡◌, refl, Option, none, some, [], ◌∷◌, ◌++◌, find, find-append, arith, eq_iff, Bool-cases,
  inl, inr,
}
use lead_generation_api_zyla.Errors.{ok}
use lead_generation_api_zyla.Models.{Tenant, Db, ledger_taken}
use lead_generation_api_zyla.Settings.{Settings}
use lead_generation_api_zyla.Zyla.{
  zyla_tenant, reserve_entry, check_tenant, commit_tenant, provision, check_or_provision,
  ensure_zyla_tenant,
}

module _ (s : Settings) where
  -- the tenant that is found afterwards, and that the checks accept it and write nothing
  abbrev Settled : Tenant → Db → Type 0
  Settled t db =
      (find (λ x. x.id == s.zyla_tenant_id) db.tenants ≡ some t)
      × (check_tenant s t db ≡ (ok t, db))

  checked-Settled :
      (x : Tenant) (db : Db) (t : Tenant) (db' : Db)
      → find (λ y. y.id == s.zyla_tenant_id) db.tenants ≡ some x
      → check_tenant s x db ≡ (ok t, db')
      → Settled t db'
  checked-Settled x db t db' f h = elim (Bool-cases (x.slug == s.zyla_tenant_slug)) [
    | inr e ↦ ground arith
    | inl e ↦ elim (Bool-cases (x.status == "ACTIVE")) [
      | inr k ↦ ground arith
      | inl k ↦
          let same : x ≡ t = ground arith in
          let still : db ≡ db' = ground arith in rw (← same, ← still) (f, ground arith)
    ]
  ]

  commit-Settled :
      (db : Db) (t : Tenant) (db' : Db)
      → find (λ y. y.id == s.zyla_tenant_id) db.tenants ≡ none
      → commit_tenant s db ≡ (ok t, db')
      → Settled t db'
  commit-Settled db t db' f h =
      elim (Bool-cases (ledger_taken (reserve_entry s) db.credit_ledger)) [
        | inl e ↦ ground arith
        | inr e ↦
            let same : zyla_tenant s ≡ t = ground arith in
            let rows : db'.tenants ≡ db.tenants ++ zyla_tenant s ∷ [] = ground arith in
            rw (← same, rows)
              (
                find-append (λ y. y.id == s.zyla_tenant_id) db.tenants (zyla_tenant s) f
                    (ground (arith, eq_iff s.zyla_tenant_id s.zyla_tenant_id)),
                ground (arith, eq_iff s.zyla_tenant_slug s.zyla_tenant_slug),
              )
      ]

  provision-Settled :
      (other : Option Tenant) (db : Db) (t : Tenant) (db' : Db)
      → find (λ y. y.id == s.zyla_tenant_id) db.tenants ≡ none
      → provision s other db ≡ (ok t, db')
      → Settled t db'
  provision-Settled none db t db' f h = commit-Settled db t db' f h
  provision-Settled (some other) db t db' f h = cc

  ensured-Settled :
      (found : Option Tenant) (db : Db) (t : Tenant) (db' : Db)
      → find (λ y. y.id == s.zyla_tenant_id) db.tenants ≡ found
      → check_or_provision s found db ≡ (ok t, db')
      → Settled t db'
  ensured-Settled none db t db' f h =
      provision-Settled (find (λ y. y.slug == s.zyla_tenant_slug) db.tenants) db t db' f h
  ensured-Settled (some x) db t db' f h = checked-Settled x db t db' f h

  -- When the marketplace's tenant has been provisioned or found, it is found again: the next call
  -- returns the same tenant and writes nothing, so that the starting credits are granted once.
  pub provisioned_once :
      (db : Db) (t : Tenant) (db' : Db)
      → ensure_zyla_tenant s db ≡ (ok t, db')
      → ensure_zyla_tenant s db' ≡ (ok t, db')
  unfolding ensure_zyla_tenant
  provisioned_once db t db' h =
      let (found, checked) =
        ensured-Settled (find (λ y. y.id == s.zyla_tenant_id) db.tenants) db t db' refl h in
      rw found checked

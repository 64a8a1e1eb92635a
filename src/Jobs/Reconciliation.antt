-- ===== src/Jobs/Reconciliation.antt =====
-- About `run_credit_reconciliation` of app/jobs.py, against the accounting contract of Ledger.
use lead_generation_api_zyla.Prelude.{
  ℕ, String, Bool, true, false, not, ◌==◌, ◌≡◌, ◌↔◌, refl, subst, Option, none, some, List, [], ◌∷◌,
  find, keep, length, All, any, arith, eq_iff, Bool-cases, inl, inr,
}
use lead_generation_api_zyla.Prelude.Int.{ℤ, eqb_ℤ, eqb_ℤ-refl, eqb_ℤ-eq}
use lead_generation_api_zyla.Prelude.Text.{mem}
use lead_generation_api_zyla.Models.{Tenant, CreditLedger, Db}
use lead_generation_api_zyla.Ledger.{IsReconciled, AgreesWith, ledger_sum}
use lead_generation_api_zyla.Jobs.{
  Report, cleaned, reconciled, groups, differs, run_credit_reconciliation,
}

-- A group is among those of the ledger when a row has its tenant.
mem-groups :
    (id : String) (ledger : List CreditLedger)
    → any (λ r. r.tenant_id == id) ledger ≡ true
    → mem id (groups ledger) ≡ true
unfolding groups
mem-groups id [] h = cc
mem-groups id (r ∷ ledger) h = elim (Bool-cases (mem r.tenant_id (groups ledger))) [
  | inl e ↦ rw e (elim (Bool-cases (r.tenant_id == id)) [
    | inl s ↦ subst (λ x. mem x (groups ledger) ≡ true) (ground (arith, eq_iff r.tenant_id id)) e
    | inr s ↦ mem-groups id ledger (ground arith)
  ])
  | inr e ↦ rw e (ground (arith, mem-groups id ledger, Bool-cases (r.tenant_id == id)))
]

groups-mem :
    (id : String) (ledger : List CreditLedger)
    → mem id (groups ledger) ≡ true
    → any (λ r. r.tenant_id == id) ledger ≡ true
unfolding groups
groups-mem id [] h = cc
groups-mem id (r ∷ ledger) h = ground (
  arith,
  groups-mem id ledger,
  Bool-cases (r.tenant_id == id),
  Bool-cases (mem r.tenant_id (groups ledger)),
)

none_of :
    (p : String → Bool) (id : String) (ids : List String)
    → length (keep p ids) ≡ 0
    → mem id ids ≡ true
    → p id ≡ false
none_of p id [] h m = cc
none_of p id (x ∷ ids) h m = elim (Bool-cases (p x)) [
  | inl e ↦ ground arith
  | inr e ↦ elim (Bool-cases (x == id)) [
    | inl s ↦ subst (λ y. p y ≡ false) (ground (arith, eq_iff x id)) e
    | inr s ↦ none_of p id ids (ground arith) (ground arith)
  ]
]

none_kept :
    (p : String → Bool) (ids : List String)
    → ((id : String) → mem id ids ≡ true → p id ≡ false)
    → length (keep p ids) ≡ 0
none_kept p [] h = refl
none_kept p (id ∷ ids) h =
    rw (h id (ground (arith, eq_iff id id))) (none_kept p ids (λ k m. h k (ground arith)))

-- what it means for a tenant that was looked up to be in order
abbrev pub Agrees : ℤ → Option Tenant → Type 0
Agrees sum none = Unit
Agrees sum (some t) = t.credits_balance ≡ sum

-- the tenant of an id, if there is one, has the sum of its rows as its balance
pub IsInOrder : Db → String → Type 0
IsInOrder db id = Agrees (ledger_sum id db.credit_ledger) (find (λ t. t.id == id) db.tenants)

abbrev test : ℤ → Option Tenant → Bool
test sum none = false
test sum (some t) = not (eqb_ℤ t.credits_balance sum)

test-false : (sum : ℤ) (found : Option Tenant) → Agrees sum found → test sum found ≡ false
test-false sum none h = refl
test-false sum (some t) h = rw (h, eqb_ℤ-refl sum) refl

false-Agrees : (sum : ℤ) (found : Option Tenant) → test sum found ≡ false → Agrees sum found
false-Agrees sum none h = tt
false-Agrees sum (some t) h =
    eqb_ℤ-eq t.credits_balance sum (agreed (eqb_ℤ t.credits_balance sum) h)
  where
    agreed : (b : Bool) → not b ≡ false → b ≡ true
    agreed true k = refl
    agreed false k = cc

abbrev pub mismatches : Report → ℕ
mismatches (cleaned _ _ _) = 0
mismatches (reconciled _ n) = n

All-rows :
    (P : String → Type 0) (rows : List CreditLedger)
    → ((id : String) → any (λ r. r.tenant_id == id) rows ≡ true → P id)
    → All (λ r. P r.tenant_id) rows
All-rows P [] h = tt
All-rows P (r ∷ rows) h = (
  h r.tenant_id (ground (arith, eq_iff r.tenant_id r.tenant_id)),
  All-rows P rows (λ id m. h id (ground (arith))),
)

rows-All :
    (P : String → Type 0) (id : String) (rows : List CreditLedger)
    → All (λ r. P r.tenant_id) rows
    → any (λ r. r.tenant_id == id) rows ≡ true
    → P id
rows-All P id [] h m = cc
rows-All P id (r ∷ rows) (p, h) m = elim (Bool-cases (r.tenant_id == id)) [
  | inl e ↦ subst P (ground (arith, eq_iff r.tenant_id id)) p
  | inr e ↦ rows-All P id rows h (ground arith)
]

-- The reconciliation job reports no mismatch exactly if, for every row of the ledger, the balance of
-- the row's tenant, if there is such a tenant, is the sum of that tenant's rows.
pub reconciliation_finds :
    (db : Db)
    → (mismatches (run_credit_reconciliation db) ≡ 0)
      ↔ All (λ r. IsInOrder db r.tenant_id) db.credit_ledger
unfolding run_credit_reconciliation IsInOrder
reconciliation_finds db =
    let ledger = db.credit_ledger in
    (
      λ h. All-rows (IsInOrder db) ledger (λ id m.
          false-Agrees (ledger_sum id ledger) (find (λ t. t.id == id) db.tenants)
            (none_of (differs db) id (groups ledger) h (mem-groups id ledger m))),
      λ h. none_kept (differs db) (groups ledger) (λ id m.
          test-false (ledger_sum id ledger) (find (λ t. t.id == id) db.tenants)
            (rows-All (IsInOrder db) id ledger h (groups-mem id ledger m))),
    )

found-Agrees :
    (ledger : List CreditLedger) (id : String) (tenants : List Tenant)
    → All (AgreesWith ledger) tenants
    → Agrees (ledger_sum id ledger) (find (λ x. x.id == id) tenants)
found-Agrees ledger id [] h = tt
found-Agrees ledger id (x ∷ tenants) (agrees, h) = elim (Bool-cases (x.id == id)) [
  | inl e ↦
      rw e (
        subst (λ i. x.credits_balance ≡ ledger_sum i ledger) (ground (arith, eq_iff x.id id))
          agrees)
  | inr e ↦ rw e (found-Agrees ledger id tenants h)
]

-- If every balance is the sum of its ledger rows, then the reconciliation job reports no mismatch.
pub reconciled_reports_none :
    (db : Db) → IsReconciled db → mismatches (run_credit_reconciliation db) ≡ 0
unfolding IsInOrder
reconciled_reports_none db h = (reconciliation_finds db).1 (
    All-rows (IsInOrder db) db.credit_ledger
      (λ id m. found-Agrees db.credit_ledger id db.tenants h))

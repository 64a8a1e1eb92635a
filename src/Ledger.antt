-- ===== src/Ledger.antt =====
-- The accounting contract of app/models.py: a tenant's balance is the sum of its rows in the credit
-- ledger ("immutable credit movements"). `run_credit_reconciliation` of app/jobs.py looks for
-- tenants that break it.
use lead_generation_api_zyla.Prelude.{
  String, ◌==◌, ◌≡◌, ◌≢◌, refl, All-append, List, [], ◌∷◌, ◌++◌, All, update_where, arith, eq_iff,
  Bool-cases, inl, inr, if◌then◌else◌,
}
use lead_generation_api_zyla.Prelude.Int.{ℤ, pos, ◌+ℤ◌, int_laws}
use lead_generation_api_zyla.Errors.{Result, ok, err}
use lead_generation_api_zyla.Exec.{Exec}
use lead_generation_api_zyla.Models.{Tenant, CreditLedger, Db, rolled_back, transaction}

-- `func.sum(CreditLedger.amount)` over the rows of one tenant
unfoldable pub ledger_sum : String → List CreditLedger → ℤ
ledger_sum tenant_id [] = pos 0
ledger_sum tenant_id (r ∷ rows) =
    let rest = ledger_sum tenant_id rows in
    if r.tenant_id == tenant_id then r.amount +ℤ rest else rest

abbrev pub AgreesWith : List CreditLedger → Tenant → Type 0
AgreesWith ledger t = t.credits_balance ≡ ledger_sum t.id ledger

-- every balance is the sum of its ledger rows
abbrev pub IsReconciled : Db → Type 0
IsReconciled db = All (AgreesWith db.credit_ledger) db.tenants

pub ledger_sum-append :
    (tenant_id : String) (rows : List CreditLedger) (row : CreditLedger)
    → ledger_sum tenant_id (rows ++ row ∷ []) ≡ (
        if row.tenant_id == tenant_id
        then ledger_sum tenant_id rows +ℤ row.amount
        else ledger_sum tenant_id rows)
unfolding ledger_sum
ledger_sum-append tenant_id [] row = grind int_laws
ledger_sum-append tenant_id (r ∷ rows) row =
    rw (ledger_sum-append tenant_id rows row) (grind int_laws)

-- One row of the tenants under a movement.
move-AgreesWith :
    (tenant_id : String) (f : Tenant → Tenant) (ledger : List CreditLedger) (row : CreditLedger)
    → row.tenant_id ≡ tenant_id
    → ((t : Tenant) → (f t).id ≡ t.id)
    → ((t : Tenant) → (f t).credits_balance ≡ t.credits_balance +ℤ row.amount)
    → (t : Tenant) → AgreesWith ledger t
    → AgreesWith (ledger ++ row ∷ []) (if t.id == tenant_id then f t else t)
move-AgreesWith tenant_id f ledger row same keeps moves t agrees =
    elim (Bool-cases (t.id == tenant_id)) [
      | inl e ↦
          rw (e, keeps t, moves t, ledger_sum-append t.id ledger row)
            (ground (arith, eq_iff t.id tenant_id, eq_iff row.tenant_id t.id))
      | inr e ↦
          rw (e, ledger_sum-append t.id ledger row)
            (ground (arith, eq_iff t.id tenant_id, eq_iff row.tenant_id t.id))
    ]

-- One movement, booked on both sides, keeps the books in order.
pub move-IsReconciled :
    (tenant_id : String) (f : Tenant → Tenant) (ledger : List CreditLedger) (row : CreditLedger)
    → row.tenant_id ≡ tenant_id
    → ((t : Tenant) → (f t).id ≡ t.id)
    → ((t : Tenant) → (f t).credits_balance ≡ t.credits_balance +ℤ row.amount)
    → (tenants : List Tenant) → All (AgreesWith ledger) tenants
    → All (AgreesWith (ledger ++ row ∷ [])) (update_where (λ t. t.id == tenant_id) f tenants)
move-IsReconciled tenant_id f ledger row same keeps moves [] h = tt
move-IsReconciled tenant_id f ledger row same keeps moves (t ∷ tenants) (agrees, h) = (
  move-AgreesWith tenant_id f ledger row same keeps moves t agrees,
  move-IsReconciled tenant_id f ledger row same keeps moves tenants h,
)

-- An update of tenants that moves no credits needs no ledger row.
pub still-IsReconciled :
    (tenant_id : String) (f : Tenant → Tenant) (ledger : List CreditLedger)
    → ((t : Tenant) → (f t).id ≡ t.id)
    → ((t : Tenant) → (f t).credits_balance ≡ t.credits_balance)
    → (tenants : List Tenant) → All (AgreesWith ledger) tenants
    → All (AgreesWith ledger) (update_where (λ t. t.id == tenant_id) f tenants)
still-IsReconciled tenant_id f ledger keeps still [] h = tt
still-IsReconciled tenant_id f ledger keeps still (t ∷ tenants) (agrees, h) = (
  ground (arith, keeps t, still t, Bool-cases (t.id == tenant_id)),
  still-IsReconciled tenant_id f ledger keeps still tenants h,
)

-- no row of a tenant
abbrev pub HasNoRows : String → List CreditLedger → Type 0
HasNoRows tenant_id ledger = All (λ r. r.tenant_id ≢ tenant_id) ledger

ledger_sum-HasNoRows :
    (tenant_id : String) (ledger : List CreditLedger)
    → HasNoRows tenant_id ledger
    → ledger_sum tenant_id ledger ≡ pos 0
unfolding ledger_sum
ledger_sum-HasNoRows tenant_id [] h = refl
ledger_sum-HasNoRows tenant_id (r ∷ ledger) (ne, h) =
    ground (arith, eq_iff r.tenant_id tenant_id, ledger_sum-HasNoRows tenant_id ledger h)

-- A row of a tenant that is not listed leaves the others in order.
others-IsReconciled :
    (ledger : List CreditLedger) (row : CreditLedger) (tenants : List Tenant)
    → All (λ t. row.tenant_id ≢ t.id) tenants
    → All (AgreesWith ledger) tenants
    → All (AgreesWith (ledger ++ row ∷ [])) tenants
others-IsReconciled ledger row [] apart h = tt
others-IsReconciled ledger row (t ∷ tenants) (ne, apart) (agrees, h) = (
  rw (ledger_sum-append t.id ledger row) (ground (arith, eq_iff row.tenant_id t.id)),
  others-IsReconciled ledger row tenants apart h,
)

-- A new tenant whose only row is its balance keeps the books in order.
pub open-IsReconciled :
    (t : Tenant) (row : CreditLedger) (ledger : List CreditLedger) (tenants : List Tenant)
    → row.tenant_id ≡ t.id
    → row.amount ≡ t.credits_balance
    → HasNoRows t.id ledger
    → All (λ x. row.tenant_id ≢ x.id) tenants
    → All (AgreesWith ledger) tenants
    → All (AgreesWith (ledger ++ row ∷ [])) (tenants ++ t ∷ [])
open-IsReconciled t row ledger tenants same amount none apart h =
    All-append (AgreesWith (ledger ++ row ∷ [])) tenants (t ∷ [])
      (others-IsReconciled ledger row tenants apart h)
      (
        rw (ledger_sum-append t.id ledger row, ledger_sum-HasNoRows t.id ledger none)
            (grind (int_laws, eq_iff row.tenant_id t.id)),
        tt,
      )

rolled_back-IsReconciled :
    {A : Type 0} (db : Db) (p : Result A × Db)
    → IsReconciled db
    → IsReconciled p.1
    → IsReconciled (rolled_back db p).1
rolled_back-IsReconciled db (ok a, db') h k = k
rolled_back-IsReconciled db (err e, db') h k = h

-- A transaction keeps the books in order if its body does.
pub transaction-IsReconciled :
    {A : Type 0} (m : Exec Db A) (db : Db)
    → IsReconciled db
    → IsReconciled (m db).1
    → IsReconciled (transaction m db).1
unfolding transaction
transaction-IsReconciled m db h k = rolled_back-IsReconciled db (m db) h k

-- ===== src/Errors.antt =====
-- app/errors.py, and the exceptions of the other modules as values of `Raised`.
use lead_generation_api_zyla.Prelude.{ℕ, String, ◌≡◌, refl, subst, Bool, true, false, List, []}
use lead_generation_api_zyla.Prelude.Int.{ℤ}

-- a value of `AppError.details`
pub data Detail : Type 0 where
  number : ℤ → Detail
  texts : List String → Detail

pub record AppError : Type 0 where
  pub code : String
  pub message : String
  pub status_code : ℕ
  pub details : List (String × Detail)

-- the exceptions that the source raises or names; `unexpected` is any other one, by its class, and
-- `response_error` is that of the Redis client, with its text
pub data Raised : Type 0 where
  app : AppError → Raised
  authentication : String → Raised
  authorization : String → Raised
  provider_request : String → Raised
  provider_configuration : String → Raised
  value_error : String → Raised
  rate_limit_exceeded : ℕ → Raised
  idempotency_conflict : Raised
  idempotency_in_progress : Raised
  response_error : String → Raised
  unexpected : String → Raised

pub data Result {ℓ} (A : Type ℓ) : Type ℓ where
  ok : A → Result A
  err : Raised → Result A

-- `AppError(code, message, status)` raised with no details
abbrev pub app_error : String → String → ℕ → Raised
app_error code message status =
    app (record { code = code; message = message; status_code = status; details = [] })

abbrev pub raise_if : Bool → Raised → Result (Unit {0})
raise_if false exc = ok tt
raise_if true exc = err exc

module _ {ℓ κ} {A : Type ℓ} {B : Type κ} where
  -- go on with the value of a call; an exception passes through
  abbrev and_then : (A → Result B) → Result A → Result B
  and_then next (err exc) = err exc
  and_then next (ok value) = next value

  -- statements in sequence, where no state changes
  infixl 5 ◌>>=◌
  abbrev pub ◌>>=◌ : Result A → (A → Result B) → Result B
  first >>= next = and_then next first

  -- A sequence that has returned: what its first statement gave, and the rest.
  pub >>=-eq-ok :
      (first : Result A) (next : A → Result B) {result : B}
      → (first >>= next) ≡ ok result
      → (value : A) × (first ≡ ok value) × (next value ≡ ok result)
  >>=-eq-ok (err exc) next returned = cc
  >>=-eq-ok (ok value) next returned = (value, refl, returned)

infixl 5 ◌>>◌
abbrev pub ◌>>◌ {κ} : {B : Type κ} → Result (Unit {0}) → Result B → Result B
first >> second = first >>= (λ _. second)

-- A guard that has returned was not raised.
pub raise_if-eq-ok : (b : Bool) (e : Raised) {u : Unit {0}} → raise_if b e ≡ ok u → b ≡ false
raise_if-eq-ok true e h = cc
raise_if-eq-ok false e h = refl

-- A guard before the rest of a check that has returned: the guard did not raise, the rest returned.
pub raise_if-then {κ} :
    {B : Type κ} (b : Bool) (exc : Raised) {rest : Result B} {result : B}
    → (raise_if b exc >> rest) ≡ ok result
    → (b ≡ false) × (rest ≡ ok result)
raise_if-then true exc returned = cc
raise_if-then false exc returned = (refl, returned)

-- what a result holds satisfies `P`
abbrev pub Holds {ℓ κ} : {A : Type ℓ} → (A → Type κ) → Result A → Type κ
Holds P (ok a) = P a
Holds P (err e) = Unit

pub Holds-bind {ℓ κ μ} :
    {A : Type ℓ} {B : Type κ} (P : B → Type μ) (m : Result A) (f : A → Result B)
    → ((a : A) → Holds P (f a))
    → Holds P (m >>= f)
Holds-bind P (ok a) f h = h a
Holds-bind P (err e) f h = tt

pub Holds-eq-ok {ℓ κ} :
    {A : Type ℓ} (P : A → Type κ) {r : Result A} {a : A} → Holds P r → r ≡ ok a → P a
Holds-eq-ok P h e = subst (Holds P) e h

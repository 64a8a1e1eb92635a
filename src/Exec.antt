-- ===== src/Exec.antt =====
-- Statements of a session: each takes the tables and gives a result with the tables after it. An
-- exception does not undo the writes before it; `transaction` of Models does that.
use lead_generation_api_zyla.Prelude.{◌≡◌, ◌∙◌, refl, subst}
use lead_generation_api_zyla.Errors.{Holds, Result, ok, err}

abbrev pub Exec : Type 0 → Type 0 → Type 0
Exec Tables A = Tables → Result A × Tables

module _ {Tables : Type 0} where
  -- the rest of a body, after a statement has given `result`
  abbrev pub continue : {A B : Type 0} → Result A → (A → Exec Tables B) → Exec Tables B
  continue (err exc) rest tables = (err exc, tables)
  continue (ok value) rest tables = rest value tables

  -- a computed result, for a statement that reads and writes nothing
  abbrev pub lift : {A : Type 0} → Result A → Exec Tables A
  lift result tables = (result, tables)

  abbrev pub pure : {A : Type 0} → A → Exec Tables A
  pure value = lift (ok value)

  -- a query
  abbrev pub gets : {A : Type 0} → (Tables → A) → Exec Tables A
  gets query tables = (ok (query tables), tables)

  -- an update
  abbrev pub modify : (Tables → Tables) → Exec Tables (Unit {0})
  modify update tables = (ok tt, update tables)

  infixl 5 ◌>>=◌ ◌>>◌
  unfoldable pub ◌>>=◌ : {A B : Type 0} → Exec Tables A → (A → Exec Tables B) → Exec Tables B
  ◌>>=◌ statement rest tables = let (result, after) = statement tables in continue result rest after

  abbrev pub ◌>>◌ : {A B : Type 0} → Exec Tables A → Exec Tables B → Exec Tables B
  statement >> rest = statement >>= (λ _. rest)

-- Inversion of a chain that has returned.
pub >>=-eq-ok :
    {S A B : Type 0} (m : Exec S A) (f : A → Exec S B) (s : S) {b : B} {t : S}
    → (m >>= f) s ≡ (ok b, t)
    → (a : A) × (s' : S) × (m s ≡ (ok a, s')) × (f a s' ≡ (ok b, t))
unfolding ◌>>=◌
>>=-eq-ok {S} {A} m f s {b} {t} h = go (m s) h
  where
    go :
        (p : Result A × S)
        → continue p.0 f p.1 ≡ (ok b, t)
        → (a : A) × (s' : S) × (p ≡ (ok a, s')) × (f a s' ≡ (ok b, t))
    go (ok a, s') e = (a, s', refl, e)
    go (err e, s') e' = cc

-- A lifted result that has returned, and the state it left.
pub lift-eq-ok :
    {S A : Type 0} (r : Result A) (s : S) {a : A} {t : S}
    → lift r s ≡ (ok a, t)
    → (r ≡ ok a) × (s ≡ t)
lift-eq-ok r s h = (cc, cc)

pub continue-eq-ok :
    {S A B : Type 0} (r : Result A) (f : A → Exec S B) (s : S) {b : B} {t : S}
    → continue r f s ≡ (ok b, t)
    → (a : A) × (r ≡ ok a) × (f a s ≡ (ok b, t))
continue-eq-ok (ok a) f s h = (a, refl, h)
continue-eq-ok (err e) f s h = cc

-- whatever an action returns satisfies `P`
pub record Returns {S A : Type 0} (P : A → Type 0) (m : Exec S A) : Type 0 where
  pub at : (s : S) → Holds P (m s).0

pub Returns-bind :
    {S A B : Type 0} {P : B → Type 0} (m : Exec S A) (f : A → Exec S B)
    → ((a : A) → Returns P (f a))
    → Returns P (m >>= f)
unfolding ◌>>=◌
Returns-bind {S} {A} {B} {P} m f h = record { at = λ s. go (m s) }
  where
    go : (p : Result A × S) → Holds P (continue p.0 f p.1).0
    go (ok a, s') = (h a).at s'
    go (err e, s') = tt

-- the rest may use what is known of the value
pub Returns-then :
    {S A B : Type 0} {P : A → Type 0} {Q : B → Type 0} (m : Exec S A) (f : A → Exec S B)
    → Returns P m
    → ((a : A) → P a → Returns Q (f a))
    → Returns Q (m >>= f)
unfolding ◌>>=◌
Returns-then {S} {A} {B} {P} {Q} m f hm h = record { at = λ s. go (m s) (hm.at s) }
  where
    go : (p : Result A × S) → Holds P p.0 → Holds Q (continue p.0 f p.1).0
    go (ok a, s') q = (h a q).at s'
    go (err e, s') q = tt

-- a computed result, of which its equation is known
pub Returns-lift : {S A : Type 0} (r : Result A) → Returns (λ a. r ≡ ok a) (lift {Tables = S} r)
Returns-lift (ok a) = record { at = λ s. refl }
Returns-lift (err e) = record { at = λ s. tt }

pub Returns-eq-ok :
    {S A : Type 0} {P : A → Type 0} {m : Exec S A} (s : S) (a : A)
    → Returns P m
    → (m s).0 ≡ ok a
    → P a
Returns-eq-ok {P} s a h e = subst (Holds P) e (h.at s)

-- an action that leaves a view of the state alone, whether it returns or raises
pub record Leaves {S A V : Type 0} (view : S → V) (m : Exec S A) : Type 0 where
  pub at : (s : S) → view (m s).1 ≡ view s

pub Leaves-bind :
    {S A B V : Type 0} {view : S → V} (m : Exec S A) (f : A → Exec S B)
    → Leaves view m
    → ((a : A) → Leaves view (f a))
    → Leaves view (m >>= f)
unfolding ◌>>=◌
Leaves-bind {S} {A} {B} {V} {view} m f hm h = record { at = λ s. go (m s) ∙ hm.at s }
  where
    go : (p : Result A × S) → view (continue p.0 f p.1).1 ≡ view p.1
    go (ok a, s') = (h a).at s'
    go (err e, s') = refl

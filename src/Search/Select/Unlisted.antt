-- ===== src/Search/Select/Unlisted.antt =====
-- About `is_suppressed` of app/search_service.py: the subjects of a record that it lets through.
use lead_generation_api_zyla.Prelude.{
  String, Bool, true, false, ◌==◌, ◌≡◌, ◌≢◌, subst, sym, Option, none, some, List, [], ◌∷◌, All,
  ◌⊎◌, Bool-cases, inl, inr, arith, eq_iff, if◌then◌else◌,
}
use lead_generation_api_zyla.Errors.{Result, ok, Holds, >>=-eq-ok, ◌>>=◌}
use lead_generation_api_zyla.Prelude.Text.{join}
use lead_generation_api_zyla.Env.{Env}
use lead_generation_api_zyla.Json.{Json, null, bool, num, str, arr, obj, Fields, end, field, get}
use lead_generation_api_zyla.Models.{Suppression}
use lead_generation_api_zyla.Privacy.{hash_subject}
use lead_generation_api_zyla.Providers.{ProviderLead}
use lead_generation_api_zyla.Search.Select.{
  suppression_exists, of_contact, name_parts, candidates, any_suppressed, is_suppressed,
  unsuppressed,
}

ok-injective {ℓ} : {A : Type ℓ} {a b : A} → ok a ≡ ok b → a ≡ b
ok-injective e = cc

-- the name that is checked of a contact that is not empty
abbrev pub full_name : Option Fields → Result Json
full_name none = ok null
full_name (some end) = ok null
full_name (some (field k v rest)) =
    name_parts (get (field k v rest) "first_name" ∷ get (field k v rest) "last_name" ∷ [])
    >>= λ names. ok (str (join " " names))

module _ (env : Env) (tenant_id : String) (rows : List Suppression) where
  -- a value that is a text has no suppression of a type
  abbrev pub Unlisted : String → Json → Type 0
  Unlisted kind (str s) =
      (s ≡ "") ⊎ (suppression_exists rows tenant_id kind (hash_subject env s) ≡ false)
  Unlisted kind _ = Unit

  -- the email of a contact that is not empty
  abbrev pub UnlistedContact : Option Fields → Type 0
  UnlistedContact none = Unit
  UnlistedContact (some end) = Unit
  UnlistedContact (some (field k v rest)) = Unlisted "email" (get (field k v rest) "email")

  -- the subjects of a record that a suppression may name
  pub record NamesNone (lead : ProviderLead) : Type 0 where
    pub domain : Unlisted "domain" (get lead.company "domain")
    pub company : Unlisted "company" (get lead.company "name")
    pub email : UnlistedContact lead.contact
    pub contact : Holds (Unlisted "contact") (full_name lead.contact)

  text-head :
      (kind s : String) (rest : List (String × Json))
      → s ≢ ""
      → any_suppressed env tenant_id rows ((kind, str s) ∷ rest) ≡ ok false
      → suppression_exists rows tenant_id kind (hash_subject env s) ≡ false
  unfolding any_suppressed
  text-head kind s rest ne h = ground (arith, eq_iff s "")

  Unlisted-head :
      (kind : String) (v : Json) (rest : List (String × Json))
      → any_suppressed env tenant_id rows ((kind, v) ∷ rest) ≡ ok false
      → Unlisted kind v
  Unlisted-head kind (str s) rest h = elim (Bool-cases (s == "")) [
    | inl e ↦ inl (ground (arith, eq_iff s ""))
    | inr ne ↦ inr (text-head kind s rest (λ e. ground (arith, eq_iff s "")) h)
  ]
  Unlisted-head kind null rest h = tt
  Unlisted-head kind (bool _) rest h = tt
  Unlisted-head kind (num _) rest h = tt
  Unlisted-head kind (arr _) rest h = tt
  Unlisted-head kind (obj _) rest h = tt

  any_suppressed-tail :
      (kind : String) (v : Json) (rest : List (String × Json))
      → any_suppressed env tenant_id rows ((kind, v) ∷ rest) ≡ ok false
      → any_suppressed env tenant_id rows rest ≡ ok false
  unfolding any_suppressed
  any_suppressed-tail kind v rest h = ground arith

  company-Unlisted :
      (a b : Json) (rest subjects : List (String × Json))
      → subjects ≡ ("domain", a) ∷ ("company", b) ∷ rest
      → any_suppressed env tenant_id rows subjects ≡ ok false
      → Unlisted "domain" a
        × Unlisted "company" b
        × (any_suppressed env tenant_id rows rest ≡ ok false)
  company-Unlisted a b rest subjects e k =
      let k' = subst (λ l. any_suppressed env tenant_id rows l ≡ ok false) e k in
      let later = any_suppressed-tail "domain" a (("company", b) ∷ rest) k' in
      (
        Unlisted-head "domain" a (("company", b) ∷ rest) k',
        Unlisted-head "company" b rest later,
        any_suppressed-tail "company" b rest later,
      )

  -- the subjects go on with those of a contact that is not empty
  contact-Unlisted :
      (contact : Option Fields) (a b : Json) (subjects : List (String × Json))
      → of_contact (("domain", a) ∷ ("company", b) ∷ []) contact ≡ ok subjects
      → any_suppressed env tenant_id rows subjects ≡ ok false
      → Unlisted "domain" a
        × Unlisted "company" b
        × UnlistedContact contact
        × Holds (Unlisted "contact") (full_name contact)
  contact-Unlisted none a b subjects h k =
      let (p, q, _) = company-Unlisted a b [] subjects (cc) k in (p, q, tt, tt)
  contact-Unlisted (some end) a b subjects h k =
      let (p, q, _) = company-Unlisted a b [] subjects (cc) k in (p, q, tt, tt)
  contact-Unlisted (some (field j w rest)) a b subjects h k =
      let contact = field j w rest in
      let (names, e, l) =
        >>=-eq-ok (name_parts (get contact "first_name" ∷ get contact "last_name" ∷ [])) _ h in
      let (p, q, later) = company-Unlisted a b _ subjects (sym (ok-injective l)) k in
      (
        p,
        q,
        Unlisted-head "email" (get contact "email") _ later,
        rw e (
            Unlisted-head "contact" _ _
              (any_suppressed-tail "email" (get contact "email") _ later)),
      )

  is_suppressed-NamesNone :
      (lead : ProviderLead) → is_suppressed env tenant_id rows lead ≡ ok false → NamesNone lead
  unfolding is_suppressed candidates
  is_suppressed-NamesNone lead h =
      let (subjects, e, k) = >>=-eq-ok (candidates lead) (any_suppressed env tenant_id rows) h in
      let (a, b, c, d) = contact-Unlisted lead.contact _ _ subjects e k in
      record { domain = a; company = b; email = c; contact = d }

  unsuppressed-cons :
      (P : ProviderLead → Type 0) (lead : ProviderLead) (hidden : Bool)
      (rest shown : List ProviderLead)
      → is_suppressed env tenant_id rows lead ≡ ok hidden
      → P lead
      → All (λ l. P l × NamesNone l) rest
      → ok (if hidden then rest else lead ∷ rest) ≡ ok shown
      → All (λ l. P l × NamesNone l) shown
  unsuppressed-cons P lead true rest shown e p h k =
      subst (All (λ l. P l × NamesNone l)) (ok-injective k) h
  unsuppressed-cons P lead false rest shown e p h k =
      subst (All (λ l. P l × NamesNone l)) (ok-injective k) ((p, is_suppressed-NamesNone lead e), h)

  -- Every record that `unsuppressed` keeps was given to it, with what holds of all that were, and names no
  -- suppressed domain, company, email or contact.
  pub unsuppressed-NamesNone :
      (P : ProviderLead → Type 0) (records shown : List ProviderLead)
      → unsuppressed env tenant_id rows records ≡ ok shown
      → All P records
      → All (λ l. P l × NamesNone l) shown
  unfolding unsuppressed
  unsuppressed-NamesNone P [] [] h a = tt
  unsuppressed-NamesNone P [] (x ∷ shown) h a = cc
  unsuppressed-NamesNone P (lead ∷ records) shown h (p, a) =
      let (hidden, e, k) = >>=-eq-ok (is_suppressed env tenant_id rows lead) _ h in
      let (rest, f, l) = >>=-eq-ok (unsuppressed env tenant_id rows records) _ k in
      unsuppressed-cons P lead hidden rest shown e p (unsuppressed-NamesNone P records rest f a) l

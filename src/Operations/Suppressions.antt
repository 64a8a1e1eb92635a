-- ===== src/Operations/Suppressions.antt =====
-- About `create_suppression` of app/main.py, and the searches after it.
use lead_generation_api_zyla.Prelude.{
  ℕ, String, true, ◌&&◌, ◌==◌, ◌≡◌, ◌≢◌, refl, sym, ap, subst, Option, none, some, List, [], ◌∷◌,
  ◌++◌, All, find, find-append, ◌⊎◌, Bool-cases, inl, inr, arith, eq_iff,
}
use mathlib.Core.List.{Memᴰ}
use lead_generation_api_zyla.Errors.{Result, ok, err, Holds}
use lead_generation_api_zyla.Env.{Env}
use lead_generation_api_zyla.Json.{Json, null, bool, num, str, arr, obj, Fields, end, field, get}
use lead_generation_api_zyla.Models.{Suppression, Db}
use lead_generation_api_zyla.Privacy.{normalize_subject, hash_subject}
use lead_generation_api_zyla.Schemas.Operations.{
  SubjectType, email, domain, company, contact, subject_type_text, SuppressionRequest,
  SuppressionResponse,
}
use lead_generation_api_zyla.Schemas.Responses.{LeadSearchResponse}
use lead_generation_api_zyla.Providers.{ProviderLead}
use lead_generation_api_zyla.Services.{ScoredLead}
use lead_generation_api_zyla.Search.{Call, persist_lead_search}
use lead_generation_api_zyla.Search.Select.{suppression_exists}
use lead_generation_api_zyla.Search.Select.Unlisted.{
  Unlisted, UnlistedContact, full_name, NamesNone,
}
use lead_generation_api_zyla.Search.Persist.Answers.{Answers}
use lead_generation_api_zyla.Search.Selection.{IsFound, search-Selects}
use lead_generation_api_zyla.Security.{AuthContext, require_scope}
use lead_generation_api_zyla.Accounts.{after_scope}
use lead_generation_api_zyla.Operations.{
  same_subject, new_suppression, suppression_response, unless_suppressed, create_suppression,
}

-- a value of a record is not the subject
abbrev pub IsOther : String → Json → Type 0
IsOther subject (str s) = (s ≡ "") ⊎ (normalize_subject s ≢ normalize_subject subject)
IsOther subject _ = Unit

abbrev pub email_of : Option Fields → Json
email_of none = null
email_of (some fields) = get fields "email"

-- the value of a record that a suppression of a type is about
abbrev pub AvoidsSubject : SuppressionRequest → ProviderLead → Type 0
AvoidsSubject payload lead = elim payload.subject_type [
  | email ↦ IsOther payload.subject (email_of lead.contact)
  | domain ↦ IsOther payload.subject (get lead.company "domain")
  | company ↦ IsOther payload.subject (get lead.company "name")
  | contact ↦ Holds (IsOther payload.subject) (full_name lead.contact)
]

module _ (env : Env) where
  -- what a suppression that returned leaves behind
  record Suppressed (context : AuthContext) (payload : SuppressionRequest) (r : SuppressionResponse)
      (db' : Db) : Type 0 where
    allowed : require_scope context "privacy:write" ≡ ok tt
    row : Suppression
    found : find (same_subject env context payload) db'.suppressions ≡ some row
    answered : r ≡ suppression_response row

  new-same_subject :
      (context : AuthContext) (payload : SuppressionRequest) (id : String)
      → same_subject env context payload (new_suppression env context payload id) ≡ true
  new-same_subject context payload id = ground (
    arith,
    eq_iff context.tenant_id context.tenant_id,
    eq_iff (subject_type_text payload.subject_type) (subject_type_text payload.subject_type),
    eq_iff (hash_subject env payload.subject) (hash_subject env payload.subject),
  )

  stored-Suppressed :
      (context : AuthContext) (payload : SuppressionRequest) (found : Option Suppression)
      (db db' : Db) (r : SuppressionResponse)
      → require_scope context "privacy:write" ≡ ok tt
      → find (same_subject env context payload) db.suppressions ≡ found
      → unless_suppressed env context payload found db ≡ (ok r, db')
      → Suppressed context payload r db'
  stored-Suppressed context payload (some row) db db' r a f h =
      let kept : db ≡ db' = cc in
      record { allowed = a; row = row; found = rw (sym kept) f; answered = ground arith }
  stored-Suppressed context payload none db db' r a f h =
      let row = new_suppression env context payload (env.uuid db.catalog.drawn) in
      let rows : db'.suppressions ≡ db.suppressions ++ row ∷ [] = ground arith in
      record {
        allowed = a;
        row = row;
        found = rw rows (
            find-append (same_subject env context payload) db.suppressions row f
              (new-same_subject context payload (env.uuid db.catalog.drawn)));
        answered = ground arith;
      }

  create_suppression-Suppressed :
      (context : AuthContext) (payload : SuppressionRequest) (db db' : Db) (r : SuppressionResponse)
      → create_suppression env context payload db ≡ (ok r, db')
      → Suppressed context payload r db'
  unfolding create_suppression
  create_suppression-Suppressed context payload db db' r h =
      go (require_scope context "privacy:write") refl h
    where
      go :
          (q : Result (Unit {0}))
          → require_scope context "privacy:write" ≡ q
          → after_scope q
              (λ d.
                unless_suppressed env context payload
                  (find (same_subject env context payload) d.suppressions)
                  d)
              db
            ≡ (ok r, db')
          → Suppressed context payload r db'
      go (ok _) a e = stored-Suppressed context payload _ db db' r a refl e
      go (err x) a e = cc

  same_tests :
      (context : AuthContext) (again payload : SuppressionRequest) (later : ℕ)
      → again.subject_type ≡ payload.subject_type
      → hash_subject env again.subject ≡ hash_subject env payload.subject
      → same_subject (record env { now = later }) context again ≡ same_subject env context payload
  unfolding hash_subject
  same_tests context again payload later kind hashed =
      ap
        (λ (q : SubjectType × String). λ (r : Suppression).
          (r.tenant_id == context.tenant_id)
          && ((r.subject_type == subject_type_text q.0) && (r.subject_hash == q.1)))
        (pair kind hashed)
    where
      pair :
          {k l : SubjectType} {g h : String}
          → k ≡ l
          → g ≡ h
          → ◌≡◌ {A = SubjectType × String} (k, g) (l, h)
      pair e f = cc

  -- A suppression is created once: when it has returned, creating it again, with any reason and any
  -- spelling of the subject that is normalized to the same text, gives the same answer and changes no
  -- table.
  pub suppressed_once :
      (context : AuthContext) (payload again : SuppressionRequest) (db db' : Db)
      (r : SuppressionResponse) (later : ℕ)
      → create_suppression env context payload db ≡ (ok r, db')
      → again.subject_type ≡ payload.subject_type
      → normalize_subject again.subject ≡ normalize_subject payload.subject
      → create_suppression (record env { now = later }) context again db' ≡ (ok r, db')
  unfolding create_suppression hash_subject
  suppressed_once context payload again db db' r later h kind text =
      let s = create_suppression-Suppressed context payload db db' r h in
      let hashed : hash_subject env again.subject ≡ hash_subject env payload.subject =
        ap (env.hmac_sha256 env.api_key_pepper) text in
      let test = same_tests context again payload later kind hashed in
      let found = subst (λ p. find p db'.suppressions ≡ some s.row) (sym test) s.found in
      rw (s.allowed, found, s.answered) refl

  found-suppression_exists :
      (context : AuthContext) (payload : SuppressionRequest) (row : Suppression)
      (rows : List Suppression)
      → find (same_subject env context payload) rows ≡ some row
      → suppression_exists rows context.tenant_id
          (subject_type_text payload.subject_type)
          (hash_subject env payload.subject)
        ≡ true
  found-suppression_exists context payload row [] h = cc
  found-suppression_exists context payload row (x ∷ rows) h =
      elim (Bool-cases (same_subject env context payload x)) [
        | inl e ↦ rw e refl
        | inr e ↦ rw e (found-suppression_exists context payload row rows (ground arith))
      ]

  Unlisted-IsOther :
      (tenant_id subject kind : String) (rows : List Suppression) (v : Json)
      → suppression_exists rows tenant_id kind (hash_subject env subject) ≡ true
      → Unlisted env tenant_id rows kind v
      → IsOther subject v
  unfolding hash_subject
  Unlisted-IsOther tenant_id subject kind rows (str s) h (inl e) = inl e
  Unlisted-IsOther tenant_id subject kind rows (str s) h (inr e) = inr (λ same.
      let present =
        subst
          (λ t.
            suppression_exists rows tenant_id kind (env.hmac_sha256 env.api_key_pepper t) ≡ true)
          (sym same) h in
      absurd (ground (arith, present)))
  Unlisted-IsOther tenant_id subject kind rows null h u = tt
  Unlisted-IsOther tenant_id subject kind rows (bool b) h u = tt
  Unlisted-IsOther tenant_id subject kind rows (num n) h u = tt
  Unlisted-IsOther tenant_id subject kind rows (arr vs) h u = tt
  Unlisted-IsOther tenant_id subject kind rows (obj fs) h u = tt

  email-Unlisted :
      (tenant_id : String) (rows : List Suppression) (contact : Option Fields)
      → UnlistedContact env tenant_id rows contact
      → Unlisted env tenant_id rows "email" (email_of contact)
  email-Unlisted tenant_id rows none u = tt
  email-Unlisted tenant_id rows (some end) u = tt
  email-Unlisted tenant_id rows (some (field k v rest)) u = u

  avoids :
      (kind : SubjectType) (tenant_id subject reason : String) (rows : List Suppression)
      (lead : ProviderLead)
      → suppression_exists rows tenant_id (subject_type_text kind) (hash_subject env subject) ≡ true
      → NamesNone env tenant_id rows lead
      → AvoidsSubject (record { subject_type = kind; subject = subject; reason = reason }) lead
  avoids email tenant_id subject reason rows lead h u =
      Unlisted-IsOther tenant_id subject "email" rows _ h
        (email-Unlisted tenant_id rows lead.contact u.email)
  avoids domain tenant_id subject reason rows lead h u =
      Unlisted-IsOther tenant_id subject "domain" rows _ h u.domain
  avoids company tenant_id subject reason rows lead h u =
      Unlisted-IsOther tenant_id subject "company" rows _ h u.company
  avoids contact tenant_id subject reason rows lead h u = each (full_name lead.contact) u.contact
    where
      each :
          (name : Result Json)
          → Holds (Unlisted env tenant_id rows "contact") name
          → Holds (IsOther subject) name
      each (ok v) k = Unlisted-IsOther tenant_id subject "contact" rows v h k
      each (err x) k = tt

  exists-append :
      (rows more : List Suppression) (tenant_id kind hashed : String)
      → suppression_exists rows tenant_id kind hashed ≡ true
      → suppression_exists (rows ++ more) tenant_id kind hashed ≡ true
  exists-append [] more tenant_id kind hashed h = cc
  exists-append (x ∷ rows) more tenant_id kind hashed h =
      let rest = exists-append rows more tenant_id kind hashed in ground (arith, rest)

  avoided :
      (payload : SuppressionRequest) (tenant_id : String) (call : Call)
      (records : List ProviderLead) (db : Db) (leads : List ScoredLead)
      → suppression_exists db.suppressions tenant_id
          (subject_type_text payload.subject_type)
          (hash_subject env payload.subject)
        ≡ true
      → call.tenant_id ≡ tenant_id
      → All (IsFound env call records db) leads
      → All (λ s. Memᴰ s.source records × AvoidsSubject payload s.source) leads
  avoided payload tenant_id call records db [] present own u = tt
  avoided payload tenant_id call records db (s ∷ leads) present own (u, us) =
      let unlisted = subst (λ t. NamesNone env t db.suppressions s.source) own u.unlisted in
      (
        (
          u.given,
          avoids payload.subject_type tenant_id payload.subject payload.reason db.suppressions
              s.source present unlisted,
        ),
        avoided payload tenant_id call records db leads present own us,
      )

module _ (env : Env) where
  -- A suppression hides its subject from the searches that follow: when a search of the tenant returns, at
  -- any time and over any tables whose suppressions are those the suppression left and any more behind
  -- them, each response answers, in order, a record the provider gave that names, as its email, domain,
  -- company name or contact name, whichever the suppression is about, no text that is normalized to the
  -- suppressed subject.
  pub suppression_hides :
      (context : AuthContext) (payload : SuppressionRequest) (db db' : Db) (r : SuppressionResponse)
      (later : ℕ) (call : Call) (records : List ProviderLead) (before after : Db)
      (more : List Suppression) (found : LeadSearchResponse)
      → create_suppression env context payload db ≡ (ok r, db')
      → call.tenant_id ≡ context.tenant_id
      → before.suppressions ≡ db'.suppressions ++ more
      → persist_lead_search (record env { now = later }) call records before ≡ (ok found, after)
      → (chosen : List ScoredLead) × Answers found.data_rows chosen
        × All (λ s. Memᴰ s.source records × AvoidsSubject payload s.source) chosen
  unfolding hash_subject
  suppression_hides context payload db db' r later call records before after more found h own kept
        searched =
      let s = create_suppression-Suppressed env context payload db db' r h in
      let present = found-suppression_exists env context payload s.row db'.suppressions s.found in
      let still =
        subst
          (λ rows.
            suppression_exists rows context.tenant_id (subject_type_text payload.subject_type)
              (hash_subject env payload.subject)
            ≡ true)
          (sym kept) (exists-append env db'.suppressions more context.tenant_id _ _ present) in
      let selected =
        search-Selects (record env { now = later }) call records before found after searched in
      (
        selected.chosen,
        selected.answers,
        avoided (record env { now = later }) payload context.tenant_id call records before
            selected.chosen still own selected.found,
      )

-- ===== src/Search/Rows.antt =====
-- The rows that one result of app/search_service.py finds or writes: company, contact and lead.
use lead_generation_api_zyla.Prelude.{
  ◌+◌, String, Bool, true, false, ◌&&◌, ◌==◌, Option, none, some, List, [], ◌∷◌, ◌++◌, find,
}
use lead_generation_api_zyla.Errors.{ok}
use lead_generation_api_zyla.Exec.{Exec, pure, lift, gets, modify, ◌>>=◌, ◌>>◌}
use lead_generation_api_zyla.Env.{Env}
use lead_generation_api_zyla.Json.{
  Json, str, Fields, end, lookup, get, item, text_column, text_required, int_column,
}
use lead_generation_api_zyla.Models.{Company, Contact, Lead, Catalog}
use lead_generation_api_zyla.Services.{ScoredLead, domain_of}

-- `column = value` in SQL, where SQLAlchemy writes `IS NULL` for None
abbrev pub same_text : Option String → Option String → Bool
same_text none none = true
same_text (some a) (some b) = a == b
same_text _ _ = false

abbrev or_text : Option Json → String → Json
or_text none s = str s
or_text (some v) s = v

module _ (env : Env) (tenant_id : String) where
  -- `str(uuid4())`, the default of each `id` column, drawn at the flush
  draw_id : Exec Catalog String
  draw_id c = (ok (env.uuid c.drawn), record c { drawn = c.drawn + 1 })

  unfoldable pub company_by_domain : Option String → List Company → Option Company
  company_by_domain none rows = none
  company_by_domain (some d) rows =
      find (λ c. (c.tenant_id == tenant_id) && same_text c.canonical_domain (some d)) rows

  -- The unique constraint on tenant and domain cannot fail: the lookup just found no such row.
  unfoldable pub create_company : Option String → Fields → Exec Catalog Company
  unfolding draw_id
  create_company domain d = do
    name_value ← lift (item d "name")
    name ← lift (text_required name_value)
    website ← lift (text_column (get d "website"))
    industry ← lift (text_column (get d "industry"))
    country ← lift (text_column (get d "country"))
    employee_count ← lift (int_column (get d "employee_count"))
    data_status ← lift (text_required (or_text (lookup "data_status" d) "SYNTHETIC"))
    id ← draw_id
    let company : Company = record {
      id = id;
      tenant_id = tenant_id;
      name = name;
      website = website;
      canonical_domain = domain;
      industry = industry;
      country = country;
      employee_count = employee_count;
      data_status = data_status;
    }
    modify (λ c. record c { companies = c.companies ++ company ∷ [] })
    pure company

  abbrev pub found_or : {A : Type 0} → Option A → Exec Catalog A → Exec Catalog A
  found_or none make = make
  found_or (some a) make = pure a

  -- `_get_or_create_company`
  unfoldable pub get_or_create_company : Fields → Exec Catalog Company
  unfolding company_by_domain create_company
  get_or_create_company d = do
    domain ← lift (domain_of d)
    found ← gets (λ c. company_by_domain domain c.companies)
    found_or found (create_company domain d)

  contact_by_title : String → Option String → List Contact → Option Contact
  contact_by_title company_id title = find (λ c.
      (c.tenant_id == tenant_id) && ((c.company_id == company_id) && same_text c.job_title title))

  create_contact : String → Option String → Fields → Exec Catalog Contact
  unfolding draw_id
  create_contact company_id job_title d = do
    first_name ← lift (text_column (get d "first_name"))
    last_name ← lift (text_column (get d "last_name"))
    email ← lift (text_column (get d "email"))
    data_status ← lift (text_required (or_text (lookup "data_status" d) "SYNTHETIC"))
    id ← draw_id
    let contact : Contact = record {
      id = id;
      tenant_id = tenant_id;
      company_id = company_id;
      first_name = first_name;
      last_name = last_name;
      job_title = job_title;
      email = email;
      data_status = data_status;
    }
    modify (λ c. record c { contacts = c.contacts ++ contact ∷ [] })
    pure contact

  contact_of_dict : String → Fields → Exec Catalog Contact
  unfolding contact_by_title create_contact
  contact_of_dict company_id d = do
    title ← lift (text_column (get d "job_title"))
    found ← gets (λ c. contact_by_title company_id title c.contacts)
    found_or found (create_contact company_id title d)

  -- `_get_or_create_contact`: an empty dict is as good as none
  unfoldable pub get_or_create_contact : String → Option Fields → Exec Catalog (Option Contact)
  unfolding contact_of_dict
  get_or_create_contact company_id none = pure none
  get_or_create_contact company_id (some end) = pure none
  get_or_create_contact company_id (some d) = do
    contact ← contact_of_dict company_id d
    pure (some contact)

  -- `Lead(…)`, added and flushed
  unfoldable pub create_lead : ScoredLead → String → Option String → Exec Catalog Lead
  unfolding draw_id
  create_lead scored company_id contact_id = do
    id ← draw_id
    let lead : Lead = record {
      id = id;
      tenant_id = tenant_id;
      company_id = company_id;
      contact_id = contact_id;
      lead_score = scored.lead_score;
      icp_score = scored.icp_score;
      score_breakdown = scored.breakdown;
      status = "ACTIVE";
    }
    modify (λ c. record c { leads = c.leads ++ lead ∷ [] })
    pure lead

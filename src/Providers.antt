-- ===== src/Providers.antt =====
-- app/providers.py: the fixture provider, the HTTP adapter and the choice between them. The HTTP
-- exchange itself is a parameter: its outcome is the decoded body, or nothing when the request
-- failed or the body was not JSON.
use lead_generation_api_zyla.Prelude.{
  ℕ, String, Bool, true, false, not, ◌&&◌, ◌==◌, Option, none, some, List, [], ◌∷◌, if◌then◌else◌,
}
use Prim.Native.String.{◌++◌ as str_append}
use lead_generation_api_zyla.Prelude.Int.{pos}
use lead_generation_api_zyla.Prelude.Text.{lower, upper, strip, mem}
use lead_generation_api_zyla.Errors.{
  Raised, Result, ok, err, provider_request, provider_configuration, raise_if, ◌>>=◌, ◌>>◌,
}
use lead_generation_api_zyla.Json.{
  Json, null, num, str, arr, obj, Fields, end, field, nil, cons, items, lookup, get, item, insert,
  truthy, as_text, as_list,
}
use lead_generation_api_zyla.Env.{Env, text_of}
use lead_generation_api_zyla.Schemas.{LeadFilters}
use lead_generation_api_zyla.Filters.{
  range_min, range_max, nonempty, in_set, lowered, intersects, lt_bound, gt_bound, against, only_if,
}

pub record ProviderLead : Type 0 where
  pub provider : String
  pub company : Fields
  pub contact : Option Fields
  pub observed_at : String
  pub use_policy : String
  pub data_status : String

-- `Built-in` fixtures; `use_policy` and `data_status` are the defaults of the dataclass
abbrev fixture : String → String → String → String → ℕ → Json → String → String → ProviderLead
fixture name domain industry country count technologies last_name job_title = record {
  provider = "synthetic_provider";
  company = field "name" (str name) (
      field "website" (str (str_append "https://" domain)) (
        field "domain" (str domain) (
          field "industry" (str industry) (
            field "country" (str country) (
              field "employee_count" (num (pos count)) (field "technologies" technologies end))))));
  contact = some (
      field "first_name" (str "Synthetic") (
        field "last_name" (str last_name)
          (field "job_title" (str job_title) (field "email" null end))));
  observed_at = "2026-01-01T00:00:00+00:00";
  use_policy = "SYNTHETIC_DEMO_ONLY";
  data_status = "SYNTHETIC";
}

-- `SyntheticLeadProvider.records`
abbrev pub synthetic_records : List ProviderLead
synthetic_records =
    fixture "SYNTHETIC Example Finance" "finance.example.invalid" "financial_services" "SA" 850
      (arr (cons (str "Microsoft") (cons (str "AWS") nil))) "Finance" "CFO"
    ∷ fixture "SYNTHETIC Example Insurance" "insurance.example.invalid" "insurance" "SA" 3200
        (arr (cons (str "AWS") nil)) "Insurance" "CTO"
    ∷ fixture "SYNTHETIC Example Software" "software.example.invalid" "software" "AE" 180
        (arr (cons (str "AWS") (cons (str "Python") nil))) "Software" "CEO"
    ∷ []

-- `record.contact["job_title"].lower() not in titles`, or no contact
abbrev title_misses : Option Fields → List String → Result Bool
title_misses none titles = ok true
title_misses (some end) titles = ok true
title_misses (some contact) titles = do
  v ← item contact "job_title"
  s ← as_text v
  ok (not (mem (lower s) titles))

abbrev lower_all : List Json → Result (List String)
lower_all [] = ok []
lower_all (v ∷ vs) = do s ← as_text v; rest ← lower_all vs; ok (lower s ∷ rest)

-- the tests of `matches`, in order: the first that fails makes the answer False
abbrev none_of : List (Result Bool) → Result Bool
none_of [] = ok true
none_of (test ∷ tests) = do
  failed ← test
  let rest = none_of tests
  if failed then ok false else rest

-- `matches` of `SyntheticLeadProvider.search`
unfoldable pub matches : LeadFilters → ProviderLead → Result Bool
matches f lead =
    let company = lead.company in
    let titles = lowered f.job_titles in
    let technologies = lowered f.technologies in
    none_of (
      only_if (nonempty f.countries)
        (do v ← item company "country"; b ← in_set v f.countries; ok (not b))
      ∷ only_if (nonempty f.industries)
          (do v ← item company "industry"; b ← in_set v f.industries; ok (not b))
      ∷ (do v ← item company "employee_count"; against lt_bound v (range_min f))
      ∷ (do v ← item company "employee_count"; against gt_bound v (range_max f))
      ∷ only_if (nonempty titles) (title_misses lead.contact titles)
      ∷ only_if (nonempty technologies) (do
        v ← item company "technologies"
        vs ← as_list v
        own ← lower_all vs
        ok (not (intersects technologies own)))
      ∷ [])

abbrev keep_ok {ℓ} : {A : Type ℓ} → (A → Result Bool) → List A → Result (List A)
keep_ok test [] = ok []
keep_ok test (x ∷ xs) = do b ← test x; rest ← keep_ok test xs; ok (if b then x ∷ rest else rest)

-- `SyntheticLeadProvider.search`
unfoldable pub search_synthetic : LeadFilters → Result (List ProviderLead)
unfolding matches
search_synthetic f = keep_ok (matches f) synthetic_records

pub record HttpLeadProvider : Type 0 where
  pub url : String
  pub token : String
  pub provider_name : String
  pub auth_scheme : String
  pub data_source : String
  pub use_policy : String

-- `HttpLeadProvider._headers`
unfoldable pub headers : HttpLeadProvider → List (String × String)
headers p =
    (if p.auth_scheme == "x-api-key"
      then ("X-API-Key", p.token)
      else ("Authorization", str_append "Bearer " p.token))
    ∷ ("Accept", "application/json")
    ∷ ("Content-Type", "application/json")
    ∷ ("User-Agent", "lead-generation-api/0.2.0")
    ∷ []

-- `v or w`
abbrev pub or_else : Json → Json → Json
or_else v w = if truthy v then v else w

-- `payload.get("data", payload.get("results"))` of a dict, any other payload itself
abbrev records_of : Json → Json
records_of (obj d) = elim (lookup "data" d) [ none ↦ get d "results" | some v ↦ v ]
records_of payload = payload

abbrev as_records : Json → Result (List Json)
as_records (arr vs) = ok (items vs)
as_records _ = err (provider_request "configured provider returned an invalid JSON shape")

abbrev pub as_dict : Json → Raised → Result Fields
as_dict (obj d) e = ok d
as_dict _ e = err e

abbrev no_company : Raised
no_company = provider_request "configured provider returned a record without a company object"

abbrev no_name : Raised
no_name = provider_request "configured provider returned a company without a name"

abbrev synthetic_refused : Raised
synthetic_refused = provider_request "configured provider returned a synthetic record"

-- `not isinstance(name, str) or not name.strip()`
abbrev pub is_blank : Json → Bool
is_blank (str s) = strip s == ""
is_blank _ = true

abbrev contact_dict : Json → Option Fields
contact_dict (obj d) = some d
contact_dict _ = none

-- the body of the loop over the records
unfoldable pub convert : Env → HttpLeadProvider → String → Json → Result ProviderLead
convert env p now v = do
  r ← as_dict v no_company
  company ← as_dict (get r "company") no_company
  raise_if (is_blank (get company "name")) no_name
  let status = text_of env (
      or_else (get r "data_status") (or_else (get company "data_status") (str "PROVIDER_SUPPLIED")))
  raise_if (upper status == "SYNTHETIC") synthetic_refused
  let provenance =
      text_of env
        (or_else (get r "data_source") (or_else (str p.data_source) (str p.provider_name)))
  ok (record {
    provider = p.provider_name;
    company = insert "data_source" (str provenance) company;
    contact = contact_dict (get r "contact");
    observed_at = text_of env (or_else (get r "observed_at") (str now));
    use_policy = text_of env (or_else (get r "use_policy") (str p.use_policy));
    data_status = status;
  })

unfoldable pub convert_all :
    Env → HttpLeadProvider → String → List Json → Result (List ProviderLead)
convert_all env p now [] = ok []
convert_all env p now (v ∷ vs) = do
  lead ← convert env p now v
  rest ← convert_all env p now vs
  ok (lead ∷ rest)

-- `HttpLeadProvider.search`, from the outcome of the exchange and the time as a text
unfoldable pub search_http :
    Env → HttpLeadProvider → String → Option Json → Result (List ProviderLead)
search_http env p now none = err (provider_request "configured provider request failed")
search_http env p now (some payload) = do
  records ← as_records (records_of payload)
  convert_all env p now records

pub data LeadProvider : Type 0 where
  synthetic : LeadProvider
  http : HttpLeadProvider → LeadProvider

-- `build_provider`; the time limit is the client library's
unfoldable pub build_provider : String → HttpLeadProvider → Result LeadProvider
build_provider mode p =
    if mode == "synthetic"
    then ok synthetic
    else if (mode == "http")
        && (not (p.url == "") && (not (p.token == "") && not (p.provider_name == "")))
    then ok (http p)
    else err (provider_configuration mode)

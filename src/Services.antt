-- ===== src/Services.antt =====
-- app/services.py: the score of a lead, its quality and the canonical domain.
pub mod Scores
pub mod Tests
use lead_generation_api_zyla.Prelude.{
  ℕ, ◌+◌, ◌-◌, ◌*◌, ◌/◌, min, max, String, Bool, true, false, not, ◌&&◌, ◌||◌, ◌==◌, Option, none,
  some, List, [], ◌∷◌, ◌++◌, map, length, keep, eqb, ltb, if◌then◌else◌,
}
use Prim.Native.Char.{code}
use lead_generation_api_zyla.Prelude.Text.{lower, strip, removeprefix, split_at, mem}
use lead_generation_api_zyla.Errors.{Result, ok, err, unexpected, ◌>>=◌}
use lead_generation_api_zyla.Json.{
  Json, null, bool, num, str, arr, obj, Fields, end, field, items, get, item, lookup, truthy,
  as_text,
}
use lead_generation_api_zyla.Env.{Env, text_of}
use lead_generation_api_zyla.Schemas.{LeadFilters}
use lead_generation_api_zyla.Models.{Breakdown}
use lead_generation_api_zyla.Filters.{
  range_min, range_max, range_given, nonempty, in_set, lowered, intersects, lt_bound, gt_bound,
  against, only_if,
}
use lead_generation_api_zyla.Providers.{ProviderLead}

pub record ScoredLead : Type 0 where
  pub source : ProviderLead
  pub lead_score : ℕ
  pub icp_score : ℕ
  pub breakdown : Breakdown

abbrev none_if_empty : String → Option String
none_if_empty s = if s == "" then none else some s

-- `s.split("/", 1)[0]`
unfoldable pub before_slash : String → String
before_slash String.[] = ""
before_slash (String.◌∷◌ c s) =
    let rest = before_slash s in if eqb (code c) b'/' then "" else String.◌∷◌ c rest

-- `normalize_domain` of a text
unfoldable pub normalize_domain : String → Option String
unfolding before_slash strip lower removeprefix
normalize_domain value =
    if value == ""
    then none
    else none_if_empty
        (before_slash (removeprefix (removeprefix (lower (strip value)) "https://") "http://"))

-- `normalize_domain(record.get("domain"))`
unfoldable pub domain_of : Fields → Result (Option String)
unfolding normalize_domain
domain_of company =
    let v = get company "domain" in
    if truthy v then (do s ← as_text v; ok (normalize_domain s)) else ok none

-- `record.contact or {}`
abbrev pub contact_or_empty : Option Fields → Fields
contact_or_empty none = end
contact_or_empty (some c) = c

-- one entry of the breakdown: `hit if given and matched else (neutral if not given else 0)`
unfoldable pub points : Bool → Bool → ℕ → ℕ → ℕ
points given matched hit neutral =
    if given && matched then hit else if not given then neutral else 0

-- the characters of a text, each a text
abbrev characters : String → List Json
characters String.[] = []
characters (String.◌∷◌ c s) = str (String.◌∷◌ c "") ∷ characters s

abbrev keys : Fields → List Json
keys end = []
keys (field k v rest) = str k ∷ keys rest

-- what a `for` goes through
abbrev iterate : Json → Result (List Json)
iterate (arr vs) = ok (items vs)
iterate (str s) = ok (characters s)
iterate (obj d) = ok (keys d)
iterate _ = err (unexpected "TypeError")

-- `company.get("technologies", [])`
abbrev pub technologies_of : Option Json → Result (List Json)
technologies_of none = ok []
technologies_of (some v) = iterate v

-- `contact.get("job_title", "")`
abbrev title_of : Option Json → Json
title_of none = str ""
title_of (some v) = v

-- `count is not None and …` over both bounds of the range
abbrev pub in_range : LeadFilters → Json → Result Bool
in_range f null = ok false
in_range f count = do
  below ← against lt_bound count (range_min f)
  above ← only_if (not below) (against gt_bound count (range_max f))
  ok (not below && not above)

unfoldable pub intent_points : Json → ℕ
intent_points signal = if truthy signal then 15 else 0

unfoldable pub total : Breakdown → ℕ
total b = b.industry + b.country + b.job_title + b.technology + b.company_size + b.intent

-- `max(0, min(100, round(sum(breakdown.values()))))`: the entries are whole
unfoldable pub clamp_score : ℕ → ℕ
clamp_score n = max 0 (min 100 n)

abbrev scored : ProviderLead → Breakdown → ScoredLead
scored lead b = record {
  source = lead;
  lead_score = clamp_score (total b);
  icp_score = clamp_score (total b);
  breakdown = b;
}

-- `xs and company[key] in set(xs)`
abbrev pub matches_set : ProviderLead → String → List String → Result Bool
matches_set lead key xs = only_if (nonempty xs) (do v ← item lead.company key; in_set v xs)

unfoldable pub score_provider_lead : Env → ProviderLead → LeadFilters → Result ScoredLead
score_provider_lead env lead f = do
  by_industry ← matches_set lead "industry" f.industries
  by_country ← matches_set lead "country" f.countries
  let titles = lowered f.job_titles
  let title = lower (text_of env (title_of (lookup "job_title" (contact_or_empty lead.contact))))
  let technologies = lowered f.technologies
  values ← technologies_of (lookup "technologies" lead.company)
  let technology_set = map (λ v. lower (text_of env v)) values
  fits ← in_range f (get lead.company "employee_count")
  ok (
      scored lead (record {
        industry = points (nonempty f.industries) by_industry 20 10;
        country = points (nonempty f.countries) by_country 10 5;
        job_title = points (nonempty titles) (mem title titles) 20 10;
        technology = points (nonempty technologies) (intersects technologies technology_set) 10 5;
        company_size = points (range_given f) fits 15 8;
        intent = intent_points (get lead.company "intent_signal");
      }))

-- `round(a / n)`, a half to the even neighbour
unfoldable pub round_div : ℕ → ℕ → ℕ
round_div a n =
    let q = a / n in
    let r = a - n * q in
    if ltb (2 * r) n || (eqb (2 * r) n && eqb (q - 2 * (q / 2)) 0) then q else q + 1

abbrev is_null : Json → Bool
is_null null = true
is_null _ = false

abbrev values : Fields → List Json
values end = []
values (field k v rest) = v ∷ values rest

abbrev quality_fields : ProviderLead → List Json
quality_fields lead =
    map (get lead.company) ("name" ∷ "domain" ∷ "industry" ∷ "country" ∷ "employee_count" ∷ [])
    ++ values (contact_or_empty lead.contact)

-- `completeness` of `quality_for`; its other entries are constants
unfoldable pub completeness : ProviderLead → ℕ
unfolding round_div
completeness lead =
    let fields = quality_fields lead in
    round_div (100 * length (keep (λ v. not (is_null v)) fields)) (max 1 (length fields))

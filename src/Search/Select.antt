-- ===== src/Search/Select.antt =====
-- Which provider records a search keeps, and in which order: `is_suppressed`, the scoring, the
-- minimum score, the sort and the limit of app/search_service.py.
pub mod Order
pub mod Unlisted
use lead_generation_api_zyla.Prelude.{
  ℕ, String, Bool, true, false, not, ◌&&◌, ◌==◌, Option, none, some, List, [], ◌∷◌, ◌++◌, any, keep,
  length, length-take-le, ◌≤◌, take, leb, if◌then◌else◌,
}
use lead_generation_api_zyla.Prelude.Text.{join}
use lead_generation_api_zyla.Errors.{Result, ok, err, unexpected, ◌>>=◌}
use lead_generation_api_zyla.Env.{Env}
use lead_generation_api_zyla.Json.{Json, str, Fields, end, get, truthy, as_text}
use lead_generation_api_zyla.Schemas.{
  LeadFilters, SortRequest, SortField, lead_score, company_name, updated_at, Direction, asc, desc,
  LeadSearchRequest,
}
use lead_generation_api_zyla.Models.{Suppression}
use lead_generation_api_zyla.Privacy.{hash_subject}
use lead_generation_api_zyla.Providers.{ProviderLead}
use lead_generation_api_zyla.Services.{ScoredLead, score_provider_lead}

-- a value that `" ".join` takes
abbrev join_text : Json → Result String
join_text (str s) = ok s
join_text _ = err (unexpected "TypeError")

-- the truthy values of a list, each of which must be a text for `" ".join`
abbrev name_parts : List Json → Result (List String)
name_parts [] = ok []
name_parts (v ∷ vs) = do
  rest ← name_parts vs
  if truthy v then (do s ← join_text v; ok (s ∷ rest)) else ok rest

abbrev of_contact : List (String × Json) → Option Fields → Result (List (String × Json))
of_contact subjects none = ok subjects
of_contact subjects (some end) = ok subjects
of_contact subjects (some c) = do
  names ← name_parts (get c "first_name" ∷ get c "last_name" ∷ [])
  ok (subjects ++ ("email", get c "email") ∷ ("contact", str (join " " names)) ∷ [])

-- the subjects that are checked, each with its type
unfoldable pub candidates : ProviderLead → Result (List (String × Json))
candidates lead =
    let of_company =
      ("domain", get lead.company "domain") ∷ ("company", get lead.company "name") ∷ [] in
    of_contact of_company lead.contact

-- `db.scalar(select(Suppression.id).where(…))`
abbrev pub suppression_exists : List Suppression → String → String → String → Bool
suppression_exists rows tenant_id subject_type subject_hash =
    any
      (λ r.
        (r.tenant_id == tenant_id)
        && ((r.subject_type == subject_type) && (r.subject_hash == subject_hash)))
      rows

module _ (env : Env) (tenant_id : String) (suppressions : List Suppression) where
  -- the loop over the candidates
  pub any_suppressed : List (String × Json) → Result Bool
  any_suppressed [] = ok false
  any_suppressed ((subject_type, subject) ∷ rest) =
      let later = any_suppressed rest in
      if truthy subject
      then (do
        s ← as_text subject
        let hidden = suppression_exists suppressions tenant_id subject_type (hash_subject env s)
        (if hidden then ok true else later))
      else later

  pub is_suppressed : ProviderLead → Result Bool
  unfolding any_suppressed candidates
  is_suppressed lead = do subjects ← candidates lead; any_suppressed subjects

  -- `[record for record in records if not is_suppressed(record)]`
  unfoldable pub unsuppressed : List ProviderLead → Result (List ProviderLead)
  unfolding is_suppressed
  unsuppressed [] = ok []
  unsuppressed (lead ∷ leads) = do
    hidden ← is_suppressed lead
    rest ← unsuppressed leads
    ok (if hidden then rest else lead ∷ rest)

-- `[score_provider_lead(record, filters) for record in records]`
unfoldable pub score_all : Env → LeadFilters → List ProviderLead → Result (List ScoredLead)
unfolding score_provider_lead
score_all env f [] = ok []
score_all env f (lead ∷ leads) = do
  s ← score_provider_lead env lead f
  rest ← score_all env f leads
  ok (s ∷ rest)

-- `min_score is None`, or the score reaches it
abbrev pub reaches : Option ℕ → ScoredLead → Bool
reaches none s = true
reaches (some n) s = leb n s.lead_score

-- whether `a` may stand before `b`
abbrev pub in_order : Direction → ScoredLead → ScoredLead → Bool
in_order asc a b = leb a.lead_score b.lead_score
in_order desc a b = leb b.lead_score a.lead_score

abbrev pub insert_sorted : Direction → ScoredLead → List ScoredLead → List ScoredLead
insert_sorted d x [] = x ∷ []
insert_sorted d x (y ∷ ys) = if in_order d x y then x ∷ y ∷ ys else y ∷ insert_sorted d x ys

-- Python's sort is stable in both directions, as this one is.
abbrev pub sort_scored : Direction → List ScoredLead → List ScoredLead
sort_scored d [] = []
sort_scored d (x ∷ xs) = insert_sorted d x (sort_scored d xs)

-- only the field `lead_score` is sorted by
abbrev sort_by : SortField → Direction → List ScoredLead → List ScoredLead
sort_by lead_score d xs = sort_scored d xs
sort_by company_name d xs = xs
sort_by updated_at d xs = xs

abbrev pub ordered : SortRequest → List ScoredLead → List ScoredLead
ordered sort xs = sort_by sort.field sort.direction xs

-- the leads that the search returns
unfoldable pub choose : LeadSearchRequest → List ScoredLead → List ScoredLead
choose payload scored =
    take payload.limit (ordered payload.sort (keep (reaches payload.filters.lead_score_min) scored))

pub length-choose-le :
    (payload : LeadSearchRequest) (scored : List ScoredLead)
    → length (choose payload scored) ≤ payload.limit
unfolding choose
length-choose-le payload scored = length-take-le payload.limit _

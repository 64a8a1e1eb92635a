-- ===== src/Search/Persist/Answers.antt =====
-- About the loop of app/search_service.py over the chosen leads: its responses against the leads.
use lead_generation_api_zyla.Prelude.{
  ℕ, String, true, ◌&&◌, ◌==◌, ◌≡◌, refl, sym, ap, ◌∙◌, suc, Option, none, some, List, [], ◌∷◌,
  length, find, Bool-cases, inl, inr, arith, eq_iff,
}
use lead_generation_api_zyla.Errors.{Result, ok, err, Holds}
use lead_generation_api_zyla.Errors
use lead_generation_api_zyla.Exec.{
  Returns, Returns-bind, Returns-then, Returns-lift, Returns-eq-ok, ◌>>=◌,
}
use lead_generation_api_zyla.Env.{Env}
use lead_generation_api_zyla.Json.{Fields}
use lead_generation_api_zyla.Schemas.Responses.{LeadResponse, ProvenanceResponse}
use lead_generation_api_zyla.Models.{Company, Catalog}
use lead_generation_api_zyla.Providers.{ProviderLead}
use lead_generation_api_zyla.Services.{ScoredLead, domain_of, completeness}
use lead_generation_api_zyla.Search.Rows.{
  same_text, company_by_domain, create_company, found_or, get_or_create_company,
}
use lead_generation_api_zyla.Search.Persist.{
  scores_response, provenance_response, persist_item, persist_items,
}

-- what the answer names as its source is the record's
abbrev pub IsProvenanceOf : List ProvenanceResponse → ProviderLead → Type 0
IsProvenanceOf (p ∷ []) source =
    (p.provider ≡ source.provider)
    × (p.use_policy ≡ source.use_policy)
    × (p.data_status ≡ source.data_status)
IsProvenanceOf _ source = ⊥

-- a response to a lead: its scores, the domain of its company, its completeness and its source
pub record IsAnswer (r : LeadResponse) (s : ScoredLead) : Type 0 where
  pub scores : r.scores ≡ scores_response s
  pub domain : domain_of s.source.company ≡ ok r.company.domain
  pub complete : r.quality.completeness ≡ completeness s.source
  pub provenance : IsProvenanceOf r.provenance s.source

-- each response answers the lead in its place
abbrev pub Answers : List LeadResponse → List ScoredLead → Type 0
Answers [] [] = Unit
Answers (r ∷ rs) (s ∷ ss) = IsAnswer r s × Answers rs ss
Answers _ _ = ⊥

pub length-Answers :
    (rs : List LeadResponse) (ss : List ScoredLead) → Answers rs ss → length rs ≡ length ss
length-Answers [] [] h = refl
length-Answers [] (s ∷ ss) h = absurd h
length-Answers (r ∷ rs) [] h = absurd h
length-Answers (r ∷ rs) (s ∷ ss) h = ap suc (length-Answers rs ss h.1)

same_text-eq : (a : Option String) (d : String) → same_text a (some d) ≡ true → a ≡ some d
same_text-eq none d h = cc
same_text-eq (some a) d h = ap some (ground (arith, eq_iff a d))

module _ (env : Env) (tenant_id : String) where
  found_domain :
      (d : String) (rows : List Company) (c : Company)
      → find (λ c. (c.tenant_id == tenant_id) && same_text c.canonical_domain (some d)) rows
        ≡ some c
      → c.canonical_domain ≡ some d
  found_domain d [] c h = cc
  found_domain d (x ∷ rows) c h =
      elim (Bool-cases ((x.tenant_id == tenant_id) && same_text x.canonical_domain (some d))) [
        | inl e ↦
            let same : x ≡ c = ground arith in
            ap (λ y. y.canonical_domain) (sym same)
            ∙ same_text-eq x.canonical_domain d (ground arith)
        | inr e ↦ found_domain d rows c (ground arith)
      ]

  company_by_domain-eq :
      (domain : Option String) (rows : List Company) (c : Company)
      → company_by_domain env tenant_id domain rows ≡ some c
      → c.canonical_domain ≡ domain
  unfolding company_by_domain
  company_by_domain-eq none rows c h = cc
  company_by_domain-eq (some d) rows c h = found_domain d rows c h

  create_company-Returns :
      (domain : Option String) (d : Fields)
      → Returns
          (λ (c : Company). c.canonical_domain ≡ domain)
          (create_company env tenant_id domain d)
  unfolding create_company
  create_company-Returns domain d = Returns-bind _ _ λ name_value. Returns-bind _ _ λ name.
      Returns-bind _ _ λ website. Returns-bind _ _ λ industry. Returns-bind _ _ λ country.
        Returns-bind _ _ λ employees.
          Returns-bind _ _
            λ status. Returns-bind _ _ λ id. Returns-bind _ _ λ u. record { at = λ s. refl }

  get_or_create_company-Returns :
      (d : Fields)
      → Returns
          (λ (c : Company). domain_of d ≡ ok c.canonical_domain)
          (get_or_create_company env tenant_id d)
  unfolding get_or_create_company
  get_or_create_company-Returns d = Returns-then _ _ (Returns-lift (domain_of d)) λ domain e.
      Returns-then
        {P = λ (found : Option Company).
          (c : Company) → found ≡ some c → c.canonical_domain ≡ domain}
        _ _ (record { at = λ s c h. company_by_domain-eq domain s.companies c h })
        λ found k. found_or-Returns d domain found e k
    where
      found_or-Returns :
          (d : Fields) (domain : Option String) (found : Option Company)
          → domain_of d ≡ ok domain
          → ((c : Company) → found ≡ some c → c.canonical_domain ≡ domain)
          → Returns
              (λ (c : Company). domain_of d ≡ ok c.canonical_domain)
              (found_or env tenant_id found (create_company env tenant_id domain d))
      found_or-Returns d domain none e k = record {
        at = λ s.
            made (create_company env tenant_id domain d s).0
              ((create_company-Returns domain d).at s);
      }
        where
          made :
              (q : Result Company)
              → Holds (λ c. c.canonical_domain ≡ domain) q
              → Holds (λ c. domain_of d ≡ ok c.canonical_domain) q
          made (ok c) f = e ∙ ap ok (sym f)
          made (err x) f = tt
      found_or-Returns d domain (some c) e k = record { at = λ s. e ∙ ap ok (sym (k c refl)) }

  provenance-Returns :
      (source : ProviderLead)
      → Holds (λ p. IsProvenanceOf (p ∷ []) source) (provenance_response env tenant_id source)
  unfolding provenance_response
  provenance-Returns source = each _ _
    where
      each :
          (q : Result ℕ) (origin : Result (Option String))
          → Holds
              (λ p. IsProvenanceOf (p ∷ []) source)
              (Errors.◌>>=◌ q λ at. Errors.◌>>=◌ origin λ text. ok (record {
                provider = source.provider;
                observed_at = at;
                use_policy = source.use_policy;
                data_status = source.data_status;
                data_source = text;
              }))
      each (ok at) (ok text) = (refl, refl, refl)
      each (ok at) (err x) = tt
      each (err x) origin = tt

  persist_item-Returns :
      (s : ScoredLead) → Returns (λ r. IsAnswer r s) (persist_item env tenant_id s)
  unfolding persist_item
  persist_item-Returns s =
      Returns-then _ _ (get_or_create_company-Returns s.source.company) λ company e.
        Returns-bind _ _ λ contact. Returns-bind _ _ λ lead.
          Returns-then _ _ (Returns-lift (provenance_response env tenant_id s.source))
            λ provenance p. record {
              at = λ c. record {
                scores = refl;
                domain = e;
                complete = refl;
                provenance =
                    Errors.Holds-eq-ok (λ x. IsProvenanceOf (x ∷ []) s.source)
                      (provenance-Returns s.source) p;
              };
            }

  pub persist_items-Answers :
      (ss : List ScoredLead) (c : Catalog) (rs : List LeadResponse)
      → (persist_items env tenant_id ss c).0 ≡ ok rs
      → Answers rs ss
  unfolding persist_items ◌>>=◌
  persist_items-Answers [] c [] h = tt
  persist_items-Answers [] c (r ∷ rs) h = cc
  persist_items-Answers (s ∷ ss) c [] h = ground arith
  persist_items-Answers (s ∷ ss) c (r ∷ rs) h =
      let c' = (persist_item env tenant_id s c).1 in
      (
        Returns-eq-ok c r (persist_item-Returns s) (ground arith),
        persist_items-Answers ss c' rs (ground arith),
      )

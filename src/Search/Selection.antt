-- ===== src/Search/Selection.antt =====
-- About `_persist_lead_search` of app/search_service.py: which leads an answer holds.
use lead_generation_api_zyla.Prelude.{ℕ, ◌≡◌, refl, subst, sym, ap, List, [], ◌∷◌, All}
use mathlib.Core.List.{Memᴰ}
use lead_generation_api_zyla.Errors.{ok, >>=-eq-ok}
use lead_generation_api_zyla.Env.{Env}
use lead_generation_api_zyla.Schemas.{
  SortField, lead_score, company_name, updated_at, Direction, LeadFilters,
}
use lead_generation_api_zyla.Schemas.Responses.{LeadResponse, LeadSearchResponse}
use lead_generation_api_zyla.Models.{Db, transaction-eq-ok}
use lead_generation_api_zyla.Providers.{ProviderLead}
use lead_generation_api_zyla.Services.{ScoredLead, score_provider_lead}
use lead_generation_api_zyla.Services.Scores.{score_provider_lead-IsScoreOf}
use lead_generation_api_zyla.Search.Persist.Answers.{Answers, persist_items-Answers}
use lead_generation_api_zyla.Search.Select.{score_all}
use lead_generation_api_zyla.Search.Select.Unlisted.{NamesNone, unsuppressed-NamesNone}
use lead_generation_api_zyla.Search.Select.Order.{
  Precedes, IsOrdered, AtLeast, choose-AtLeast, choose-IsOrdered, All-choose,
}
use lead_generation_api_zyla.Search.{Call, search_response, persist_lead_search}
use lead_generation_api_zyla.Search.Inversion.{search_body-Succeeds, plan-Plans}

every_member {ℓ} :
    {A : Type ℓ} (all xs : List A) → ((a : A) → Memᴰ a xs → Memᴰ a all) → All (λ a. Memᴰ a all) xs
every_member all [] h = tt
every_member all (x ∷ xs) h = (h x (Memᴰ.head refl), every_member all xs (λ a m. h a (Memᴰ.tail m)))

All-Memᴰ {ℓ} : {A : Type ℓ} (xs : List A) → All (λ a. Memᴰ a xs) xs
All-Memᴰ xs = every_member xs xs (λ a m. m)

-- the score that a response shows
abbrev pub shown_score : LeadResponse → ℕ
shown_score r = r.scores.lead_score

All-Answers :
    (P : ℕ → Type 0) (rs : List LeadResponse) (ss : List ScoredLead)
    → Answers rs ss
    → All (λ s. P s.lead_score) ss
    → All (λ r. P (shown_score r)) rs
All-Answers P [] [] a h = tt
All-Answers P [] (s ∷ ss) a h = tt
All-Answers P (r ∷ rs) [] a h = absurd a
All-Answers P (r ∷ rs) (s ∷ ss) (e, a) (p, h) =
    (subst P (sym (ap (λ x. x.lead_score) e.scores)) p, All-Answers P rs ss a h)

IsOrdered-Answers :
    (d : Direction) (rs : List LeadResponse) (ss : List ScoredLead)
    → Answers rs ss
    → IsOrdered d (λ s. s.lead_score) ss
    → IsOrdered d shown_score rs
IsOrdered-Answers d [] [] a h = tt
IsOrdered-Answers d [] (s ∷ ss) a h = tt
IsOrdered-Answers d (r ∷ rs) [] a h = absurd a
IsOrdered-Answers d (r ∷ rs) (s ∷ ss) (e, a) (first, h) =
    let same : shown_score r ≡ s.lead_score = ap (λ x. x.lead_score) e.scores in
    (
      All-Answers (Precedes d (shown_score r)) rs ss a
          (subst (λ n. All (λ y. Precedes d n y.lead_score) ss) (sym same) first),
      IsOrdered-Answers d rs ss a h,
    )

-- scoring keeps the record it scores
score_all-source :
    (P : ProviderLead → Type 0) (env : Env) (f : LeadFilters) (leads : List ProviderLead)
    (scored : List ScoredLead)
    → score_all env f leads ≡ ok scored
    → All P leads
    → All (λ s. P s.source × (score_provider_lead env s.source f ≡ ok s)) scored
unfolding score_all
score_all-source P env f [] [] e h = tt
score_all-source P env f [] (s ∷ ss) e h = cc
score_all-source P env f (lead ∷ leads) ss e (p, h) =
    let (s, e1, k) = >>=-eq-ok (score_provider_lead env lead f) _ e in
    let (rest, e2, l) = >>=-eq-ok (score_all env f leads) _ k in
    let same : s ∷ rest ≡ ss = cc in
    let own = sym ((score_provider_lead-IsScoreOf env lead f s e1).0) in
    subst (All (λ x. P x.source × (score_provider_lead env x.source f ≡ ok x))) same (
      (subst P own p, subst (λ x. score_provider_lead env x f ≡ ok s) own e1),
      score_all-source P env f leads rest e2 h,
    )

-- the order of an answer: by score, where that is the field asked for
abbrev pub Sorted : Direction → SortField → List LeadResponse → Type 0
Sorted d lead_score rows = IsOrdered d shown_score rows
Sorted d company_name rows = Unit
Sorted d updated_at rows = Unit

Sorted-of :
    (d : Direction) (f : SortField) (rows : List LeadResponse)
    → (f ≡ lead_score → IsOrdered d shown_score rows)
    → Sorted d f rows
Sorted-of d lead_score rows h = h refl
Sorted-of d company_name rows h = tt
Sorted-of d updated_at rows h = tt

module _ (env : Env) (call : Call) where
  -- a scored lead is one of the records, names nothing suppressed and has the scores of its record
  pub record IsFound (records : List ProviderLead) (db : Db) (s : ScoredLead) : Type 0 where
    pub given : Memᴰ s.source records
    pub unlisted : NamesNone env call.tenant_id db.suppressions s.source
    pub is_scored : score_provider_lead env s.source call.payload.filters ≡ ok s

  pub record Selects (records : List ProviderLead) (db : Db) (r : LeadSearchResponse) : Type 0 where
    pub chosen : List ScoredLead
    pub answers : Answers r.data_rows chosen
    pub found : All (IsFound records db) chosen
    pub at_least :
        All (λ row. AtLeast call.payload.filters.lead_score_min (shown_score row)) r.data_rows
    pub ordered : Sorted call.payload.sort.direction call.payload.sort.field r.data_rows

  All-IsFound :
      (records : List ProviderLead) (db : Db) (ss : List ScoredLead)
      → All
          (λ s.
            (Memᴰ s.source records × NamesNone env call.tenant_id db.suppressions s.source)
            × (score_provider_lead env s.source call.payload.filters ≡ ok s))
          ss
      → All (IsFound records db) ss
  All-IsFound records db [] h = tt
  All-IsFound records db (s ∷ ss) (((m, u), e), h) =
      (record { given = m; unlisted = u; is_scored = e }, All-IsFound records db ss h)

  pub search-Selects :
      (records : List ProviderLead) (db : Db) (r : LeadSearchResponse) (db' : Db)
      → persist_lead_search env call records db ≡ (ok r, db')
      → Selects records db r
  unfolding persist_lead_search search_response
  search-Selects records db r db' h =
      let s = search_body-Succeeds env call records db r db' (transaction-eq-ok _ db r db' h) in
      let c = s.charges in
      let p = plan-Plans env call s.tenant records db s.chosen s.is_planned in
      let answers =
        persist_items-Answers env call.tenant_id s.chosen db.catalog c.rows
          (ap (λ q. q.0) c.is_persisted) in
      rw (c.is_answered) (record {
        chosen = s.chosen;
        answers = answers;
        found = subst (All (IsFound records db)) (sym p.is_chosen) (
            All-choose _ call.payload p.scored (
              All-IsFound records db p.scored (
                score_all-source _ env call.payload.filters p.shown p.scored p.is_scored (
                  unsuppressed-NamesNone env call.tenant_id db.suppressions (λ l. Memᴰ l records)
                    records p.shown p.is_shown (All-Memᴰ records)))));
        at_least =
            All-Answers _ c.rows s.chosen answers
              (subst (All _) (sym p.is_chosen) (choose-AtLeast call.payload p.scored));
        ordered = Sorted-of call.payload.sort.direction call.payload.sort.field c.rows (λ e.
            IsOrdered-Answers call.payload.sort.direction c.rows s.chosen answers (
              subst (IsOrdered call.payload.sort.direction _) (sym p.is_chosen)
                (choose-IsOrdered call.payload p.scored e)));
      })

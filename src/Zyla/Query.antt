-- ===== src/Zyla/Query.antt =====
-- About `parse_zyla_query` and `query_to_payload` of app/zyla.py: the requests that they make.
use lead_generation_api_zyla.Prelude.{
  ℕ, String, false, ◌==◌, ◌≡◌, refl, subst, Option, none, some, List, [], length, ltb, any,
  if◌then◌else◌, arith, Bool-cases, inl, inr,
}
use Prim.Native.String.{count}
use lead_generation_api_zyla.Prelude.Int.{ℤ, pos, negsuc, ◌≤ℤ◌}
use lead_generation_api_zyla.Errors.{ok, >>=-eq-ok, raise_if-then}
use lead_generation_api_zyla.Env.{Env}
use lead_generation_api_zyla.Schemas.{EmployeeRange, LeadSearchRequest}
use lead_generation_api_zyla.Settings.{Settings}
use lead_generation_api_zyla.Zyla.{
  ZylaQuery, RawQuery, csv_items, csv_checked, csv_values, exceeds, below_zero, off_scale,
  off_limits, parse_lists, parse_zyla_query, range_of, score_of, limit_of, at_most, payload,
  query_to_payload,
}

not_longer_than_none : (maximum : ℕ) → ltb maximum 0 ≡ false
not_longer_than_none maximum = ground arith

-- the list that `_csv_values` returns is no longer than allowed
checked-length :
    (field : String) (maximum : ℕ) (items result : List String)
    → csv_checked field maximum items ≡ ok result
    → ltb maximum (length result) ≡ false
checked-length field maximum items result h =
    let (short, h1) = raise_if-then (ltb maximum (length items)) _ h in
    let (_, h2) = raise_if-then (any (λ i. ltb 100 (count i)) items) _ h1 in
    let same : items ≡ result = cc in subst (λ xs. ltb maximum (length xs) ≡ false) same short

csv-length :
    (values : Option String) (field : String) (maximum : ℕ) (items : List String)
    → csv_values values field maximum ≡ ok items
    → ltb maximum (length items) ≡ false
csv-length none field maximum items h =
    let same : [] ≡ items = cc in
    subst (λ xs. ltb maximum (length xs) ≡ false) same (not_longer_than_none maximum)
csv-length (some values) field maximum items h = elim (Bool-cases (values == "")) [
  | inl e ↦
      let h' =
        subst (λ b. (if b then ok [] else csv_checked field maximum (csv_items values)) ≡ ok items)
          e h in
      let same : [] ≡ items = cc in
      subst (λ xs. ltb maximum (length xs) ≡ false) same (not_longer_than_none maximum)
  | inr e ↦ checked-length field maximum (csv_items values) items (
      subst (λ b. (if b then ok [] else csv_checked field maximum (csv_items values)) ≡ ok items) e
        h)
]

at_most-ok : (n : ℕ) (xs : List String) → ltb n (length xs) ≡ false → at_most n xs ≡ ok xs
at_most-ok n xs h = rw h refl

range-ok :
    (low high : Option ℤ)
    → exceeds low high ≡ false
    → below_zero low ≡ false
    → below_zero high ≡ false
    → (r : Option EmployeeRange) × (range_of low high ≡ ok r)
range-ok none none e a b = (none, refl)
range-ok none (some (pos n)) e a b = (_, refl)
range-ok (some (pos n)) none e a b = (_, refl)
range-ok (some (pos m)) (some (pos n)) e a b =
    (some (record { min = some m; max = some n }), ground arith)
range-ok none (some (negsuc n)) e a b = absurd (ground arith)
range-ok (some (pos m)) (some (negsuc n)) e a b = absurd (ground arith)
range-ok (some (negsuc m)) high e a b = absurd (ground arith)

score-ok : (z : Option ℤ) → off_scale z ≡ false → (n : Option ℕ) × (score_of z ≡ ok n)
score-ok none h = (none, refl)
score-ok (some (pos n)) h = (some n, ground arith)
score-ok (some (negsuc n)) h = absurd (ground arith)

limit-ok :
    (maximum z : ℤ)
    → maximum ≤ℤ pos 100
    → off_limits maximum z ≡ false
    → (n : ℕ) × (limit_of z ≡ ok n) × (pos n ≤ℤ maximum)
limit-ok maximum (pos n) small h = (n, ground arith, ground arith)
limit-ok maximum (negsuc n) small h = absurd (ground arith)

-- the lists that were parsed
record Lists (raw : RawQuery) (q : ZylaQuery) : Type 0 where
  countries : ltb 20 (length q.countries) ≡ false
  industries : ltb 20 (length q.industries) ≡ false
  job_titles : ltb 50 (length q.job_titles) ≡ false
  technologies : ltb 50 (length q.technologies) ≡ false
  employee_min : q.employee_min ≡ raw.employee_min
  employee_max : q.employee_max ≡ raw.employee_max
  lead_score_min : q.lead_score_min ≡ raw.lead_score_min
  limit : q.limit ≡ raw.limit

parse_lists-Lists : (raw : RawQuery) (q : ZylaQuery) → parse_lists raw ≡ ok q → Lists raw q
parse_lists-Lists raw q h =
    let (a, e1, h1) = >>=-eq-ok (csv_values raw.countries "countries" 20) _ h in
    let (b, e2, h2) = >>=-eq-ok (csv_values raw.industries "industries" 20) _ h1 in
    let (c, e3, h3) = >>=-eq-ok (csv_values raw.job_titles "job_titles" 50) _ h2 in
    let (d, e4, h4) = >>=-eq-ok (csv_values raw.technologies "technologies" 50) _ h3 in
    rw (← result_of h4) (record {
      countries = csv-length raw.countries "countries" 20 a e1;
      industries = csv-length raw.industries "industries" 20 b e2;
      job_titles = csv-length raw.job_titles "job_titles" 50 c e3;
      technologies = csv-length raw.technologies "technologies" 50 d e4;
      employee_min = refl;
      employee_max = refl;
      lead_score_min = refl;
      limit = refl;
    })
  where
    result_of : {x y : ZylaQuery} → ok x ≡ ok y → x ≡ y
    result_of e = cc

-- If the largest limit of the configuration is at most 100, as `validate` makes sure, then every
-- query that is parsed becomes a search request that passes all validators, and asks for at most
-- that many leads.
pub parsed_is_valid :
    (env : Env) (s : Settings) (raw : RawQuery) (q : ZylaQuery)
    → s.zyla_max_limit ≤ℤ pos 100
    → parse_zyla_query env s raw ≡ ok q
    → (p : LeadSearchRequest) × (query_to_payload q ≡ ok p) × (pos p.limit ≤ℤ s.zyla_max_limit)
unfolding parse_zyla_query query_to_payload
parsed_is_valid env s raw q small h =
    let (e1, h1) = raise_if-then (exceeds raw.employee_min raw.employee_max) _ h in
    let (e2, h2) = raise_if-then (below_zero raw.employee_min) _ h1 in
    let (e3, h3) = raise_if-then (below_zero raw.employee_max) _ h2 in
    let (e4, h4) = raise_if-then (off_scale raw.lead_score_min) _ h3 in
    let (e5, h5) = raise_if-then (off_limits s.zyla_max_limit raw.limit) _ h4 in
    let l = parse_lists-Lists raw q h5 in
    let (range, r1) = range-ok raw.employee_min raw.employee_max e1 e2 e3 in
    let (score, r2) = score-ok raw.lead_score_min e4 in
    let (limit, r3, within) = limit-ok s.zyla_max_limit raw.limit small e5 in
    (
      payload q.countries q.industries range q.job_titles q.technologies score limit,
      rw
          (
            at_most-ok 20 q.countries l.countries,
            at_most-ok 20 q.industries l.industries,
            l.employee_min,
            l.employee_max,
            r1,
            at_most-ok 50 q.job_titles l.job_titles,
            at_most-ok 50 q.technologies l.technologies,
            l.lead_score_min,
            r2,
            l.limit,
            r3,
          )
          refl,
      within,
    )

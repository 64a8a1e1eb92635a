-- ===== src/Search/Select/Order.antt =====
-- About the minimum score, the sort and the limit of app/search_service.py.
use lead_generation_api_zyla.Prelude.{
  ℕ, ◌≤◌, true, false, ◌≡◌, Option, none, some, List, [], ◌∷◌, All, All-take, All-keep, keep_sound,
  Bool-cases, inl, inr, keep, take, zero, suc, arith,
}
use lead_generation_api_zyla.Schemas.{
  SortField, lead_score, company_name, updated_at, Direction, asc, desc, LeadSearchRequest,
}
use lead_generation_api_zyla.Services.{ScoredLead}
use lead_generation_api_zyla.Search.Select.{
  reaches, in_order, insert_sorted, sort_scored, sort_by, choose,
}

-- `a` may stand before `b`
abbrev pub Precedes : Direction → ℕ → ℕ → Type 0
Precedes asc a b = a ≤ b
Precedes desc a b = b ≤ a

-- each number may stand before all that follow it
abbrev pub IsOrdered {ℓ} : {A : Type ℓ} → Direction → (A → ℕ) → List A → Type 0
IsOrdered d f [] = Unit
IsOrdered d f (x ∷ xs) = All (λ y. Precedes d (f x) (f y)) xs × IsOrdered d f xs

Precedes-of_in_order :
    (d : Direction) (x y : ScoredLead)
    → in_order d x y ≡ true
    → Precedes d x.lead_score y.lead_score
Precedes-of_in_order asc x y h = ground arith
Precedes-of_in_order desc x y h = ground arith

Precedes-of_out_of_order :
    (d : Direction) (x y : ScoredLead)
    → in_order d x y ≡ false
    → Precedes d y.lead_score x.lead_score
Precedes-of_out_of_order asc x y h = ground arith
Precedes-of_out_of_order desc x y h = ground arith

Precedes-trans : (d : Direction) (a b c : ℕ) → Precedes d a b → Precedes d b c → Precedes d a c
Precedes-trans asc a b c h k = omega arith
Precedes-trans desc a b c h k = omega arith

module _ (P : ScoredLead → Type 0) (d : Direction) where
  All-insert_sorted :
      (x : ScoredLead) (ys : List ScoredLead) → P x → All P ys → All P (insert_sorted d x ys)
  All-insert_sorted x [] p h = (p, tt)
  All-insert_sorted x (y ∷ ys) p (q, h) = elim (Bool-cases (in_order d x y)) [
    | inl e ↦ rw e (p, (q, h))
    | inr e ↦ rw e (q, All-insert_sorted x ys p h)
  ]

  All-sort_scored : (xs : List ScoredLead) → All P xs → All P (sort_scored d xs)
  All-sort_scored [] h = tt
  All-sort_scored (x ∷ xs) (p, h) = All-insert_sorted x (sort_scored d xs) p (All-sort_scored xs h)

module _ (d : Direction) where
  abbrev Before : ScoredLead → ScoredLead → Type 0
  Before x y = Precedes d x.lead_score y.lead_score

  Before-All :
      (x y : ScoredLead) (ys : List ScoredLead) → Before x y → All (Before y) ys → All (Before x) ys
  Before-All x y [] p h = tt
  Before-All x y (z ∷ zs) p (q, h) =
      (Precedes-trans d x.lead_score y.lead_score z.lead_score p q, Before-All x y zs p h)

  insert_sorted-IsOrdered :
      (x : ScoredLead) (ys : List ScoredLead)
      → IsOrdered d (λ s. s.lead_score) ys
      → IsOrdered d (λ s. s.lead_score) (insert_sorted d x ys)
  insert_sorted-IsOrdered x [] h = (tt, tt)
  insert_sorted-IsOrdered x (y ∷ ys) (first, h) = elim (Bool-cases (in_order d x y)) [
    | inl e ↦
        let p = Precedes-of_in_order d x y e in rw e ((p, Before-All x y ys p first), (first, h))
    | inr e ↦ rw e (
      All-insert_sorted (Before y) d x ys (Precedes-of_out_of_order d x y e) first,
      insert_sorted-IsOrdered x ys h,
    )
  ]

  sort_scored-IsOrdered :
      (xs : List ScoredLead) → IsOrdered d (λ s. s.lead_score) (sort_scored d xs)
  sort_scored-IsOrdered [] = tt
  sort_scored-IsOrdered (x ∷ xs) =
      insert_sorted-IsOrdered x (sort_scored d xs) (sort_scored-IsOrdered xs)

IsOrdered-take {ℓ} :
    {A : Type ℓ} (d : Direction) (f : A → ℕ) (n : ℕ) (xs : List A)
    → IsOrdered d f xs
    → IsOrdered d f (take n xs)
IsOrdered-take d f zero xs h = tt
IsOrdered-take d f (suc n) [] h = tt
IsOrdered-take d f (suc n) (x ∷ xs) (first, h) = (All-take _ n xs first, IsOrdered-take d f n xs h)

-- the minimum score, as the request states it
abbrev pub AtLeast : Option ℕ → ℕ → Type 0
AtLeast none n = Unit
AtLeast (some least) n = least ≤ n

AtLeast-of_reaches :
    (least : Option ℕ) (s : ScoredLead) → reaches least s ≡ true → AtLeast least s.lead_score
AtLeast-of_reaches none s h = tt
AtLeast-of_reaches (some least) s h = ground arith

All-AtLeast :
    (least : Option ℕ) (xs : List ScoredLead)
    → All (λ s. reaches least s ≡ true) xs
    → All (λ s. AtLeast least s.lead_score) xs
All-AtLeast least [] h = tt
All-AtLeast least (x ∷ xs) (p, h) = (AtLeast-of_reaches least x p, All-AtLeast least xs h)

All-sort_by :
    (P : ScoredLead → Type 0) (field : SortField) (d : Direction) (xs : List ScoredLead)
    → All P xs
    → All P (sort_by field d xs)
All-sort_by P lead_score d xs h = All-sort_scored P d xs h
All-sort_by P company_name d xs h = h
All-sort_by P updated_at d xs h = h

-- what is chosen reaches the minimum score, and is sorted if the sort is by score
pub choose-AtLeast :
    (payload : LeadSearchRequest) (scored : List ScoredLead)
    → All (λ s. AtLeast payload.filters.lead_score_min s.lead_score) (choose payload scored)
unfolding choose
choose-AtLeast payload scored = All-AtLeast payload.filters.lead_score_min _ (
    All-take _ payload.limit _ (
      All-sort_by _ payload.sort.field payload.sort.direction _
        (keep_sound (reaches payload.filters.lead_score_min) scored)))

pub choose-IsOrdered :
    (payload : LeadSearchRequest) (scored : List ScoredLead)
    → payload.sort.field ≡ lead_score
    → IsOrdered payload.sort.direction (λ s. s.lead_score) (choose payload scored)
unfolding choose
choose-IsOrdered payload scored e = rw e (
    IsOrdered-take payload.sort.direction _ payload.limit _ (
      sort_scored-IsOrdered payload.sort.direction
        (keep (reaches payload.filters.lead_score_min) scored)))

pub All-choose :
    (P : ScoredLead → Type 0) (payload : LeadSearchRequest) (scored : List ScoredLead)
    → All P scored
    → All P (choose payload scored)
unfolding choose
All-choose P payload scored h = All-take P payload.limit _ (
    All-sort_by P payload.sort.field payload.sort.direction _
      (All-keep P (reaches payload.filters.lead_score_min) scored h))

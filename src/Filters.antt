-- ===== src/Filters.antt =====
-- How app/providers.py and app/services.py read the filters and the values they compare with them.
use lead_generation_api_zyla.Prelude.{
  ℕ, String, Bool, true, false, ◌||◌, Option, none, some, List, [], ◌∷◌, map, any, is_some,
  if◌then◌else◌,
}
use lead_generation_api_zyla.Prelude.Int.{pos, ltb_ℤ}
use lead_generation_api_zyla.Prelude.Text.{lower, mem}
use lead_generation_api_zyla.Errors.{Result, ok, err, unexpected}
use lead_generation_api_zyla.Json.{Json, bool, num, str, arr, obj}
use lead_generation_api_zyla.Schemas.{LeadFilters}

-- `filters.get("employee_count") or {}`, entry by entry
abbrev pub range_min : LeadFilters → Option ℕ
range_min f = elim f.employee_count [ none ↦ none | some r ↦ r.min ]

abbrev pub range_max : LeadFilters → Option ℕ
range_max f = elim f.employee_count [ none ↦ none | some r ↦ r.max ]

-- whether that dict has an entry: `model_dump(exclude_none=True)` leaves out what is not given
abbrev pub range_given : LeadFilters → Bool
range_given f = is_some (range_min f) || is_some (range_max f)

abbrev pub nonempty {ℓ} : {A : Type ℓ} → List A → Bool
nonempty [] = false
nonempty (x ∷ xs) = true

-- `v in set(xs)`; a list or a dict cannot be hashed
abbrev pub in_set : Json → List String → Result Bool
in_set (str s) xs = ok (mem s xs)
in_set (arr _) xs = err (unexpected "TypeError")
in_set (obj _) xs = err (unexpected "TypeError")
in_set _ xs = ok false

-- `{x.lower() for x in xs}`
abbrev pub lowered : List String → List String
lowered = map lower

-- `xs.intersection(ys)` is not empty
abbrev pub intersects : List String → List String → Bool
intersects xs ys = any (λ x. mem x ys) xs

-- `v < n` for a bound n of the filters
abbrev pub lt_bound : Json → ℕ → Result Bool
lt_bound (num z) n = ok (ltb_ℤ z (pos n))
lt_bound (bool b) n = ok (ltb_ℤ (pos (if b then 1 else 0)) (pos n))
lt_bound _ n = err (unexpected "TypeError")

-- `v > n`
abbrev pub gt_bound : Json → ℕ → Result Bool
gt_bound (num z) n = ok (ltb_ℤ (pos n) z)
gt_bound (bool b) n = ok (ltb_ℤ (pos n) (pos (if b then 1 else 0)))
gt_bound _ n = err (unexpected "TypeError")

-- a test that is made only against a bound that is given
abbrev pub against : (Json → ℕ → Result Bool) → Json → Option ℕ → Result Bool
against test v none = ok false
against test v (some n) = test v n

-- `given and test`, which does not make the test when nothing is given
abbrev pub only_if : Bool → Result Bool → Result Bool
only_if true test = test
only_if false test = ok false

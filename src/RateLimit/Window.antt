-- ===== src/RateLimit/Window.antt =====
-- About `InMemoryRateLimiter.check` of app/rate_limit.py: the requests that one window admits.
use lead_generation_api_zyla.Prelude.{
  ℕ, suc, ◌+◌, ◌≤◌, Bool, true, false, ◌&&◌, ◌≡◌, refl, ap, ◌∙◌, List, [], ◌∷◌, ◌++◌, All,
  All-append, length, length-append, ltb, leb, Bool-cases, inl, inr, arith, if◌then◌else◌,
}
use lead_generation_api_zyla.Errors.{Result, ok, err}
use lead_generation_api_zyla.RateLimit.{window, expire, admit}

-- the events in the span of one window from `start`
abbrev pub in_span : ℕ → ℕ → ℕ → Bool
in_span start span t = leb start t && ltb t (start + span)

pub count_in : ℕ → ℕ → List ℕ → ℕ
count_in start span [] = 0
count_in start span (t ∷ ts) = (if in_span start span t then 1 else 0) + count_in start span ts

-- times that do not go back, from a time on
abbrev pub Ascending : ℕ → List ℕ → Type 0
Ascending now [] = Unit
Ascending now (t ∷ ts) = (now ≤ t) × Ascending t ts

count_in-append :
    (start span : ℕ) (xs ys : List ℕ)
    → count_in start span (xs ++ ys) ≡ count_in start span xs + count_in start span ys
unfolding count_in
count_in-append start span [] ys = omega arith
count_in-append start span (x ∷ xs) ys = omega (arith, count_in-append start span xs ys)

count_in-le-length : (start span : ℕ) (xs : List ℕ) → count_in start span xs ≤ length xs
unfolding count_in
count_in-le-length start span [] = omega arith
count_in-le-length start span (x ∷ xs) = ground (arith, count_in-le-length start span xs)

-- events from before the window count for nothing
count_in-expired :
    (start span t : ℕ) (xs : List ℕ)
    → All (λ x. x + span ≤ t) xs
    → in_span start span t ≡ true
    → count_in start span xs ≡ 0
unfolding count_in
count_in-expired start span t [] h e = refl
count_in-expired start span t (x ∷ xs) (p, h) e =
    ground (arith, count_in-expired start span t xs h e)

module _ (limit window_seconds : ℕ) where
  abbrev admitted_by : Result (Unit {0}) → ℕ → List ℕ
  admitted_by (ok _) now = now ∷ []
  admitted_by (err _) now = []

  -- the times of the requests that are admitted, one key checked at each of the times
  pub admitted : List ℕ → List ℕ → List ℕ
  admitted es [] = []
  admitted es (now ∷ times) =
      let (r, es') = admit limit window_seconds now es in admitted_by r now ++ admitted es' times

  -- what the loop drops is older than the window
  expire-split :
      (now : ℕ) (es : List ℕ)
      → (dropped : List ℕ) × (es ≡ dropped ++ expire limit window_seconds now es)
        × All (λ e. e + window limit window_seconds ≤ now) dropped
  unfolding expire
  expire-split now [] = ([], refl, tt)
  expire-split now (e ∷ es) = elim (Bool-cases (leb (e + window limit window_seconds) now)) [
    | inl old ↦
        let (dropped, same, h) = expire-split now es in
        rw old (e ∷ dropped, (λ i. e ∷ same i), (ground arith, h))
    | inr live ↦ rw live ([], refl, tt)
  ]

  later-expired :
      (now t : ℕ) (xs : List ℕ)
      → now ≤ t
      → All (λ x. x + window limit window_seconds ≤ now) xs
      → All (λ x. x + window limit window_seconds ≤ t) xs
  later-expired now t [] le h = tt
  later-expired now t (x ∷ xs) le (p, h) = (omega arith, later-expired now t xs le h)

  -- one more admitted request keeps the count within the limit
  count-admit :
      (start t : ℕ) (old es : List ℕ)
      → All (λ x. x + window limit window_seconds ≤ t) old
      → suc (length es) ≤ limit
      → count_in start (window limit window_seconds) old
          + count_in start (window limit window_seconds) es
        ≤ limit
      → count_in start (window limit window_seconds) old
          + count_in start (window limit window_seconds) (es ++ t ∷ [])
        ≤ limit
  unfolding count_in
  count-admit start t old es h room c =
      let span = window limit window_seconds in
      rw (count_in-append start span es (t ∷ [])) (elim (Bool-cases (in_span start span t)) [
        | inl inside ↦
            ground
              (arith, count_in-expired start span t old h inside, count_in-le-length start span es)
        | inr outside ↦ ground arith
      ])

  admitted-full :
      (t : ℕ) (es times : List ℕ)
      → leb limit (length (expire limit window_seconds t es)) ≡ true
      → admitted es (t ∷ times) ≡ admitted (expire limit window_seconds t es) times
  unfolding admitted admit
  admitted-full t es times full = rw full

  admitted-room :
      (t : ℕ) (es times : List ℕ)
      → leb limit (length (expire limit window_seconds t es)) ≡ false
      → admitted es (t ∷ times) ≡ t ∷ admitted (expire limit window_seconds t es ++ t ∷ []) times
  unfolding admitted admit
  admitted-room t es times room = rw room

  module _ (start : ℕ) where
    abbrev in_window : List ℕ → ℕ
    in_window = count_in start (window limit window_seconds)

    -- what the split of the expired events says of the counts
    split_counts :
        (t : ℕ) (es old dropped : List ℕ)
        → es ≡ dropped ++ expire limit window_seconds t es
        → (in_window es ≡ in_window dropped + in_window (expire limit window_seconds t es))
          × (in_window (old ++ dropped) ≡ in_window old + in_window dropped)
          × (length (expire limit window_seconds t es) ≤ length es)
    split_counts t es old dropped same =
        let live = expire limit window_seconds t es in
        let span = window limit window_seconds in
        (
          ap in_window same ∙ count_in-append start span dropped live,
          count_in-append start span old dropped,
          omega (arith, ap (λ l. length l) same, length-append dropped live),
        )

    admitted_bound :
        (times es old : List ℕ) (now : ℕ)
        → All (λ x. x + window limit window_seconds ≤ now) old
        → length es ≤ limit
        → Ascending now times
        → in_window old + in_window es ≤ limit
        → in_window old + in_window es + in_window (admitted es times) ≤ limit
    unfolding admitted count_in
    admitted_bound [] es old now h room asc c = omega arith
    admitted_bound (t ∷ times) es old now h room (le, asc) c =
        let (dropped, same, gone) = expire-split t es in
        let live = expire limit window_seconds t es in
        let old' = All-append _ old dropped (later-expired now t old le h) gone in
        let (c1, c2, shorter) = split_counts t es old dropped same in
        elim (Bool-cases (leb limit (length live))) [
          | inl full ↦ rw (admitted-full t es times full) (
              omega (
                arith,
                admitted_bound times live (old ++ dropped) t old' (omega arith) asc (omega arith),
              ))
          | inr free ↦
              let short : suc (length live) ≤ limit = ground arith in
              let kept = count-admit start t (old ++ dropped) live old' short (omega arith) in
              rw (admitted-room t es times free) (
                omega (
                  arith,
                  admitted_bound times (live ++ t ∷ []) (old ++ dropped) t old'
                      (omega (arith, length-append live (t ∷ []))) asc kept,
                  count_in-append start (window limit window_seconds) live (t ∷ []),
                ))
        ]

  -- Starting with no events, requests of one key at times that do not go back: however many there are
  -- and whatever their times, no span of one window holds more admitted requests than the limit.
  pub window_bound :
      (times : List ℕ) (start : ℕ)
      → Ascending 0 times
      → count_in start (window limit window_seconds) (admitted [] times) ≤ limit
  unfolding count_in
  window_bound times start asc =
      omega (arith, admitted_bound start times [] [] 0 tt (omega arith) asc (omega arith))

-- ===== src/RateLimit/Retry.antt =====
-- About the `retry_after` that the two limiters of app/rate_limit.py answer.
use lead_generation_api_zyla.Prelude.{
  ℕ, suc, ◌+◌, ◌*◌, ◌%◌, ◌≤◌, ◌<◌, ◌≡◌, ◌≢◌, true, false, List, [], ◌∷◌, length, keep,
  length-keep-le, ltb, leb, arith,
}
use mathlib.Core.Path.{subst₂}
use lead_generation_api_zyla.Errors.{ok, err, rate_limit_exceeded}
use lead_generation_api_zyla.RateLimit.{
  second, window, wait, retry_after, admit, redis_retry, redis_admit_live, redis_admit,
}

module _ (limit window_seconds : ℕ) where
  -- A client of the in-memory limiter that is rejected while its oldest event leaves the window at a
  -- fraction of a second, more than one second later, and that tries again exactly after the
  -- `retry_after` seconds it was told, with no request in between, is rejected again.
  pub retry_after_too_early :
      (now e : ℕ) (es : List ℕ)
      → limit ≤ suc (length es)
      → second < wait limit window_seconds now (e ∷ es)
      → wait limit window_seconds now (e ∷ es) % second ≢ 0
      → let later = now + retry_after limit window_seconds now (e ∷ es) * second in
        admit limit window_seconds later (e ∷ es)
        ≡ (err (rate_limit_exceeded (retry_after limit window_seconds later (e ∷ es))), e ∷ es)
  unfolding admit retry_after
  retry_after_too_early now e es full far fraction =
      let later = now + retry_after limit window_seconds now (e ∷ es) * second in
      let live : leb (e + window limit window_seconds) later ≡ false = ground arith in
      let over : leb limit (suc (length es)) ≡ true = ground arith in rw live (rw over)

  -- the oldest event has left the window by the time that the script names
  oldest_gone :
      (now e : ℕ) (es : List ℕ)
      → e + window limit window_seconds
        ≤ now + redis_retry limit window_seconds now (e ∷ es) * second
  unfolding redis_retry
  oldest_gone now e es = omega arith

  -- once the oldest event is gone there is room again
  room_later :
      (later e : ℕ) (es : List ℕ)
      → suc (length es) ≤ limit
      → e + window limit window_seconds ≤ later
      → (redis_admit limit window_seconds later (e ∷ es)).0 ≡ ok tt
  unfolding redis_admit
  room_later later e es fits gone =
      let dropped : ltb later (e + window limit window_seconds) ≡ false = ground arith in
      let live = keep (λ x. ltb later (x + window limit window_seconds)) es in
      let room : leb limit (length live) ≡ false =
        ground (arith, length-keep-le (λ x. ltb later (x + window limit window_seconds)) es) in
      rw dropped (rw room)

  retry-live :
      (now r : ℕ) (live es' : List ℕ)
      → 0 < limit
      → length live ≤ limit
      → redis_admit_live limit window_seconds now live ≡ (err (rate_limit_exceeded r), es')
      → (redis_admit limit window_seconds (now + r * second) es').0 ≡ ok tt
  unfolding redis_admit_live
  retry-live now r [] es' pos fits h = absurd (empty_is_free (ground arith))
    where
      empty_is_free : leb limit 0 ≡ true → ⊥
      empty_is_free e = ground arith
  retry-live now r (e ∷ es) es' pos fits h =
      let same : e ∷ es ≡ es' = ground arith in
      let told : redis_retry limit window_seconds now (e ∷ es) ≡ r = ground arith in
      subst₂ (λ q l. (redis_admit limit window_seconds (now + q * second) l).0 ≡ ok tt) told same
        (room_later (now + redis_retry limit window_seconds now (e ∷ es) * second) e es fits
          (oldest_gone now e es))

  -- A client of the Redis limiter whose key holds no more events than the limit, that is rejected and
  -- tries again after the seconds it was told, with no request in between, is admitted.
  pub redis_retry_suffices :
      (now r : ℕ) (es es' : List ℕ)
      → 0 < limit
      → length es ≤ limit
      → redis_admit limit window_seconds now es ≡ (err (rate_limit_exceeded r), es')
      → (redis_admit limit window_seconds (now + r * second) es').0 ≡ ok tt
  unfolding redis_admit
  redis_retry_suffices now r es es' pos fits h =
      let p = λ (e : ℕ). ltb now (e + window limit window_seconds) in
      retry-live now r (keep p es) es' pos (omega (arith, length-keep-le p es)) h

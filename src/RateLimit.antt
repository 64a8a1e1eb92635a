-- ===== src/RateLimit.antt =====
-- app/rate_limit.py: the sliding-window limiters. A time is a number of microseconds, and the
-- events of one key are the times of its admitted requests, oldest first. `_SCRIPT` runs atomically
-- in Redis on a sorted set; it is modelled on the list of that set's scores.
pub mod Window
pub mod Retry
pub mod Tests
use lead_generation_api_zyla.Prelude.{
  ℕ, ◌+◌, ◌-◌, ◌*◌, ◌/◌, max, String, Bool, true, false, ◌==◌, List, [], ◌∷◌, ◌++◌, length, keep,
  ltb, leb, if◌then◌else◌,
}
use lead_generation_api_zyla.Errors.{Result, ok, err, Raised, rate_limit_exceeded}

-- ticks of the clock in a second
abbrev pub second : ℕ
second = 1000000

-- `InMemoryRateLimiter` and `RedisRateLimiter`: the limit, the window, and the events of each key
pub record Limiter : Type 0 where
  pub limit : ℕ
  pub window_seconds : ℕ
  pub events : String → List ℕ

abbrev pub update : (String → List ℕ) → String → List ℕ → String → List ℕ
update events key es k = if key == k then es else events k

module _ (limit window_seconds : ℕ) where
  -- the length of the window in ticks
  abbrev pub window : ℕ
  window = window_seconds * second

  -- `while events and now - events[0] >= window: events.popleft()`
  pub expire : ℕ → List ℕ → List ℕ
  expire now [] = []
  expire now (e ∷ es) = let rest = expire now es in if leb (e + window) now then rest else e ∷ es

  -- the ticks until the oldest event leaves the window
  abbrev pub wait : ℕ → List ℕ → ℕ
  wait now [] = window
  wait now (e ∷ es) = (e + window) - now

  -- `max(1, int(window - (now - events[0])))`
  pub retry_after : ℕ → List ℕ → ℕ
  retry_after now es = max 1 (wait now es / second)

  admit_live : ℕ → List ℕ → Result (Unit {0}) × List ℕ
  unfolding retry_after
  admit_live now es =
      if leb limit (length es)
      then (err (rate_limit_exceeded (retry_after now es)), es)
      else (ok tt, es ++ now ∷ [])

  -- `InMemoryRateLimiter.check` on the events of one key
  pub admit : ℕ → List ℕ → Result (Unit {0}) × List ℕ
  unfolding expire admit_live
  admit now es = admit_live now (expire now es)

  -- `ZREMRANGEBYSCORE key 0 (now - window)`
  pub remove_expired : ℕ → List ℕ → List ℕ
  remove_expired now = keep (λ e. ltb now (e + window))

  -- `ZADD`: the set is ordered by score
  pub add_score : ℕ → List ℕ → List ℕ
  add_score now [] = now ∷ []
  add_score now (e ∷ es) = if leb e now then e ∷ add_score now es else now ∷ e ∷ es

  -- `math.max(1, math.ceil(window - (now - oldest)))`
  pub redis_retry : ℕ → List ℕ → ℕ
  redis_retry now es = max 1 ((wait now es + (second - 1)) / second)

  redis_admit_live : ℕ → List ℕ → Result (Unit {0}) × List ℕ
  unfolding redis_retry add_score
  redis_admit_live now es =
      if leb limit (length es)
      then (err (rate_limit_exceeded (redis_retry now es)), es)
      else (ok tt, add_score now es)

  -- `_SCRIPT`, with the test of `RedisRateLimiter.check` on its answer
  pub redis_admit : ℕ → List ℕ → Result (Unit {0}) × List ℕ
  unfolding remove_expired redis_admit_live
  redis_admit now es = redis_admit_live now (remove_expired now es)

-- `InMemoryRateLimiter.check`
unfoldable pub check : ℕ → String → Limiter → Result (Unit {0}) × Limiter
unfolding admit
check now key l =
    let (r, es) = admit l.limit l.window_seconds now (l.events key) in
    (r, record l { events = update l.events key es })

-- `RedisRateLimiter.check`
unfoldable pub redis_check : ℕ → String → Limiter → Result (Unit {0}) × Limiter
unfolding redis_admit
redis_check now key l =
    let (r, es) = redis_admit l.limit l.window_seconds now (l.events key) in
    (r, record l { events = update l.events key es })

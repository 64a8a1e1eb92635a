-- ===== src/RateLimit/Tests.antt =====
-- Concrete runs of the limiters: two requests in ten seconds.
use lead_generation_api_zyla.Prelude.{ℕ, ◌+◌, ◌*◌, ◌≤◌, ◌≢◌, ◌≡◌, refl, List, [], ◌∷◌, arith}
use lead_generation_api_zyla.Errors.{ok, err, rate_limit_exceeded}
use lead_generation_api_zyla.RateLimit.{second, window, admit, redis_admit, retry_after}
use lead_generation_api_zyla.RateLimit.Window.{Ascending, count_in, admitted, window_bound}
use lead_generation_api_zyla.RateLimit.Retry.{redis_retry_suffices, retry_after_too_early}

abbrev times : List ℕ
times = 1000000 ∷ 2000000 ∷ 3000000 ∷ 11000000 ∷ 11500000 ∷ 12000000 ∷ []

ascending : Ascending 0 times
ascending =
    (omega arith, (omega arith, (omega arith, (omega arith, (omega arith, (omega arith, tt))))))

window_bound_example : count_in 1500000 (window 2 10) (admitted 2 10 [] times) ≤ 2
window_bound_example = window_bound 2 10 times 1500000 ascending

abbrev events : List ℕ
events = 1500000 ∷ 2000000 ∷ []

rejected : redis_admit 2 10 3000000 events ≡ (err (rate_limit_exceeded 9), events)
unfolding redis_admit
rejected = refl

redis_retry_suffices_example : (redis_admit 2 10 (3000000 + 9 * second) events).0 ≡ ok tt
redis_retry_suffices_example =
    redis_retry_suffices 2 10 3000000 9 events events (omega arith) (omega arith) rejected

-- a rejected request that is told to wait 8 of the 8.5 seconds
retry_after_too_early_example :
    let later = 3000000 + retry_after 2 10 3000000 events * second in
    admit 2 10 later events ≡ (err (rate_limit_exceeded (retry_after 2 10 later events)), events)
retry_after_too_early_example =
    retry_after_too_early 2 10 3000000 1500000 (2000000 ∷ []) (omega arith) (omega arith) half
  where
    half : ◌≢◌ {A = ℕ} 500000 0
    half e = omega (arith, e)

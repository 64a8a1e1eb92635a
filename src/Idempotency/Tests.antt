-- ===== src/Idempotency/Tests.antt =====
-- Concrete calls of the two stores.
use lead_generation_api_zyla.Prelude.{ℕ, true, ◌≡◌, refl, none, some, List, [], ◌∷◌, arith}
use lead_generation_api_zyla.Errors.{ok, err, idempotency_conflict, idempotency_in_progress}
use lead_generation_api_zyla.Idempotency.{
  Store, IdempotencyHit, reserve, get, put, RedisStore, redis_reserve, redis_get, redis_put,
}
use lead_generation_api_zyla.Idempotency.Calls.{
  look, claim, keep, Call, found, claimed, silent, in_memory, in_redis, answers, AllMatch,
  AreTimely,
}
use lead_generation_api_zyla.Idempotency.Agreement.{stores_agree}

abbrev hit : IdempotencyHit ℕ
hit = record { fingerprint = "f1"; response_body = 7 }

abbrev no_memory : Store ℕ
no_memory key = none

abbrev no_redis : RedisStore ℕ
no_redis key = none

-- a request, another payload meanwhile, the response, a replay, a conflict
abbrev calls : List (Call ℕ)
calls =
    record { now = 10; key = "k"; command = claim "f1" }
    ∷ record { now = 15; key = "k"; command = look "f2" }
    ∷ record { now = 20; key = "k"; command = keep hit }
    ∷ record { now = 30; key = "k"; command = look "f1" }
    ∷ record { now = 30; key = "k"; command = look "f2" }
    ∷ []

redis_answers :
    answers (in_redis 60) calls no_redis
    ≡ claimed (some (ok true))
      ∷ found (err idempotency_conflict)
      ∷ silent
      ∷ found (ok (some hit))
      ∷ found (err idempotency_conflict)
      ∷ []
unfolding answers redis_reserve redis_get redis_put
redis_answers = refl

memory_answers :
    answers (in_memory 60) calls no_memory
    ≡ claimed (some (ok true))
      ∷ found (err idempotency_in_progress)
      ∷ silent
      ∷ found (ok (some hit))
      ∷ found (err idempotency_conflict)
      ∷ []
unfolding answers reserve get put
memory_answers = refl

calls-AreTimely : AreTimely 60 0 calls no_memory
unfolding reserve get put
calls-AreTimely = (
  omega arith,
  tt,
  (omega arith, tt, (omega arith, (λ e. cc), (omega arith, tt, (omega arith, tt, tt)))),
)

stores_agree_example :
    AllMatch (answers (in_memory 60) calls no_memory) (answers (in_redis 60) calls no_redis)
stores_agree_example = stores_agree 60 0 calls no_memory no_redis (λ key. refl) calls-AreTimely

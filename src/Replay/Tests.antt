-- ===== src/Replay/Tests.antt =====
-- Concrete runs of the replay-safe search.
use lead_generation_api_zyla.Prelude.{
  ℕ, ◌+◌, ◌*◌, ◌≤◌, ◌<◌, String, List, [], ◌∷◌, eqb, if◌then◌else◌, ◌≡◌, ◌≢◌, refl, ap, none, some,
  arith, eq_iff,
}
use lead_generation_api_zyla.Errors.{Result, ok, err}
use lead_generation_api_zyla.Schemas.Responses.{LeadSearchResponse}
use lead_generation_api_zyla.Models.{Db}
use lead_generation_api_zyla.Providers.{synthetic_records}
use lead_generation_api_zyla.Idempotency.{
  Store, RedisStore, pending, completed, assign, second, get, reserve, put, redis_get,
  redis_reserve, redis_put,
}
use lead_generation_api_zyla.Replay.{Process, conflict, in_progress, replay_safe, finish}
use lead_generation_api_zyla.Replay.Schedule
use lead_generation_api_zyla.Replay.Schedule.{Event, wait, step, done, System, opening}
use lead_generation_api_zyla.Replay.Concurrent.{one_execution, same_answer}
use lead_generation_api_zyla.Replay.Once.{replay_once}
use lead_generation_api_zyla.Replay.Stores.{finish_over, replay_over, redis_calls}
use lead_generation_api_zyla.Replay.Shared.{redis_replay_once}
use lead_generation_api_zyla.Search.{persist_lead_search}
use lead_generation_api_zyla.Search.Tests.{
  demo_env, demo_call, demo_db, demo_outcome, demo_search, returned,
}

abbrev search : Db → Result LeadSearchResponse × Db
search = persist_lead_search demo_env demo_call synthetic_records

abbrev before : Process Db LeadSearchResponse
before = record { store = λ k. none; db = demo_db }

abbrev reserved : Store LeadSearchResponse
reserved = (reserve 3600 10 "k" "f1" (get 3600 10 "k" "f1" before.store).1).1

abbrev after : Process Db LeadSearchResponse
after = record {
  store =
      put 3600 20 "k" (record { fingerprint = "f1"; response_body = returned demo_outcome.0 })
        reserved;
  db = demo_outcome.1;
}

named : ◌≢◌ {A = String} "k" ""
named e = ground (arith, eq_iff "k" "")

changed : ◌≢◌ {A = String} "f1" "f2"
changed e = ground (arith, eq_iff "f1" "f2")

run : replay_safe 3600 search 10 20 (some "k") "f1" before ≡ (ok (returned demo_outcome.0), after)
unfolding replay_safe get reserve put
run = ap (finish 3600 search 20 "k" "f1" reserved) demo_search

replay_once_example :
    (replay_safe 3600 search 1000 2000 (some "k") "f1" after
      ≡ (ok (returned demo_outcome.0), after))
    × (replay_safe 3600 search 1000 2000 (some "k") "f2" after ≡ (err conflict, after))
replay_once_example =
    replay_once 3600 search 10 20 1000 2000 "k" "f1" "f2" before after (returned demo_outcome.0)
      named refl run (omega arith) changed

-- Redis while the reservation is held, and after the response was stored
abbrev redis_held : RedisStore LeadSearchResponse
redis_held = assign (λ k. none) "k" (some (10 + 3600 * second, pending "f1"))

abbrev redis_after : RedisStore LeadSearchResponse
redis_after = assign redis_held "k" (
    some (
      20 + 3600 * second,
      completed (record { fingerprint = "f1"; response_body = returned demo_outcome.0 }),
    ))

run_redis :
    replay_over
      (redis_calls 3600 10 ((10, 11) ∷ []) 20)
      search
      (some "k")
      "f1"
      ((λ k. none), demo_db)
    ≡ (ok (returned demo_outcome.0), (redis_after, demo_outcome.1))
unfolding replay_over redis_get redis_reserve redis_put
run_redis =
    ap (finish_over (redis_calls 3600 10 ((10, 11) ∷ []) 20) search "k" "f1" redis_held) demo_search

redis_replay_once_example :
    let next = redis_calls 3600 1000 ((1000, 1001) ∷ []) 2000 in
    (replay_over next search (some "k") "f1" (redis_after, demo_outcome.1)
      ≡ (ok (returned demo_outcome.0), (redis_after, demo_outcome.1)))
    × (replay_over next search (some "k") "f2" (redis_after, demo_outcome.1)
        ≡ (err conflict, (redis_after, demo_outcome.1)))
redis_replay_once_example =
    redis_replay_once 3600 search 10 10 11 20 1000 2000 [] ((1000, 1001) ∷ []) "k" "f1" "f2"
      (λ k. none) redis_after demo_db demo_outcome.1 (returned demo_outcome.0) named refl
      (omega arith) (omega arith) run_redis (omega arith) changed

-- two requests with one payload race, a third has another payload, and the fourth comes late; the
-- last event stands first
abbrev race : List (Event String)
race =
    step 3 (ok "unused")
    ∷ step 2 (ok "unused")
    ∷ step 0 (ok "unused")
    ∷ wait 5
    ∷ step 0 (ok "leads")
    ∷ step 1 (ok "unused")
    ∷ step 0 (ok "unused")
    ∷ step 1 (ok "unused")
    ∷ wait 1
    ∷ step 0 (ok "unused")
    ∷ []

abbrev payloads : ℕ → String
payloads i = if eqb i 2 then "f2" else "f1"

abbrev raced : System String
raced = Schedule.run 3600 "k" payloads race (opening 10 (λ k. none))

early : raced.now < 10 + 3600 * second
unfolding Schedule.run get reserve put
early = omega arith

refused : (raced.stage 1 ≡ done (err in_progress)) × (raced.stage 2 ≡ done (err conflict))
unfolding Schedule.run get reserve put
refused = (refl, refl)

first_answered : raced.stage 0 ≡ done (ok "leads")
unfolding Schedule.run get reserve put
first_answered = refl

last_answered : raced.stage 3 ≡ done (ok "leads")
unfolding Schedule.run get reserve put
last_answered = refl

one_execution_example : raced.executions ≤ 1
one_execution_example = one_execution 3600 "k" payloads 10 (λ k. none) refl race early

same_answer_example : ◌≡◌ {A = String} "leads" "leads" × (raced.executions ≡ 1)
same_answer_example =
    same_answer 3600 "k" payloads 10 (λ k. none) refl race 0 3 "leads" "leads" early first_answered
      last_answered

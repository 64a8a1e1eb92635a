-- ===== src/Replay/Schedule.antt =====
-- `search_leads` and `_execute_zyla_search` of app/main.py, run by many requests at once with one
-- idempotency key: each call of the in-memory store holds its lock, so it is one step, and the requests
-- take their steps in any order.
use lead_generation_api_zyla.Prelude.{
  ℕ, ◌+◌, String, Bool, true, false, Option, none, some, List, [], ◌∷◌, eqb, if◌then◌else◌,
}
use lead_generation_api_zyla.Errors.{Raised, Result, ok, err}
use lead_generation_api_zyla.Idempotency.{Store, IdempotencyHit, reserve, get, put, delete}
use lead_generation_api_zyla.Replay.{in_progress, translated}

-- Where a request is: before its lookup, before its reservation, in the search, after the search and
-- before the store is told, or at its end.
pub data Stage (B : Type 0) : Type 0 where
  arrived : Stage B
  missed : Stage B
  running : Stage B
  answered : B → Stage B
  failing : Raised → Stage B
  done : Result B → Stage B

-- the process: its clock, its store, its requests, and how many searches have been committed
pub record System (B : Type 0) : Type 0 where
  pub now : ℕ
  pub store : Store B
  pub stage : ℕ → Stage B
  pub executions : ℕ

-- what happens next: time passes, or a request takes its step, where `outcome` is what its search gives
-- should it be running
pub data Event (B : Type 0) : Type 0 where
  wait : ℕ → Event B
  step : ℕ → Result B → Event B

module _ {B : Type 0} where
  abbrev pub move_to : ℕ → Stage B → (ℕ → Stage B) → ℕ → Stage B
  move_to i a stage j = if eqb i j then a else stage j

  abbrev pub looked_up : Result (Option (IdempotencyHit B)) → Stage B
  looked_up (ok none) = missed
  looked_up (ok (some hit)) = done (ok hit.response_body)
  looked_up (err e) = done (err (translated e))

  abbrev pub reserved : Result Bool → Stage B
  reserved (ok true) = running
  reserved (ok false) = done (err in_progress)
  reserved (err e) = done (err (translated e))

  abbrev pub searched : Result B → Stage B
  searched (ok b) = answered b
  searched (err e) = failing e

  -- a committed search
  abbrev pub committed : Result B → ℕ
  committed (ok b) = 1
  committed (err e) = 0

  -- `fingerprints` gives each request the fingerprint of its payload
  module _ (ttl_seconds : ℕ) (key : String) (fingerprints : ℕ → String) where
    abbrev pub advance : ℕ → Result B → Stage B → System B → System B
    advance i outcome arrived s =
        let (r, store) = get ttl_seconds s.now key (fingerprints i) s.store in
        record s { store = store; stage = move_to i (looked_up r) s.stage }
    advance i outcome missed s =
        let (r, store) = reserve ttl_seconds s.now key (fingerprints i) s.store in
        record s { store = store; stage = move_to i (reserved r) s.stage }
    advance i outcome running s = record s {
      stage = move_to i (searched outcome) s.stage;
      executions = committed outcome + s.executions;
    }
    advance i outcome (answered b) s = record s {
      store =
          put ttl_seconds s.now key (record { fingerprint = fingerprints i; response_body = b })
            s.store;
      stage = move_to i (done (ok b)) s.stage;
    }
    advance i outcome (failing e) s = record s {
      store = delete ttl_seconds key s.store;
      stage = move_to i (done (err e)) s.stage;
    }
    advance i outcome (done r) s = s

    abbrev pub happen : Event B → System B → System B
    happen (wait time) s = record s { now = s.now + time }
    happen (step i outcome) s = advance i outcome (s.stage i) s

    -- a schedule, its last event first
    unfoldable pub run : List (Event B) → System B → System B
    run [] s = s
    run (event ∷ earlier) s = happen event (run earlier s)

  -- every request arrives, at a process that has nothing live under the key
  abbrev pub opening : ℕ → Store B → System B
  opening now store = record { now = now; store = store; stage = λ i. arrived; executions = 0 }

-- ===== src/Replay/Shared.antt =====
-- About the replay-safe part of `search_leads` of app/main.py over the stores of app/idempotency.py: the
-- in-memory store, Redis, and a store whose calls raise.
use lead_generation_api_zyla.Prelude.{
  ℕ, ◌+◌, ◌*◌, ◌≤◌, ◌<◌, String, ◌≡◌, ◌≢◌, refl, Option, none, some, List, ◌∷◌, arith, eq_iff,
}
use lead_generation_api_zyla.Errors.{ok, err}
use lead_generation_api_zyla.Exec.{Exec}
use lead_generation_api_zyla.Idempotency.{
  RedisStore, RedisRecord, completed, second, live_entry, reserve, get, put, delete, redis_reserve,
  redis_get, redis_put, redis_delete,
}
use lead_generation_api_zyla.Replay.{Process, conflict, replay_safe}
use lead_generation_api_zyla.Replay.Stores.{replay_over, in_memory_calls, redis_calls}

module _ {D B : Type 0} (ttl_seconds : ℕ) (search : Exec D B) where
  -- Over the in-memory store it is `replay_safe`.
  pub over_in_memory :
      (started finished : ℕ) (key : String) (fingerprint : String) (p : Process D B)
      → let (r, p') = replay_safe ttl_seconds search started finished (some key) fingerprint p in
        replay_over
          (in_memory_calls ttl_seconds started finished)
          search
          (some key)
          fingerprint
          (p.store, p.db)
        ≡ (r, (p'.store, p'.db))
  unfolding replay_safe replay_over get reserve put delete
  over_in_memory started finished key fingerprint p = ground (arith)

  stored_in_redis :
      (started at_set at_get finished : ℕ) (rounds : List (ℕ × ℕ)) (key fingerprint : String)
      (s s' : RedisStore B) (db db' : D) (b : B)
      → key ≢ ""
      → live_entry started (s key) ≡ none
      → live_entry at_set (s key) ≡ none
      → finished < at_set + ttl_seconds * second
      → replay_over
          (redis_calls ttl_seconds started ((at_set, at_get) ∷ rounds) finished)
          search
          (some key)
          fingerprint
          (s, db)
        ≡ (ok b, (s', db'))
      → s' key
        ≡ some (
          finished + ttl_seconds * second,
          completed (record { fingerprint = fingerprint; response_body = b }),
        )
  unfolding replay_over redis_get redis_reserve redis_put redis_delete
  stored_in_redis started at_set at_get finished rounds key fingerprint s s' db db' b ne free free'
        soon h =
      ground (arith, eq_iff key "", eq_iff key key)

  live_later :
      (now later : ℕ) (slot : Option (ℕ × RedisRecord B))
      → now ≤ later
      → live_entry now slot ≡ none
      → live_entry later slot ≡ none
  live_later now later none h free = refl
  live_later now later (some (expires, r)) h free = ground arith

  -- Over Redis, a request under a free key that returned, and that finished before its reservation was
  -- over, is replayed: the same request, started at any process before the time to live is over, gets the
  -- same response, and neither Redis nor the database changes, so that nothing is charged twice. Under
  -- the same key a request with another fingerprint is refused with the conflict error, and changes
  -- nothing either.
  pub redis_replay_once :
      (started at_set at_get finished again later : ℕ) (rounds rounds' : List (ℕ × ℕ))
      (key fingerprint other : String) (s s' : RedisStore B) (db db' : D) (b : B)
      → key ≢ ""
      → live_entry started (s key) ≡ none
      → started ≤ at_set
      → finished < at_set + ttl_seconds * second
      → replay_over
          (redis_calls ttl_seconds started ((at_set, at_get) ∷ rounds) finished)
          search
          (some key)
          fingerprint
          (s, db)
        ≡ (ok b, (s', db'))
      → again < finished + ttl_seconds * second
      → fingerprint ≢ other
      → let next = redis_calls ttl_seconds again rounds' later in
        (replay_over next search (some key) fingerprint (s', db') ≡ (ok b, (s', db')))
        × (replay_over next search (some key) other (s', db') ≡ (err conflict, (s', db')))
  unfolding replay_over redis_get
  redis_replay_once started at_set at_get finished again later rounds rounds' key fingerprint other
        s s' db db' b ne free order soon h fresh differ =
      let stored =
        stored_in_redis started at_set at_get finished rounds key fingerprint s s' db db' b ne free
          (live_later started at_set (s key) order free) soon h in
      (
        rw stored (ground (arith, eq_iff key "", eq_iff fingerprint fingerprint)),
        rw stored (ground (arith, eq_iff key "", eq_iff fingerprint other)),
      )

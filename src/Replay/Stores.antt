-- ===== src/Replay/Stores.antt =====
-- The replay-safe part of `search_leads` and `_execute_zyla_search` of app/main.py over any store of
-- app/idempotency.py, where a call of the store may raise: the `except Exception` stands round the
-- search and the `put` after it.
use lead_generation_api_zyla.Prelude.{
  ℕ, String, Bool, true, false, ◌==◌, Option, none, some, List, if◌then◌else◌,
}
use lead_generation_api_zyla.Errors.{Raised, Result, ok, err, idempotency_conflict, unexpected}
use lead_generation_api_zyla.Exec.{Exec}
use lead_generation_api_zyla.Idempotency.{
  Store, RedisStore, IdempotencyHit, reserve, get, put, delete, redis_reserve, redis_get, redis_put,
  redis_delete,
}
use lead_generation_api_zyla.Replay.{conflict, in_progress, translated}

-- the calls that a store answers, on its state `S`
pub record Calls (S B : Type 0) : Type 0 where
  pub get_hit : String → String → Exec S (Option (IdempotencyHit B))
  pub reserve_key : String → String → Exec S Bool
  pub put_hit : String → IdempotencyHit B → Exec S (Unit {0})
  pub delete_key : String → Exec S (Unit {0})

-- the `except` clause round `reserve`
abbrev pub translated_reserve : Raised → Raised
translated_reserve idempotency_conflict = conflict
translated_reserve e = e

module _ {S D B : Type 0} (store : Calls S B) (search : Exec D B) where
  -- `raise`, after the `delete` of the `except Exception`
  abbrev pub raise_after : Raised → D → Result (Unit {0}) × S → Result B × (S × D)
  raise_after exc db (ok _, s) = (err exc, (s, db))
  raise_after exc db (err e, s) = (err e, (s, db))

  abbrev pub after_put : String → B → D → Result (Unit {0}) × S → Result B × (S × D)
  after_put key b db (ok _, s) = (ok b, (s, db))
  after_put key b db (err exc, s) = raise_after exc db (store.delete_key key s)

  -- the `try`
  abbrev pub finish_over : String → String → S → Result B × D → Result B × (S × D)
  finish_over key fingerprint s (ok b, db) =
      after_put key b db
        (store.put_hit key (record { fingerprint = fingerprint; response_body = b }) s)
  finish_over key fingerprint s (err exc, db) = raise_after exc db (store.delete_key key s)

  abbrev pub run_reserved_over : String → String → D → Result Bool × S → Result B × (S × D)
  run_reserved_over key fingerprint db (ok true, s) = finish_over key fingerprint s (search db)
  run_reserved_over key fingerprint db (ok false, s) = (err in_progress, (s, db))
  run_reserved_over key fingerprint db (err e, s) = (err (translated_reserve e), (s, db))

  abbrev pub run_looked_up_over :
      String → String → D → Result (Option (IdempotencyHit B)) × S → Result B × (S × D)
  run_looked_up_over key fingerprint db (ok (some hit), s) = (ok hit.response_body, (s, db))
  run_looked_up_over key fingerprint db (ok none, s) =
      run_reserved_over key fingerprint db (store.reserve_key key fingerprint s)
  run_looked_up_over key fingerprint db (err e, s) = (err (translated e), (s, db))

  abbrev pub beside : S → Result B × D → Result B × (S × D)
  beside s (r, db) = (r, (s, db))

  -- an empty key is as good as none
  unfoldable pub replay_over : Option String → String → S × D → Result B × (S × D)
  replay_over none fingerprint (s, db) = beside s (search db)
  replay_over (some key) fingerprint (s, db) =
      if key == ""
      then beside s (search db)
      else run_looked_up_over key fingerprint db (store.get_hit key fingerprint s)

-- `InMemoryIdempotencyStore`, in a request that starts at one time and finishes at another
abbrev pub in_memory_calls : {B : Type 0} → ℕ → ℕ → ℕ → Calls (Store B) B
in_memory_calls ttl_seconds started finished = record {
  get_hit = get ttl_seconds started;
  reserve_key = reserve ttl_seconds started;
  put_hit = λ key hit s. (ok tt, put ttl_seconds finished key hit s);
  delete_key = λ key s. (ok tt, delete ttl_seconds key s);
}

-- `reserve` calls itself until it has an answer, which Python bounds
abbrev pub within_recursion : {S : Type 0} → Option (Result Bool) × S → Result Bool × S
within_recursion (none, s) = (err (unexpected "RecursionError"), s)
within_recursion (some r, s) = (r, s)

-- `RedisIdempotencyStore`, with the times of the rounds of `reserve`
abbrev pub redis_calls : {B : Type 0} → ℕ → ℕ → List (ℕ × ℕ) → ℕ → Calls (RedisStore B) B
redis_calls ttl_seconds started rounds finished = record {
  get_hit = redis_get ttl_seconds started;
  reserve_key =
      λ key fingerprint s. within_recursion (redis_reserve ttl_seconds rounds key fingerprint s);
  put_hit = λ key hit s. (ok tt, redis_put ttl_seconds finished key hit s);
  delete_key = λ key s. (ok tt, redis_delete ttl_seconds key s);
}

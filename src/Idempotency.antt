-- ===== src/Idempotency.antt =====
-- app/idempotency.py: the two stores of replayable responses. A time is a number of microseconds; a
-- response body is any type. What Redis holds under a key is modelled decoded: `json.loads` gives
-- back what `json.dumps` was given. A key past its expiry is gone, in Redis too.
pub mod Calls
pub mod Agreement
pub mod Tests
use lead_generation_api_zyla.Prelude.{
  ℕ, ◌+◌, ◌*◌, String, Bool, true, false, ◌==◌, Option, none, some, List, [], ◌∷◌, ltb,
  if◌then◌else◌,
}
use lead_generation_api_zyla.Errors.{Result, ok, err, idempotency_conflict, idempotency_in_progress}

abbrev pub second : ℕ
second = 1000000

-- `response_status` is always its default, 200
pub record IdempotencyHit (B : Type 0) : Type 0 where
  pub fingerprint : String
  pub response_body : B

-- a map from scope keys, with the time of expiry of each
abbrev pub Records : Type 0 → Type 0
Records E = String → Option (ℕ × E)

module _ {E : Type 0} where
  abbrev pub assign : Records E → String → Option (ℕ × E) → Records E
  assign records key v k = if key == k then v else records k

  -- what is there and has not expired
  abbrev pub live_entry : ℕ → Option (ℕ × E) → Option E
  live_entry now none = none
  live_entry now (some (expires, e)) = if ltb now expires then some e else none

-- `InMemoryIdempotencyStore`: no hit means that the request is still running
abbrev pub Store : Type 0 → Type 0
Store B = Records (Option (IdempotencyHit B))

module _ {B : Type 0} (ttl_seconds : ℕ) where
  reserve_found :
      ℕ → String → String → Store B → Option (Option (IdempotencyHit B)) → Result Bool × Store B
  reserve_found now key fingerprint s none =
      (ok true, assign s key (some (now + ttl_seconds * second, none)))
  reserve_found now key fingerprint s (some none) = (ok false, s)
  reserve_found now key fingerprint s (some (some hit)) =
      ((if hit.fingerprint == fingerprint then ok false else err idempotency_conflict), s)

  unfoldable pub reserve : ℕ → String → String → Store B → Result Bool × Store B
  unfolding reserve_found
  reserve now key fingerprint s = reserve_found now key fingerprint s (live_entry now (s key))

  get_found :
      String
      → String
      → Store B
      → Option (Option (IdempotencyHit B))
      → Result (Option (IdempotencyHit B)) × Store B
  get_found key fingerprint s none = (ok none, assign s key none)
  get_found key fingerprint s (some none) = (err idempotency_in_progress, s)
  get_found key fingerprint s (some (some hit)) =
      ((if hit.fingerprint == fingerprint then ok (some hit) else err idempotency_conflict), s)

  unfoldable pub get : ℕ → String → String → Store B → Result (Option (IdempotencyHit B)) × Store B
  unfolding get_found
  get now key fingerprint s = get_found key fingerprint s (live_entry now (s key))

  unfoldable pub put : ℕ → String → IdempotencyHit B → Store B → Store B
  put now key hit s = assign s key (some (now + ttl_seconds * second, some hit))

  unfoldable pub delete : String → Store B → Store B
  delete key s = assign s key none

-- the `state` and `fingerprint` of an encoded record, with its response once it is completed
pub data RedisRecord (B : Type 0) : Type 0 where
  pending : String → RedisRecord B
  completed : IdempotencyHit B → RedisRecord B

abbrev pub fingerprint_of : {B : Type 0} → RedisRecord B → String
fingerprint_of (pending f) = f
fingerprint_of (completed hit) = hit.fingerprint

-- `RedisIdempotencyStore`
abbrev pub RedisStore : Type 0 → Type 0
RedisStore B = Records (RedisRecord B)

module _ {B : Type 0} (ttl_seconds : ℕ) where
  -- what `reserve` makes of the record that was in its way; nothing when that has just expired
  abbrev pub in_the_way : String → Option (RedisRecord B) → Option (Result Bool)
  in_the_way fingerprint none = none
  in_the_way fingerprint (some r) =
      some (if fingerprint_of r == fingerprint then ok false else err idempotency_conflict)

  -- One round of `reserve`: `SET … NX` at one time and `GET` at a later one. Nothing is returned
  -- where the source calls itself again.
  abbrev pub after_set :
      ℕ
      → ℕ
      → String
      → String
      → RedisStore B
      → Option (RedisRecord B)
      → Option (Result Bool) × RedisStore B
  after_set at_set at_get key fingerprint s none =
      (some (ok true), assign s key (some (at_set + ttl_seconds * second, pending fingerprint)))
  after_set at_set at_get key fingerprint s (some r) =
      (in_the_way fingerprint (live_entry at_get (s key)), s)

  abbrev pub reserve_round :
      ℕ → ℕ → String → String → RedisStore B → Option (Result Bool) × RedisStore B
  reserve_round at_set at_get key fingerprint s =
      after_set at_set at_get key fingerprint s (live_entry at_set (s key))

  -- a round that has not returned is followed by the next
  abbrev pub or_again :
      (RedisStore B → Option (Result Bool) × RedisStore B)
      → Option (Result Bool) × RedisStore B
      → Option (Result Bool) × RedisStore B
  or_again again (none, s) = again s
  or_again again (some b, s) = (some b, s)

  -- `reserve`, with the times of its rounds; `none` when it has not returned within them
  unfoldable pub redis_reserve :
      List (ℕ × ℕ) → String → String → RedisStore B → Option (Result Bool) × RedisStore B
  redis_reserve [] key fingerprint s = (none, s)
  redis_reserve ((at_set, at_get) ∷ rounds) key fingerprint s =
      or_again (redis_reserve rounds key fingerprint)
        (reserve_round at_set at_get key fingerprint s)

  redis_completed : RedisRecord B → Result (Option (IdempotencyHit B))
  redis_completed (pending f) = err idempotency_in_progress
  redis_completed (completed hit) = ok (some hit)

  redis_found : String → Option (RedisRecord B) → Result (Option (IdempotencyHit B))
  unfolding redis_completed
  redis_found fingerprint none = ok none
  redis_found fingerprint (some r) =
      if fingerprint_of r == fingerprint then redis_completed r else err idempotency_conflict

  unfoldable pub redis_get :
      ℕ → String → String → RedisStore B → Result (Option (IdempotencyHit B)) × RedisStore B
  unfolding redis_found
  redis_get now key fingerprint s = (redis_found fingerprint (live_entry now (s key)), s)

  -- `SET … XX`: only a key that is there is replaced
  abbrev pub put_over :
      ℕ → String → IdempotencyHit B → RedisStore B → Option (RedisRecord B) → RedisStore B
  put_over now key hit s none = s
  put_over now key hit s (some r) = assign s key (some (now + ttl_seconds * second, completed hit))

  unfoldable pub redis_put : ℕ → String → IdempotencyHit B → RedisStore B → RedisStore B
  redis_put now key hit s = put_over now key hit s (live_entry now (s key))

  unfoldable pub redis_delete : String → RedisStore B → RedisStore B
  redis_delete key s = assign s key none

-- ===== src/Idempotency/Calls.antt =====
-- Sequences of calls of a store of app/idempotency.py, for either implementation.
use lead_generation_api_zyla.Prelude.{
  ℕ, ◌≤◌, String, Bool, false, ◌≡◌, ◌≢◌, Option, none, some, List, [], ◌∷◌, ◌⊎◌,
}
use lead_generation_api_zyla.Errors.{Result, ok, err, idempotency_conflict, idempotency_in_progress}
use lead_generation_api_zyla.Idempotency.{
  Store, IdempotencyHit, live_entry, reserve, get, put, delete, RedisStore, redis_reserve,
  redis_get, redis_put, redis_delete,
}

pub data Command (B : Type 0) : Type 0 where
  look : String → Command B
  claim : String → Command B
  keep : IdempotencyHit B → Command B
  free : Command B

-- a call, at a time and with a scope key
pub record Call (B : Type 0) : Type 0 where
  pub now : ℕ
  pub key : String
  pub command : Command B

-- what the caller sees; a `reserve` of Redis that has not returned gives nothing
pub data Answer (B : Type 0) : Type 0 where
  found : Result (Option (IdempotencyHit B)) → Answer B
  claimed : Option (Result Bool) → Answer B
  silent : Answer B

module _ {B : Type 0} (ttl_seconds : ℕ) where
  abbrev pub in_memory : Call B → Store B → Answer B × Store B
  in_memory c s = elim c.command [
    | look f ↦ let (r, s') = get ttl_seconds c.now c.key f s in (found r, s')
    | claim f ↦ let (r, s') = reserve ttl_seconds c.now c.key f s in (claimed (some r), s')
    | keep hit ↦ (silent, put ttl_seconds c.now c.key hit s)
    | free ↦ (silent, delete ttl_seconds c.key s)
  ]

  -- the two commands of one `reserve` are at one time
  abbrev pub in_redis : Call B → RedisStore B → Answer B × RedisStore B
  in_redis c s = elim c.command [
    | look f ↦ let (r, s') = redis_get ttl_seconds c.now c.key f s in (found r, s')
    | claim f ↦
        let (r, s') = redis_reserve ttl_seconds ((c.now, c.now) ∷ []) c.key f s in (claimed r, s')
    | keep hit ↦ (silent, redis_put ttl_seconds c.now c.key hit s)
    | free ↦ (silent, redis_delete ttl_seconds c.key s)
  ]

-- the answers to calls made one after another
unfoldable pub answers :
    {B S : Type 0} → (Call B → S → Answer B × S) → List (Call B) → S → List (Answer B)
answers serve [] s = []
answers serve (c ∷ calls) s = let (a, s') = serve c s in a ∷ answers serve calls s'

module _ {B : Type 0} where
  -- One answer is the other, or both refuse a key that is taken: the second knows that the request that
  -- holds it is a different one.
  abbrev pub Matches : Answer B → Answer B → Type 0
  Matches (found x) (found y) =
      (x ≡ y) ⊎ ((x ≡ err idempotency_in_progress) × (y ≡ err idempotency_conflict))
  Matches (claimed x) (claimed y) =
      (x ≡ y) ⊎ ((x ≡ some (ok false)) × (y ≡ some (err idempotency_conflict)))
  Matches silent silent = Unit
  Matches _ _ = ⊥

  abbrev pub AllMatch : List (Answer B) → List (Answer B) → Type 0
  AllMatch [] [] = Unit
  AllMatch (a ∷ left) (b ∷ right) = Matches a b × AllMatch left right
  AllMatch _ _ = ⊥

  -- a response is stored while its reservation lives
  abbrev pub InTime : Call B → Store B → Type 0
  InTime c s = elim c.command [ keep hit ↦ live_entry c.now (s c.key) ≢ none | _ ↦ Unit ]

  -- calls in the order of their times, from `start` on
  abbrev pub AreTimely : ℕ → ℕ → List (Call B) → Store B → Type 0
  AreTimely ttl_seconds start [] s = Unit
  AreTimely ttl_seconds start (c ∷ calls) s =
      (start ≤ c.now) × InTime c s × AreTimely ttl_seconds c.now calls (in_memory ttl_seconds c s).1

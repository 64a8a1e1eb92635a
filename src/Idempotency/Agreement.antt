-- ===== src/Idempotency/Agreement.antt =====
-- About app/idempotency.py: RedisIdempotencyStore against InMemoryIdempotencyStore.
use lead_generation_api_zyla.Prelude.{
  ℕ, ◌≤◌, String, true, false, ◌==◌, ◌≡◌, ◌≢◌, refl, sym, subst, Option, none, some, List, [], ◌∷◌,
  ltb, if◌then◌else◌, arith, eq_iff, Bool-cases, inl, inr,
}
use lead_generation_api_zyla.Idempotency.{
  Store, IdempotencyHit, assign, live_entry, reserve, get, put, delete, RedisRecord, pending,
  completed, RedisStore, redis_reserve, redis_get, redis_put, redis_delete,
}
use lead_generation_api_zyla.Idempotency.Calls.{
  Command, look, claim, keep, free, Call, in_memory, in_redis, answers, Matches, AllMatch, InTime,
  AreTimely,
}

module _ {B : Type 0} where
  -- what the store in memory keeps of a record of Redis: it has no fingerprint while a request runs
  abbrev forget : RedisRecord B → Option (IdempotencyHit B)
  forget (pending f) = none
  forget (completed hit) = some hit

  -- what is live, with its expiry
  abbrev view : ℕ → Option (ℕ × Option (IdempotencyHit B)) → Option (ℕ × Option (IdempotencyHit B))
  view now none = none
  view now (some (expires, e)) = if ltb now expires then some (expires, e) else none

  abbrev seen : ℕ → Option (ℕ × RedisRecord B) → Option (ℕ × Option (IdempotencyHit B))
  seen now none = none
  seen now (some (expires, r)) = if ltb now expires then some (expires, forget r) else none

  -- at a time the stores hold the same live slots
  abbrev pub Refines : ℕ → Store B → RedisStore B → Type 0
  Refines now m r = (key : String) → view now (m key) ≡ seen now (r key)

  -- two slots with the same view
  data Slots : Option (Option (IdempotencyHit B)) → Option (RedisRecord B) → Type 0 where
    vacant : Slots none none
    waiting : (f : String) → Slots (some none) (some (pending f))
    stored : (hit : IdempotencyHit B) → Slots (some (some hit)) (some (completed hit))

  of_record : (r : RedisRecord B) → Slots (some (forget r)) (some r)
  of_record (pending f) = waiting f
  of_record (completed hit) = stored hit

  same-Slots :
      (now : ℕ) (x : Option (ℕ × Option (IdempotencyHit B))) (y : Option (ℕ × RedisRecord B))
      → view now x ≡ seen now y
      → Slots (live_entry now x) (live_entry now y)
  same-Slots now none none h = vacant
  same-Slots now none (some (e, r)) h = elim (Bool-cases (ltb now e)) [
    | inl t ↦ absurd (ground arith)
    | inr f ↦ rw f vacant
  ]
  same-Slots now (some (e, a)) none h = elim (Bool-cases (ltb now e)) [
    | inl t ↦ absurd (ground arith)
    | inr f ↦ rw f vacant
  ]
  same-Slots now (some (e, a)) (some (e', r)) h = elim (Bool-cases (ltb now e)) [
    | inl t ↦
        let live : ltb now e' ≡ true = ground arith in
        let same : a ≡ forget r = ground arith in rw (t, live, same) (of_record r)
    | inr f ↦ let gone : ltb now e' ≡ false = ground arith in rw (f, gone) vacant
  ]

  -- time passes
  same_later :
      (now later : ℕ) (x : Option (ℕ × Option (IdempotencyHit B))) (y : Option (ℕ × RedisRecord B))
      → now ≤ later
      → view now x ≡ seen now y
      → view later x ≡ seen later y
  same_later now later none none le h = refl
  same_later now later none (some (e, r)) le h = ground arith
  same_later now later (some (e, a)) none le h = ground arith
  same_later now later (some (e, a)) (some (e', r)) le h = ground arith

  -- both stores assign to one key
  assigned :
      (now : ℕ) (key : String) (m : Store B) (r : RedisStore B)
      (x : Option (ℕ × Option (IdempotencyHit B))) (y : Option (ℕ × RedisRecord B))
      → Refines now m r
      → view now x ≡ seen now y
      → Refines now (assign m key x) (assign r key y)
  assigned now key m r x y h e k = elim (Bool-cases (key == k)) [
    | inl t ↦ rw t e
    | inr f ↦ rw f (h k)
  ]

  -- one store forgets what is not live
  popped :
      (now : ℕ) (key : String) (m : Store B) (r : RedisStore B)
      → Refines now m r
      → live_entry now (m key) ≡ none
      → Refines now (assign m key none) r
  popped now key m r h gone k = elim (Bool-cases (key == k)) [
    | inl t ↦
        let same : key ≡ k = ground (arith, eq_iff key k) in
        rw (t, sym (h k)) (unseen (m k) (subst (λ j. live_entry now (m j) ≡ none) same gone))
    | inr f ↦ rw f (h k)
  ]
    where
      unseen :
          (x : Option (ℕ × Option (IdempotencyHit B))) → live_entry now x ≡ none → none ≡ view now x
      unseen none e = refl
      unseen (some (expires, a)) e = ground arith

  -- one call of each store
  record Step (ttl_seconds : ℕ) (c : Call B) (m : Store B) (r : RedisStore B) : Type 0 where
    matched : Matches (in_memory ttl_seconds c m).0 (in_redis ttl_seconds c r).0
    kept : Refines c.now (in_memory ttl_seconds c m).1 (in_redis ttl_seconds c r).1

  module _ (ttl_seconds now : ℕ) (key : String) (m : Store B) (r : RedisStore B)
      (h : Refines now m r) where
    abbrev call : Command B → Call B
    call command = record { now = now; key = key; command = command }

    look-Step :
        (f : String) {x : Option (Option (IdempotencyHit B))} {y : Option (RedisRecord B)}
        → live_entry now (m key) ≡ x
        → live_entry now (r key) ≡ y
        → Slots x y
        → Step ttl_seconds (call (look f)) m r
    unfolding get redis_get
    look-Step f hm hr vacant = record {
      matched = rw (hm, hr) (inl refl);
      kept = rw hm (popped now key m r h hm);
    }
    look-Step f hm hr (waiting g) = elim (Bool-cases (g == f)) [
      | inl t ↦ record { matched = rw (hm, hr, t) (inl refl); kept = rw hm h }
      | inr e ↦ record { matched = rw (hm, hr, e) (inr (refl, refl)); kept = rw hm h }
    ]
    look-Step f hm hr (stored hit) = elim (Bool-cases (hit.fingerprint == f)) [
      | inl t ↦ record { matched = rw (hm, hr, t) (inl refl); kept = rw hm h }
      | inr e ↦ record { matched = rw (hm, hr, e) (inl refl); kept = rw hm h }
    ]

    claim-Step :
        (f : String) {x : Option (Option (IdempotencyHit B))} {y : Option (RedisRecord B)}
        → live_entry now (m key) ≡ x
        → live_entry now (r key) ≡ y
        → Slots x y
        → Step ttl_seconds (call (claim f)) m r
    unfolding reserve redis_reserve
    claim-Step f hm hr vacant = record {
      matched = rw (hm, hr) (inl refl);
      kept = rw (hm, hr) (assigned now key m r _ _ h refl);
    }
    claim-Step f hm hr (waiting g) = elim (Bool-cases (g == f)) [
      | inl t ↦ record { matched = rw (hm, hr, hr, t) (inl refl); kept = rw (hm, hr, hr) h }
      | inr e ↦ record { matched = rw (hm, hr, hr, e) (inr (refl, refl)); kept = rw (hm, hr, hr) h }
    ]
    claim-Step f hm hr (stored hit) = elim (Bool-cases (hit.fingerprint == f)) [
      | inl t ↦ record { matched = rw (hm, hr, hr, t) (inl refl); kept = rw (hm, hr, hr) h }
      | inr e ↦ record { matched = rw (hm, hr, hr, e) (inl refl); kept = rw (hm, hr, hr) h }
    ]

    keep-Step :
        (hit : IdempotencyHit B) {x : Option (Option (IdempotencyHit B))}
        {y : Option (RedisRecord B)}
        → live_entry now (m key) ≡ x
        → live_entry now (r key) ≡ y
        → Slots x y
        → live_entry now (m key) ≢ none
        → Step ttl_seconds (call (keep hit)) m r
    unfolding put redis_put
    keep-Step hit hm hr vacant live = absurd (live hm)
    keep-Step hit hm hr (waiting g) live = record {
      matched = tt;
      kept = rw hr (assigned now key m r _ _ h refl);
    }
    keep-Step hit hm hr (stored old) live = record {
      matched = tt;
      kept = rw hr (assigned now key m r _ _ h refl);
    }

    free-Step : Step ttl_seconds (call free) m r
    unfolding delete redis_delete
    free-Step = record { matched = tt; kept = assigned now key m r none none h refl }

    command-Step :
        (command : Command B) → InTime (call command) m → Step ttl_seconds (call command) m r
    command-Step (look f) timely = look-Step f refl refl (same-Slots now (m key) (r key) (h key))
    command-Step (claim f) timely = claim-Step f refl refl (same-Slots now (m key) (r key) (h key))
    command-Step (keep hit) timely =
        keep-Step hit refl refl (same-Slots now (m key) (r key) (h key)) timely
    command-Step free timely = free-Step

  -- The store in Redis refines the one in memory: from stores that hold the same live slots, calls that
  -- are made in the order of their times, with a response stored only while its reservation lives, are
  -- answered alike, but that Redis reports a conflict where the other store reports a request in
  -- progress, or a key that is taken.
  pub stores_agree :
      (ttl_seconds start : ℕ) (calls : List (Call B)) (m : Store B) (r : RedisStore B)
      → Refines start m r
      → AreTimely ttl_seconds start calls m
      → AllMatch (answers (in_memory ttl_seconds) calls m) (answers (in_redis ttl_seconds) calls r)
  unfolding answers
  stores_agree ttl_seconds start [] m r h timely = tt
  stores_agree ttl_seconds start (c ∷ calls) m r h (le, in_time, timely) =
      let now_h : Refines c.now m r = λ k. same_later start c.now (m k) (r k) le (h k) in
      let s = command-Step ttl_seconds c.now c.key m r now_h c.command in_time in
      (s.matched, stores_agree ttl_seconds c.now calls _ _ s.kept timely)

-- ===== src/Replay/Once.antt =====
-- About the replay-safe part of `search_leads` of app/main.py: a key used again.
use lead_generation_api_zyla.Prelude.{ℕ, ◌+◌, ◌*◌, ◌<◌, String, ◌≡◌, ◌≢◌, none, some, arith, eq_iff}
use lead_generation_api_zyla.Errors.{Raised, ok, err}
use lead_generation_api_zyla.Exec.{Exec}
use lead_generation_api_zyla.Idempotency.{Store, second, live_entry, reserve, get, put, delete}
use lead_generation_api_zyla.Replay.{Process, conflict, replay_safe}

module _ {D B : Type 0} (ttl_seconds : ℕ) (search : Exec D B) where
  -- what is stored under a key when a request has returned
  abbrev IsStored : ℕ → String → String → B → Store B → Type 0
  IsStored finished key fingerprint b s =
      (expires : ℕ) × (s key
        ≡ some (expires, some (record { fingerprint = fingerprint; response_body = b })))

  -- A stored response answers the same request, and the database is not touched.
  pub hit_replays :
      (now later expires : ℕ) (key fingerprint : String) (b : B) (p : Process D B)
      → key ≢ ""
      → p.store key ≡ some (expires, some (record { fingerprint = fingerprint; response_body = b }))
      → now < expires
      → replay_safe ttl_seconds search now later (some key) fingerprint p ≡ (ok b, p)
  unfolding replay_safe get
  hit_replays now later expires key fingerprint b p ne stored fresh =
      rw stored (ground (arith, eq_iff key "", eq_iff fingerprint fingerprint))

  pub hit_conflicts :
      (now later expires : ℕ) (key fingerprint other : String) (b : B) (p : Process D B)
      → key ≢ ""
      → p.store key ≡ some (expires, some (record { fingerprint = fingerprint; response_body = b }))
      → now < expires
      → fingerprint ≢ other
      → replay_safe ttl_seconds search now later (some key) other p ≡ (err conflict, p)
  unfolding replay_safe get
  hit_conflicts now later expires key fingerprint other b p ne stored fresh differ =
      rw stored (ground (arith, eq_iff key "", eq_iff fingerprint other))

  -- a request that ran: its key was free, and its response is stored until the time to live is over
  stored_after :
      (started finished : ℕ) (key fingerprint : String) (p p' : Process D B) (b : B)
      → key ≢ ""
      → live_entry started (p.store key) ≡ none
      → replay_safe ttl_seconds search started finished (some key) fingerprint p ≡ (ok b, p')
      → p'.store key
        ≡ some (
          finished + ttl_seconds * second,
          some (record { fingerprint = fingerprint; response_body = b }),
        )
  unfolding replay_safe get reserve put
  stored_after started finished key fingerprint p p' b ne free h =
      ground (arith, eq_iff key "", eq_iff key key)

  -- A request under a free key that returned is replayed: the same request, started before the time to
  -- live is over, gets the same response, and neither the store nor the database changes, so that
  -- nothing is charged twice. Under the same key a request with another fingerprint is refused with
  -- the conflict error, and changes nothing either.
  pub replay_once :
      (started finished again later : ℕ) (key fingerprint other : String) (p p' : Process D B)
      (b : B)
      → key ≢ ""
      → live_entry started (p.store key) ≡ none
      → replay_safe ttl_seconds search started finished (some key) fingerprint p ≡ (ok b, p')
      → again < finished + ttl_seconds * second
      → fingerprint ≢ other
      → (replay_safe ttl_seconds search again later (some key) fingerprint p' ≡ (ok b, p'))
        × (replay_safe ttl_seconds search again later (some key) other p' ≡ (err conflict, p'))
  replay_once started finished again later key fingerprint other p p' b ne free h fresh differ =
      let kept = stored_after started finished key fingerprint p p' b ne free h in
      (
        hit_replays again later _ key fingerprint b p' ne kept fresh,
        hit_conflicts again later _ key fingerprint other b p' ne kept fresh differ,
      )

  -- A request under a free key whose search raises gives the error of the search, keeps the database as
  -- the search left it, and frees the key, so that the client may try again.
  pub failure_frees :
      (started finished : ℕ) (key fingerprint : String) (p : Process D B) (e : Raised) (db : D)
      → key ≢ ""
      → live_entry started (p.store key) ≡ none
      → search p.db ≡ (err e, db)
      → let (r, p') = replay_safe ttl_seconds search started finished (some key) fingerprint p in
        (r ≡ err e) × (p'.db ≡ db) × (p'.store key ≡ none)
  unfolding replay_safe get reserve delete
  failure_frees started finished key fingerprint p e db ne free h =
      ground (arith, eq_iff key "", eq_iff key key)

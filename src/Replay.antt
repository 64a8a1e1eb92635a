-- ===== src/Replay.antt =====
-- The replay-safe part of `search_leads` and `_execute_zyla_search` of app/main.py: everything
-- between the fingerprint of the request and its response, over the in-memory store. The search is
-- an argument: an action on the database, here of any type.
pub mod Stores
pub mod Shared
pub mod Once
pub mod Keeps
pub mod Schedule
pub mod Phases
pub mod Moves
pub mod Concurrent
pub mod Tests
use Prim.Native.String.{◌++◌ as str_append}
use lead_generation_api_zyla.Prelude.{
  ℕ, String, Bool, true, false, ◌==◌, Option, none, some, if◌then◌else◌,
}
use lead_generation_api_zyla.Errors.{
  Raised, Result, ok, err, app_error, idempotency_conflict, idempotency_in_progress,
}
use lead_generation_api_zyla.Exec.{Exec}
use lead_generation_api_zyla.Idempotency.{Store, IdempotencyHit, reserve, get, put, delete}

abbrev pub conflict : Raised
conflict =
    app_error "IDEMPOTENCY_CONFLICT" "Idempotency key was reused with a different request." 409

abbrev pub in_progress : Raised
in_progress =
    app_error "IDEMPOTENCY_IN_PROGRESS"
      "The original request is still being completed; retry shortly." 409

-- the `except` clauses round the calls of the store
abbrev pub translated : Raised → Raised
translated idempotency_conflict = conflict
translated idempotency_in_progress = in_progress
translated e = e

-- the API process: its store, and the database it shares
pub record Process (D B : Type 0) : Type 0 where
  pub store : Store B
  pub db : D

module _ {D B : Type 0} (ttl_seconds : ℕ) (search : Exec D B) where
  -- the `try` round the search: a response is stored, a failure frees the key
  finish : ℕ → String → String → Store B → Result B × D → Result B × Process D B
  finish finished key fingerprint store (ok b, db) = (
    ok b,
    record {
      store =
          put ttl_seconds finished key (record { fingerprint = fingerprint; response_body = b })
            store;
      db = db;
    },
  )
  finish finished key fingerprint store (err e, db) =
      (err e, record { store = delete ttl_seconds key store; db = db })

  -- after `reserve`
  run_reserved : ℕ → String → String → D → Result Bool × Store B → Result B × Process D B
  unfolding finish
  run_reserved finished key fingerprint db (ok true, store) =
      finish finished key fingerprint store (search db)
  run_reserved finished key fingerprint db (ok false, store) =
      (err in_progress, record { store = store; db = db })
  run_reserved finished key fingerprint db (err e, store) =
      (err (translated e), record { store = store; db = db })

  -- after `get`
  run_looked_up :
      ℕ
      → ℕ
      → String
      → String
      → D
      → Result (Option (IdempotencyHit B)) × Store B
      → Result B × Process D B
  unfolding run_reserved
  run_looked_up started finished key fingerprint db (ok (some hit), store) =
      (ok hit.response_body, record { store = store; db = db })
  run_looked_up started finished key fingerprint db (ok none, store) =
      run_reserved finished key fingerprint db (reserve ttl_seconds started key fingerprint store)
  run_looked_up started finished key fingerprint db (err e, store) =
      (err (translated e), record { store = store; db = db })

  without_key : Store B → Result B × D → Result B × Process D B
  without_key store (r, db) = (r, record { store = store; db = db })

  -- The request, started at one time and finished at another; an empty key is as good as none.
  pub replay_safe : ℕ → ℕ → Option String → String → Process D B → Result B × Process D B
  unfolding run_looked_up without_key
  replay_safe started finished none fingerprint p = without_key p.store (search p.db)
  replay_safe started finished (some key) fingerprint p =
      if key == ""
      then without_key p.store (search p.db)
      else run_looked_up started finished key fingerprint p.db
          (get ttl_seconds started key fingerprint p.store)
